-- ===== src/Event/Stream.antt =====
-- The abstract view of an event record: its context, and the bytes saved so far in order.
use stackplz.Base.{
  ℕ, ◌+◌, ◌%◌, ◌^◌, ◌≤◌, ◌<◌, ◌≡◌, ap, ◌∙◌, List, ◌++◌, arith, length, Mem, write, window,
  window-write_below,
}
use stackplz.Types.{EventData, EventContext, args_buf_size}
use stackplz.Event.{ok, store, advance, count_arg}

pub record Stream : Type 0 where
  pub context : EventContext
  pub bytes : List ℕ

-- What a later `events_perf_submit` sends of the arguments, with the context.
unfoldable pub stream : EventData → Stream
stream e = record { context = e.context; bytes = window e.args 0 e.buf_off }

-- One more argument, encoded as `bs`.
unfoldable pub emit : Stream → List ℕ → Stream
emit s bs = record {
  context = record s.context { argnum = (s.context.argnum + 1) % 256 };
  bytes = s.bytes ++ bs;
}

-- The offset lies in the buffer.
pub record IsValid (e : EventData) : Type 0 where
  pub within : e.buf_off ≤ args_buf_size

pub store-ok :
    (e : EventData) (off : ℕ) (bs : List ℕ)
    → off + length bs ≤ args_buf_size
    → store e off bs ≡ ok (record e { args = write e.args off bs })
unfolding store
store-ok e off bs h = ground arith

-- A write at or past the offset is not seen.
pub stream-store_end :
    (e : EventData) (off : ℕ) (bs : List ℕ)
    → e.buf_off ≤ off
    → stream (record e { args = write e.args off bs }) ≡ stream e
unfolding stream
stream-store_end e off bs h =
    ap (λ t. record { context = e.context; bytes = t })
      (window-write_below e.args 0 e.buf_off off bs (omega arith))

-- Writing `bs` at the offset, then counting it, emits it.
pub stream-advance :
    (e : EventData) (f : Mem) (bs : List ℕ) (n : ℕ)
    → e.buf_off + length bs < 2 ^ 32
    → n ≡ length bs
    → window f 0 (e.buf_off + length bs) ≡ window e.args 0 e.buf_off ++ bs
    → stream (count_arg (advance (record e { args = f }) n)) ≡ emit (stream e) bs
unfolding stream emit advance count_arg
stream-advance e f bs n h en same =
    ap
      (λ t. record {
        context = record e.context { argnum = (e.context.argnum + 1) % 256 };
        bytes = t;
      })
      (ap (λ k. window f 0 k) (omega arith) ∙ same)
