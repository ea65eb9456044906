-- ===== src/ReadArgs/Keeps.antt =====
-- What every operation of `read_args` keeps: the event record stays valid, and its stream only
-- grows by entries.
use stackplz.Base.{
  ℕ, ◌≤◌, ◌≡◌, ap, Bool, true, false, [], ◌∷◌, ◌++◌, arith, if◌then◌else◌, ◌==◌, le_bytes,
  Bool-cases, inl, inr,
}
use stackplz.Types.{EventData, max_bytes_arr_size, strarr_magic_len}
use stackplz.Kernel.{Source, Fills, FitsIn, variable, variable-Fills, copy_bytes, Kernel}
use stackplz.Event.{Run, ok}
use stackplz.Event.Stream.{Stream, stream, IsValid}
use stackplz.Event.Entries.{
  Entry, word, block, magic, encode, Extends, Extends-of_eq, Extends-emit, Extends-trans,
}
use stackplz.Buffer.{save_to_submit_buf, save_bytes_to_buf, save_str_to_buf, clip_size}
use stackplz.Buffer.Bytes.{body, saves_bytes, clip_size_small}
use stackplz.Buffer.Total.{Saves, submit-Saves, bytes-Saves, str-Saves}
use stackplz.ReadArgs.State.{Step, next, stop, crash}
use stackplz.ReadArgs.Exec.{after, or_empty}

abbrev pub Good : Stream → EventData → Type 0
Good s e = IsValid e × Extends s (stream e)

abbrev pub Keeps : Stream → Step → Type 0
Keeps s (next r) = Good s r.event
Keeps s (stop r) = Good s r.event
Keeps s crash = ⊥

-- The event after a call, and the entry that it may have added.
pub record Grows (s : Stream) (run : Run (ℕ × EventData)) : Type 0 where
  pub status : ℕ
  pub event : EventData
  pub returns : run ≡ ok (status, event)
  pub good : Good s event

Saves-Extends :
    (e : EventData) (b : Bool) (x : Entry) {run : Run (ℕ × EventData)}
    (sv : Saves e b (encode x) run)
    → Extends (stream e) (stream sv.event)
Saves-Extends e true x sv = Extends-emit x sv.view
Saves-Extends e false x sv = Extends-of_eq sv.view

Saves-Grows :
    (s : Stream) (e : EventData) (b : Bool) (x : Entry) {run : Run (ℕ × EventData)}
    → Extends s (stream e)
    → Saves e b (encode x) run
    → Grows s run
Saves-Grows s e b x before sv = record {
  status = if b then 1 else 0;
  event = sv.event;
  returns = sv.returns;
  good = (sv.valid, Extends-trans before (Saves-Extends e b x sv));
}

module _ (s : Stream) (e : EventData) (index : ℕ) (g : Good s e) where
  pub word-Grows4 : (v : ℕ) → Grows s (save_to_submit_buf e (variable v) 4 index)
  unfolding encode
  word-Grows4 v =
      Saves-Grows s e _ (word 4 index v) g.1
        (submit-Saves e (variable v) 4 index g.0 (variable-Fills v) (omega arith))

  pub word-Grows : (v : ℕ) → Grows s (save_to_submit_buf e (variable v) 8 index)
  unfolding encode
  word-Grows v =
      Saves-Grows s e _ (word 8 index v) g.1
        (submit-Saves e (variable v) 8 index g.0 (variable-Fills v) (omega arith))

  encode-body :
      (ptr : Source) (n : ℕ)
      → Fills ptr
      → n ≤ max_bytes_arr_size
      → encode (block index (body ptr n)) ≡ index ∷ le_bytes 4 n ++ body ptr n
  unfolding encode
  encode-body ptr n fills small =
      ap (λ k. index ∷ le_bytes 4 k ++ body ptr n)
        (ground (arith, fills (clip_size n), clip_size_small n))

  pub bytes-Grows :
      (ptr : Source) (n : ℕ)
      → Fills ptr
      → n ≤ max_bytes_arr_size
      → Grows s (save_bytes_to_buf e ptr n index)
  bytes-Grows ptr n fills small =
      Saves-Grows s e (saves_bytes e ptr n) (block index (body ptr n)) g.1
        (rw (encode-body ptr n fills small) (bytes-Saves e ptr n index g.0 fills))

  body_of_magic : (ptr : Source) → Fills ptr → body ptr strarr_magic_len ≡ []
  unfolding clip_size
  body_of_magic ptr fills = ground (arith, fills 0)

  encode-magic :
      (ptr : Source)
      → Fills ptr
      → encode (magic index) ≡ index ∷ le_bytes 4 strarr_magic_len ++ body ptr strarr_magic_len
  unfolding encode
  encode-magic ptr fills = rw (body_of_magic ptr fills)

  pub magic-Grows :
      (ptr : Source) → Fills ptr → Grows s (save_bytes_to_buf e ptr strarr_magic_len index)
  magic-Grows ptr fills =
      Saves-Grows s e (saves_bytes e ptr strarr_magic_len) (magic index) g.1
        (rw (encode-magic ptr fills) (bytes-Saves e ptr strarr_magic_len index g.0 fills))

  pub str-Grows : (ptr : Source) → FitsIn ptr → Grows s (save_str_to_buf e ptr index)
  unfolding encode
  str-Grows ptr fits =
      Saves-Grows s e _ (block index (copy_bytes (ptr 4096))) g.1 (str-Saves e ptr index g.0 fits)

pub after-Keeps :
    (s : Stream) {run : Run (ℕ × EventData)} (f : ℕ → EventData → Step)
    → Grows s run
    → ((n : ℕ) (e : EventData) → Good s e → Keeps s (f n e))
    → Keeps s (after run f)
unfolding after
after-Keeps s f gr rest = rw gr.returns (rest gr.status gr.event gr.good)

pub or_empty-Grows :
    (s : Stream) (k : Kernel) (size index : ℕ) {run : Run (ℕ × EventData)}
    → Grows s run
    → ((e : EventData) → Good s e → Grows s (save_bytes_to_buf e (k.probe_read 0) size index))
    → Grows s (or_empty k size index run)
unfolding or_empty
or_empty-Grows s k size index gr retry =
    let again = retry gr.event gr.good in
    rw gr.returns (elim (Bool-cases (gr.status == 0)) [
      | inl z ↦ record {
        status = gr.status;
        event = again.event;
        returns = rw (z, again.returns);
        good = again.good;
      }
      | inr nz ↦ record { status = gr.status; event = gr.event; returns = rw nz; good = gr.good }
    ])
