-- ===== src/Buffer/Total.antt =====
-- The saving functions as calls that always return, for the proofs about their callers.
use stackplz.Base.{
  ℕ, ◌+◌, ◌-◌, ◌≤◌, ◌<◌, ◌≡◌, refl, ap, ◌∙◌, sym, Bool, true, false, List, ◌∷◌, ◌++◌, arith, length,
  if◌then◌else◌, length-window, le_bytes, length-le_bytes, length-append,
}
use stackplz.Types.{EventData, args_buf_size, max_string_size}
use stackplz.Kernel.{variable, variable-Fills, Source, Fills, FitsIn, copy_bytes}
use stackplz.Event.{Run, ok, fault}
use stackplz.Event.Stream.{Stream, stream, emit, IsValid}
use stackplz.Buffer.{
  save_to_submit_buf, save_bytes_to_buf, save_str_to_buf, max_element_size, sizeof_int, clip_size,
}
use stackplz.Buffer.Submit.{seen, saved, submits, save_to_submit_buf-saved}
use stackplz.Buffer.Bytes.{saves_bytes, body, save_bytes_to_buf-saved, clip_size-le}
use stackplz.Buffer.Str.{saves_str, save_str_to_buf-saved}

-- The call returns the status, a valid record, and what `saved` says of the stream.
pub record Saves (e : EventData) (b : Bool) (bs : List ℕ) (run : Run (ℕ × EventData)) : Type 0 where
  pub event : EventData
  pub returns : run ≡ ok (if b then 1 else 0, event)
  pub valid : IsValid event
  pub view : stream event ≡ (if b then emit (stream e) bs else stream e)

pub length-stream : (e : EventData) → length (stream e).bytes ≡ e.buf_off
unfolding stream
length-stream e = length-window e.args 0 e.buf_off

pub buf_off_of_eq : (e e' : EventData) → stream e' ≡ stream e → e'.buf_off ≡ e.buf_off
buf_off_of_eq e e' h =
    sym (length-stream e') ∙ ap (λ (s : Stream). length s.bytes) h ∙ length-stream e

pub buf_off_of_emit :
    (e e' : EventData) (bs : List ℕ)
    → stream e' ≡ emit (stream e) bs
    → e'.buf_off ≡ e.buf_off + length bs
unfolding emit
buf_off_of_emit e e' bs h = omega (
  arith,
  length-stream e',
  length-stream e,
  ap (λ (s : Stream). length s.bytes) h,
  length-append (stream e).bytes bs,
)

Saves-of_seen :
    (e : EventData) (b : Bool) (bs : List ℕ) (run : Run (ℕ × EventData))
    → IsValid e
    → (b ≡ true → e.buf_off + length bs ≤ args_buf_size)
    → seen run ≡ ok (saved b (stream e) bs)
    → Saves e b bs run
Saves-of_seen e true bs (ok (n, e')) v room h =
    let view : stream e' ≡ emit (stream e) bs = ground arith in
    record {
      event = e';
      returns = ground arith;
      valid = omega (arith, room refl, buf_off_of_emit e e' bs view);
      view = view;
    }
Saves-of_seen e false bs (ok (n, e')) v room h =
    let view : stream e' ≡ stream e = ground arith in
    record {
      event = e';
      returns = ground arith;
      valid = omega (arith, buf_off_of_eq e e' view);
      view = view;
    }
Saves-of_seen e b bs fault v room h = cc

pub submit-Saves :
    (e : EventData) (ptr : Source) (size index : ℕ)
    → IsValid e
    → Fills ptr
    → size ≤ max_element_size
    → Saves e
        (submits e ptr size)
        (index ∷ copy_bytes (ptr size))
        (save_to_submit_buf e ptr size index)
submit-Saves e ptr size index v fills small =
    Saves-of_seen e (submits e ptr size) _ _ v (λ h. ground (arith, fills size))
      (save_to_submit_buf-saved e ptr size index v fills small)

pub bytes-Saves :
    (e : EventData) (ptr : Source) (size index : ℕ)
    → IsValid e
    → Fills ptr
    → Saves e
        (saves_bytes e ptr size)
        (index ∷ le_bytes sizeof_int size ++ body ptr size)
        (save_bytes_to_buf e ptr size index)
bytes-Saves e ptr size index v fills =
    Saves-of_seen e (saves_bytes e ptr size) _ _ v
      (λ h. ground (arith, fills (clip_size size), clip_size-le size))
      (save_bytes_to_buf-saved e ptr size index v fills)

pub str-Saves :
    (e : EventData) (ptr : Source) (index : ℕ)
    → IsValid e
    → FitsIn ptr
    → Saves e
        (saves_str e ptr)
        (index ∷ le_bytes sizeof_int (length (copy_bytes (ptr max_string_size)))
          ++ copy_bytes (ptr max_string_size))
        (save_str_to_buf e ptr index)
str-Saves e ptr index v fits =
    Saves-of_seen e (saves_str e ptr) _ _ v (λ h. ground (arith, fits max_string_size))
      (save_str_to_buf-saved e ptr index v fits)

-- With room, a variable of `w` bytes is saved.
pub word-saved :
    (e : EventData) (w index v : ℕ)
    → e.buf_off ≤ args_buf_size - (max_element_size + 1)
    → 0 < w
    → w ≤ max_element_size
    → (e' : EventData) × (save_to_submit_buf e (variable v) w index ≡ ok (1, e'))
      × (stream e' ≡ emit (stream e) (index ∷ le_bytes w v))
      × (e'.buf_off ≡ e.buf_off + (w + 1))
word-saved e w index v room pos small =
    let fits : submits e (variable v) w ≡ true = ground arith in
    let valid : IsValid e = omega arith in
    let sv = submit-Saves e (variable v) w index valid (variable-Fills v) small in
    let view : stream sv.event ≡ emit (stream e) (index ∷ le_bytes w v) = rw fits at sv.view in
    (
      sv.event,
      rw fits at sv.returns,
      view,
      omega (arith, buf_off_of_emit e sv.event (index ∷ le_bytes w v) view, length-le_bytes w v),
    )
