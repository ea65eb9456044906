-- ===== src/Buffer/Submit.antt =====
-- `save_to_submit_buf` against the stream of saved arguments.
use stackplz.Base.{
  ℕ, ◌+◌, ◌-◌, ◌≤◌, ◌≡◌, ap, ◌∙◌, Bool, not, ◌&&◌, List, [], ◌∷◌, ◌++◌, arith, length, leb, ◌==◌,
  write, window, window-write_end, if◌then◌else◌, append_assoc,
}
use stackplz.Types.{EventData, args_buf_size}
use stackplz.Kernel.{Source, Fills, is_copied, copy_bytes}
use stackplz.Event.{Run, ok, map_run}
use stackplz.Event.Stream.{
  Stream, stream, emit, IsValid, store-ok, stream-store_end, stream-advance,
}
use stackplz.Buffer.{save_to_submit_buf, max_element_size}

-- What a caller sees of a status and the record.
abbrev pub seen : Run (ℕ × EventData) → Run (ℕ × Stream)
seen = map_run (λ (r, e). (r, stream e))

-- An argument is emitted whole, or nothing changes and the status says so.
abbrev pub saved : Bool → Stream → List ℕ → ℕ × Stream
saved b s bs = if b then (1, emit s bs) else (0, s)

-- The size is not zero, the offset leaves room for the largest element, and the read succeeds.
abbrev pub submits : EventData → Source → ℕ → Bool
submits e ptr size =
    not (size == 0)
    && leb e.buf_off (args_buf_size - (max_element_size + 1))
    && is_copied (ptr size)

pub window-index :
    (e : EventData) (index : ℕ) (bs : List ℕ)
    → window
        (write (write e.args e.buf_off (index ∷ [])) (e.buf_off + 1) bs)
        0
        (e.buf_off + length (index ∷ bs))
      ≡ window e.args 0 e.buf_off ++ index ∷ bs
window-index e index bs =
    ap (λ k. window (write (write e.args e.buf_off (index ∷ [])) (e.buf_off + 1) bs) 0 k)
      (omega arith)
    ∙ window-write_end (write e.args e.buf_off (index ∷ [])) (e.buf_off + 1) bs
    ∙ rw (window-write_end e.args e.buf_off (index ∷ []), append_assoc)

-- For an offset in the buffer, a read that fills its destination and a size up to that of the
-- largest element, the call returns without a write outside the buffer: with a size, room and a
-- successful read the bytes go out behind their index, and count as one argument; otherwise the
-- status is 0 and nothing goes out.
pub save_to_submit_buf-saved :
    (e : EventData) (ptr : Source) (size index : ℕ)
    → IsValid e
    → Fills ptr
    → size ≤ max_element_size
    → seen (save_to_submit_buf e ptr size index)
      ≡ ok (saved (submits e ptr size) (stream e) (index ∷ copy_bytes (ptr size)))
unfolding save_to_submit_buf
save_to_submit_buf-saved e ptr size index v fills small = ground (
  arith,
  fills size,
  store-ok e e.buf_off (index ∷ []),
  store-ok (record e { args = write e.args e.buf_off (index ∷ []) }) (e.buf_off + 1)
      (copy_bytes (ptr size)),
  stream-store_end e e.buf_off (index ∷ []),
  stream-store_end (record e { args = write e.args e.buf_off (index ∷ []) }) (e.buf_off + 1)
      (copy_bytes (ptr size)),
  window-index e index (copy_bytes (ptr size)),
  stream-advance e
      (write (write e.args e.buf_off (index ∷ [])) (e.buf_off + 1) (copy_bytes (ptr size)))
      (index ∷ copy_bytes (ptr size)) (size + 1),
)
