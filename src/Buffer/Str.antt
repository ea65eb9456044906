-- ===== src/Buffer/Str.antt =====
-- `save_str_to_buf` against the stream of saved arguments.
use stackplz.Base.{
  ℕ, ◌+◌, ◌-◌, ◌≡◌, ap, ◌∙◌, Bool, ◌&&◌, List, [], ◌∷◌, ◌++◌, arith, length, leb, write, window,
  window-write_end, window-write_gap, append_assoc, le_bytes,
}
use stackplz.Types.{EventData, args_buf_size, max_string_size}
use stackplz.Kernel.{Source, FitsIn, is_copied, copy_bytes}
use stackplz.Event.{ok}
use stackplz.Event.Stream.{stream, IsValid, store-ok, stream-store_end, stream-advance}
use stackplz.Buffer.{save_str_to_buf, sizeof_int}
use stackplz.Buffer.Submit.{seen, saved}

-- The offset leaves room for the longest string, and the read succeeds.
abbrev pub saves_str : EventData → Source → Bool
saves_str e ptr =
    leb e.buf_off (args_buf_size - (max_string_size + 1 + sizeof_int))
    && is_copied (ptr max_string_size)

module _ (e : EventData) (ptr : Source) (index : ℕ) where
  abbrev text : List ℕ
  text = copy_bytes (ptr max_string_size)

  abbrev header : List ℕ
  header = le_bytes sizeof_int (length text)

  abbrev e1 : EventData
  e1 = record e { args = write e.args e.buf_off (index ∷ []) }

  abbrev e2 : EventData
  e2 = record e { args = write e1.args (e.buf_off + 1 + sizeof_int) text }

  abbrev e3 : EventData
  e3 = record e { args = write e2.args (e.buf_off + 1) header }

  window-text :
      window e3.args 0 (e.buf_off + length (index ∷ header ++ text))
      ≡ window e.args 0 e.buf_off ++ (index ∷ header ++ text)
  window-text =
      ap (λ k. window e3.args 0 k) (omega arith)
      ∙ window-write_gap e1.args (e.buf_off + 1) header text
      ∙ rw (window-write_end e.args e.buf_off (index ∷ []), append_assoc)

  -- For an offset in the buffer and a read of at most the size asked for, the call returns without
  -- a write outside the buffer: with room and a successful read the string goes out behind its index and its length in four
  -- bytes, and counts as one argument; otherwise the status is 0 and nothing goes out.
  pub save_str_to_buf-saved :
      IsValid e
      → FitsIn ptr
      → seen (save_str_to_buf e ptr index)
        ≡ ok (saved (saves_str e ptr) (stream e) (index ∷ header ++ text))
  unfolding save_str_to_buf
  save_str_to_buf-saved v fits = ground (
    arith,
    fits max_string_size,
    store-ok e e.buf_off (index ∷ []),
    store-ok e1 (e.buf_off + 1 + sizeof_int) text,
    store-ok e2 (e.buf_off + 1) header,
    stream-store_end e e.buf_off (index ∷ []),
    stream-store_end e1 (e.buf_off + 1 + sizeof_int) text,
    window-text,
    stream-advance e e3.args (index ∷ header ++ text) (length text + sizeof_int + 1),
  )
