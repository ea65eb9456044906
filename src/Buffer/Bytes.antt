-- ===== src/Buffer/Bytes.antt =====
-- `save_bytes_to_buf` against the stream of saved arguments.
use stackplz.Base.{
  ℕ, ◌+◌, ◌-◌, ◌≤◌, ◌≡◌, ap, ◌∙◌, Bool, ◌&&◌, ◌||◌, List, [], ◌∷◌, ◌++◌, arith, length, leb, ltb,
  ◌==◌, write, window, window-write_end, if◌then◌else◌, append_assoc, le_bytes,
}
use stackplz.Base.Bits.{bit_and_12_ones}
use stackplz.Types.{EventData, args_buf_size, max_bytes_arr_size}
use stackplz.Kernel.{Source, Fills, is_copied, copy_bytes}
use stackplz.Event.{ok}
use stackplz.Event.Stream.{stream, IsValid, store-ok, stream-store_end, stream-advance}
use stackplz.Buffer.{save_bytes_to_buf, sizeof_int, clip_size}
use stackplz.Buffer.Submit.{seen, saved, window-index}

pub clip_size-le : (n : ℕ) → clip_size n ≤ max_bytes_arr_size
unfolding clip_size
clip_size-le n = ground (arith, bit_and_12_ones n)

-- A size up to MAX_BYTES_ARR_SIZE is kept.
pub clip_size_small : (n : ℕ) → n ≤ max_bytes_arr_size → clip_size n ≡ n
unfolding clip_size
clip_size_small n h = ground (arith, bit_and_12_ones n)

-- The bytes that follow the size.
abbrev pub body : Source → ℕ → List ℕ
body ptr size = if ltb 0 size then copy_bytes (ptr (clip_size size)) else []

-- The offset leaves room for the largest array, and there is nothing to read or the read succeeds.
abbrev pub saves_bytes : EventData → Source → ℕ → Bool
saves_bytes e ptr size =
    leb e.buf_off (args_buf_size - (max_bytes_arr_size + 1 + sizeof_int))
    && (size == 0 || is_copied (ptr (clip_size size)))

module _ (e : EventData) (ptr : Source) (size index : ℕ) where
  abbrev e1 : EventData
  e1 = record e { args = write e.args e.buf_off (index ∷ []) }

  abbrev e2 : EventData
  e2 = record e { args = write e1.args (e.buf_off + 1) (le_bytes sizeof_int size) }

  abbrev e3 : EventData
  e3 = record e {
    args = write e2.args (e.buf_off + 1 + sizeof_int) (copy_bytes (ptr (clip_size size)));
  }

  window-header :
      window e2.args 0 (e.buf_off + 5)
      ≡ window e.args 0 e.buf_off ++ index ∷ le_bytes sizeof_int size
  window-header = window-index e index (le_bytes sizeof_int size)

  window-body :
      (bs : List ℕ)
      → window
          (write e2.args (e.buf_off + 5) bs)
          0
          (e.buf_off + length (index ∷ le_bytes sizeof_int size ++ bs))
        ≡ window e.args 0 e.buf_off ++ (index ∷ le_bytes sizeof_int size ++ bs)
  window-body bs =
      ap (λ k. window (write e2.args (e.buf_off + 5) bs) 0 k) (omega arith)
      ∙ window-write_end e2.args (e.buf_off + 5) bs
      ∙ rw (window-header, append_assoc)

  -- For an offset in the buffer, a read that fills its destination and any size, the call returns
  -- without a write outside the buffer: with room and a successful read (none for the size 0) the
  -- bytes go out behind their index and the given size in four bytes, and count as one argument;
  -- otherwise the status is 0 and nothing goes out.
  pub save_bytes_to_buf-saved :
      IsValid e
      → Fills ptr
      → seen (save_bytes_to_buf e ptr size index)
        ≡ ok (
            saved
              (saves_bytes e ptr size)
              (stream e)
              (index ∷ le_bytes sizeof_int size ++ body ptr size))
  unfolding save_bytes_to_buf
  save_bytes_to_buf-saved v fills = ground (
    arith,
    fills (clip_size size),
    clip_size-le size,
    store-ok e e.buf_off (index ∷ []),
    store-ok e1 (e.buf_off + 1) (le_bytes sizeof_int size),
    store-ok e2 (e.buf_off + 1 + sizeof_int) (copy_bytes (ptr (clip_size size))),
    stream-store_end e e.buf_off (index ∷ []),
    stream-store_end e1 (e.buf_off + 1) (le_bytes sizeof_int size),
    stream-store_end e2 (e.buf_off + 1 + sizeof_int) (copy_bytes (ptr (clip_size size))),
    window-body (copy_bytes (ptr (clip_size size))),
    window-header,
    stream-advance e e2.args (index ∷ le_bytes sizeof_int size) (size + 1 + sizeof_int),
    stream-advance e e3.args (index ∷ le_bytes sizeof_int size ++ copy_bytes (ptr (clip_size size)))
        (clip_size size + 1 + sizeof_int),
  )
