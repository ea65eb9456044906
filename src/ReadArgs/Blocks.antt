-- ===== src/ReadArgs/Blocks.antt =====
-- What `read_args` saves where the buffer has room for the largest array: the bytes that it read,
-- or none where the read failed.
use stackplz.Base.{
  ℕ, ◌+◌, ◌-◌, ltb, ◌≤◌, ◌≡◌, refl, ap, ◌∙◌, subst, ◌<◌, List, [], ◌∷◌, ◌++◌, arith, ◌==◌,
  if◌then◌else◌, le_bytes, Bool, true, false, leb,
}
use stackplz.Types.{EventData, args_buf_size, max_bytes_arr_size, max_string_size}
use stackplz.Kernel.{
  Copy, copied, faulted, copy_bytes, is_copied, Source, Fills, FitsIn, Kernel, IsKernel,
}
use stackplz.Event.{Run, ok}
use stackplz.Event.Stream.{stream, emit}
use stackplz.Event.Entries.{block, encode}
use stackplz.Buffer.{save_bytes_to_buf, save_str_to_buf, sizeof_int, clip_size}
use stackplz.Buffer.Bytes.{body, saves_bytes, clip_size_small}
use stackplz.Buffer.Str.{saves_str}
use stackplz.Buffer.Total.{Saves, bytes-Saves, str-Saves, buf_off_of_eq}
use stackplz.ReadArgs.Exec.{or_empty}

-- What a read yields; a fault yields nothing.
abbrev pub contents : Copy → List ℕ
contents (copied bs) = bs
contents (faulted bs) = []

contents_if : (c : Copy) → (if is_copied c then copy_bytes c else []) ≡ contents c
contents_if (copied bs) = refl
contents_if (faulted bs) = refl

-- Room for the largest array.
abbrev pub HasRoom : EventData → Type 0
HasRoom e = e.buf_off + (max_bytes_arr_size + 1 + sizeof_int) ≤ args_buf_size

-- The call returns, and has saved a block of these bytes.
pub record SavesBlock (e : EventData) (index : ℕ) (bs : List ℕ) (run : Run (ℕ × EventData))
    : Type 0 where
  pub status : ℕ
  pub event : EventData
  pub returns : run ≡ ok (status, event)
  pub view : stream event ≡ emit (stream e) (encode (block index bs))

module _ (k : Kernel) (law : IsKernel k) (index : ℕ) where
  empty-Saves :
      (e : EventData)
      → HasRoom e
      → SavesBlock e index [] (save_bytes_to_buf e (k.probe_read 0) 0 index)
  unfolding encode
  empty-Saves e room =
      let fits : saves_bytes e (k.probe_read 0) 0 ≡ true = ground arith in
      let sv = bytes-Saves e (k.probe_read 0) 0 index (omega arith) (law.read_fills 0) in
      record {
        status = 1;
        event = sv.event;
        returns = rw fits at sv.returns;
        view = rw fits at sv.view;
      }

  or_empty-Saves :
      (e : EventData) (b : Bool) (bs : List ℕ) (run : Run (ℕ × EventData))
      → HasRoom e
      → Saves e b (encode (block index bs)) run
      → SavesBlock e index (if b then bs else []) (or_empty k 0 index run)
  unfolding or_empty
  or_empty-Saves e true bs run room sv = record {
    status = 1;
    event = sv.event;
    returns = rw sv.returns refl;
    view = sv.view;
  }
  or_empty-Saves e false bs run room sv =
      let again = empty-Saves sv.event (omega (arith, buf_off_of_eq e sv.event sv.view)) in
      record {
        status = 0;
        event = again.event;
        returns = rw (sv.returns, again.returns) refl;
        view = again.view ∙ ap (λ s. emit s (encode (block index []))) sv.view;
      }

  encode-contents :
      (ptr : Source) (n : ℕ)
      → Fills ptr
      → n ≤ max_bytes_arr_size
      → encode (block index (body ptr n)) ≡ index ∷ le_bytes 4 n ++ body ptr n
  unfolding encode
  encode-contents ptr n fills small =
      ap (λ m. index ∷ le_bytes 4 m ++ body ptr n)
        (ground (arith, fills (clip_size n), clip_size_small n))

  -- OP_SAVE_STRUCT saves what is there.
  pub bytes-SavesBlock :
      (e : EventData) (ptr : Source) (n : ℕ)
      → HasRoom e
      → Fills ptr
      → 0 < n
      → n ≤ max_bytes_arr_size
      → SavesBlock e index (contents (ptr n)) (or_empty k 0 index (save_bytes_to_buf e ptr n index))
  bytes-SavesBlock e ptr n room fills pos small =
      let sv : Saves e (saves_bytes e ptr n) (encode (block index (body ptr n)))
          (save_bytes_to_buf e ptr n index) =
        rw (encode-contents ptr n fills small) (bytes-Saves e ptr n index (omega arith) fills) in
      let fits_ : leb e.buf_off (args_buf_size - (max_bytes_arr_size + 1 + sizeof_int)) ≡ true =
        ground arith in
      let there : (n == 0) ≡ false = ground arith in
      let some_ : ltb 0 n ≡ true = ground arith in
      let same : (if saves_bytes e ptr n then body ptr n else []) ≡ contents (ptr n) =
        rw (clip_size_small n small, fits_, there, some_) (contents_if (ptr n)) in
      subst (λ bs. SavesBlock e index bs (or_empty k 0 index (save_bytes_to_buf e ptr n index)))
        same (or_empty-Saves e (saves_bytes e ptr n) (body ptr n) _ room sv)

  -- OP_SAVE_STRING saves the string.
  pub str-SavesBlock :
      (e : EventData) (ptr : Source)
      → HasRoom e
      → FitsIn ptr
      → SavesBlock e index
          (contents (ptr max_string_size))
          (or_empty k 0 index (save_str_to_buf e ptr index))
  unfolding encode
  str-SavesBlock e ptr room fits =
      let fits_ : leb e.buf_off (args_buf_size - (max_string_size + 1 + sizeof_int)) ≡ true =
        ground arith in
      let same : (if saves_str e ptr then copy_bytes (ptr max_string_size) else [])
          ≡ contents (ptr max_string_size) =
        rw fits_ (contents_if (ptr max_string_size)) in
      subst (λ bs. SavesBlock e index bs (or_empty k 0 index (save_str_to_buf e ptr index))) same
        (or_empty-Saves e (saves_str e ptr) (copy_bytes (ptr max_string_size)) _ room
          (str-Saves e ptr index (omega arith) fits))
