-- ===== src/Decoder/Saves.antt =====
-- What the entries of a record are for its arguments: for each type, the values that are read back
-- and the entries that hold them.
use stackplz.Base.{
  ℕ, suc, ◌^◌, ◌<◌, ◌≡◌, ◌≢◌, Bool, true, false, List, [], ◌∷◌, ◌++◌, length, le_bytes, le_value,
}
use stackplz.Types.{strarr_magic_len, max_loop_count}
use stackplz.Event.Entries.{Entry, word, block, magic}
use stackplz.Decoder.Args.{
  Kind, number, text, std_text, buffer, number_ptr, texts, vectors, structure, Parsed, plain,
  with_bytes, with_value, with_texts, with_vectors, iov_read_count,
}

-- At most so many strings of an array, each behind its address; one that could not be read ends
-- them.
pub data SavesTexts : ℕ → List (ℕ × List ℕ) → List Entry → Type 0 where
  full : SavesTexts 0 [] []
  unreadable : {n : ℕ} (i j v : ℕ) → v < 2 ^ 64 → SavesTexts (suc n) [] (word 8 i v ∷ magic j ∷ [])
  one_text :
      {n : ℕ} {results : List (ℕ × List ℕ)} {entries : List Entry} (i j v : ℕ) (bs : List ℕ)
      → v < 2 ^ 64
      → v ≢ 0
      → length bs < strarr_magic_len
      → SavesTexts n results entries
      → SavesTexts (suc n) ((v, bs) ∷ results) (word 8 i v ∷ block j bs ∷ entries)

-- So many vectors, each a structure of an address and a length, then the bytes there.
pub data SavesVectors : ℕ → List (ℕ × ℕ × List ℕ) → List Entry → Type 0 where
  no_vectors : SavesVectors 0 [] []
  one_vector :
      {n : ℕ} {results : List (ℕ × ℕ × List ℕ)} {entries : List Entry} (i j base len : ℕ)
      (bs : List ℕ)
      → base < 2 ^ 64
      → len < 2 ^ 64
      → length bs < 2 ^ 32
      → SavesVectors n results entries
      → SavesVectors
          (suc n)
          ((base, len, bs) ∷ results)
          (block i (le_bytes 8 base ++ le_bytes 8 len) ∷ block j bs ∷ entries)

-- What is saved behind its length, whatever that is.
abbrev pub reads_text : Kind → Bool
reads_text text = true
reads_text std_text = true
reads_text buffer = true
reads_text _ = false

-- The decoder takes all that is saved of the type. Of the plain structures that are registered,
-- only `dirent` has a callback that takes less.
abbrev pub IsWhole : Kind → Type 0
IsWhole (structure size taken) = taken ≡ size
IsWhole _ = Unit

-- An argument starts with the value of its register, and is taken whole.
pub data Saves : Kind × Bool → Parsed → List Entry → Type 0 where
  unread : {kind : Kind} (i v : ℕ) → v < 2 ^ 64 → Saves (kind, false) (plain v) (word 8 i v ∷ [])
  a_number : (i v : ℕ) → v < 2 ^ 64 → Saves (number, true) (plain v) (word 8 i v ∷ [])
  a_text :
      {kind : Kind} (i j v : ℕ) (bs : List ℕ)
      → reads_text kind ≡ true
      → v < 2 ^ 64
      → length bs < 2 ^ 32
      → Saves (kind, true) (with_bytes v bs) (word 8 i v ∷ block j bs ∷ [])
  a_structure :
      (i j v size taken : ℕ) (bs : List ℕ)
      → v < 2 ^ 64
      → size < 2 ^ 32
      → size ≢ 0
      → length bs ≡ size
      → taken ≡ size
      → Saves (structure size taken, true) (with_bytes v bs) (word 8 i v ∷ block j bs ∷ [])
  no_structure :
      {size taken : ℕ} (i j v : ℕ)
      → v < 2 ^ 64
      → Saves (structure size taken, true) (plain v) (word 8 i v ∷ block j [] ∷ [])
  a_pointee :
      (i j v : ℕ) (bs : List ℕ)
      → v < 2 ^ 64
      → length bs ≡ 8
      → Saves (number_ptr, true) (with_value v (le_value bs)) (word 8 i v ∷ block j bs ∷ [])
  no_pointee :
      (i j v : ℕ)
      → v < 2 ^ 64
      → Saves (number_ptr, true) (with_value v 0) (word 8 i v ∷ block j [] ∷ [])
  some_texts :
      {results : List (ℕ × List ℕ)} {entries : List Entry} (i v : ℕ)
      → v < 2 ^ 64
      → SavesTexts max_loop_count results entries
      → Saves (texts, true) (with_texts v results) (word 8 i v ∷ entries)
  some_vectors :
      {results : List (ℕ × ℕ × List ℕ)} {entries : List Entry} (i j v count : ℕ)
      → v < 2 ^ 64
      → count < 2 ^ 64
      → SavesVectors (iov_read_count count) results entries
      → Saves (vectors, true) (with_vectors v results) (word 8 i v ∷ word 8 j count ∷ entries)

pub data SavesAll : List (Kind × Bool) → List Parsed → List Entry → Type 0 where
  nothing : SavesAll [] [] []
  argument :
      {arg : Kind × Bool} {args : List (Kind × Bool)} {result : Parsed} {results : List Parsed}
      {entries more : List Entry}
      → Saves arg result entries
      → SavesAll args results more
      → SavesAll (arg ∷ args) (result ∷ results) (entries ++ more)
