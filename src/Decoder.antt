-- ===== src/Decoder.antt =====
-- User space reads a record back: `binary.Read` of a buffer, one field after the other, in
-- user/event/ievent.go, event_context.go, event_raw_syscalls.go and user/argtype. `none` is an
-- error or a panic. The texts that are printed are not modelled, only what goes into them.
pub mod Fields
pub mod Args
pub mod Record
pub mod Context
pub mod Saves
pub mod RoundTrip
pub mod Uprobe
pub mod Sent
pub mod SentProbe
pub mod Vectors
pub mod Dirent
use stackplz.Base.{
  ℕ, ◌-◌, ◌≡◌, Bool, Option, none, some, List, [], ◌∷◌, ltb, if◌then◌else◌, length, take, drop,
  le_value,
}

-- A reader takes what it wants from the front of the buffer, and leaves the rest.
abbrev pub Reads : Type 0 → Type 0
Reads A = List ℕ → Option (A × List ℕ)

infixl 5 ◌>>=◌
unfoldable pub ◌>>=◌ : {A B : Type 0} → Reads A → (A → Reads B) → Reads B
◌>>=◌ m f buf = elim (m buf) [ none ↦ none | some (a, rest) ↦ f a rest ]

abbrev pub pure : {A : Type 0} → A → Reads A
pure a buf = some (a, buf)

-- `panic` and an error that is handed on
abbrev pub panic : {A : Type 0} → Reads A
panic buf = none

-- `binary.Read` into a slice of `n` bytes
unfoldable pub read_bytes : ℕ → Reads (List ℕ)
read_bytes n buf = if ltb (length buf) n then none else some (take n buf, drop n buf)

-- `binary.Read` into an integer of `w` bytes
unfoldable pub read_num : ℕ → Reads ℕ
read_num w = do bs ← read_bytes w; pure (le_value bs)

-- `ReadArg`: the index is read and not looked at
unfoldable pub read_arg : ℕ → Reads ℕ
read_arg w = do _ ← read_num 1; read_num w
