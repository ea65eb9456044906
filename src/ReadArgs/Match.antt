-- ===== src/ReadArgs/Match.antt =====
-- `strcmp_by_map` decides whether the bytes at the address are those of the filter.
use stackplz.Base.{
  ℕ, ◌≡◌, ◌≢◌, ◌≤◌, ◌↔◌, refl, arith, true, Option, none, some, List, [], ◌∷◌, ltb, if◌then◌else◌,
  Bool-cases, inl, inr,
}
use stackplz.Types.{OpCtx, ArgFilter}
use stackplz.Kernel.{Kernel}
use stackplz.ReadArgs.State.{Strs}
use stackplz.ReadArgs.Strcmp.{
  same_bytes, set_buf, make_str_buf, str_value, lookup_value, compare_in, strcmp_by_map, zeroed,
}

pub same_bytes_refl : (xs : List ℕ) → same_bytes xs xs ≡ true
unfolding same_bytes
same_bytes_refl [] = refl
same_bytes_refl (x ∷ xs) = ground (arith, same_bytes_refl xs)

pub eq_of_same_bytes : (xs ys : List ℕ) → same_bytes xs ys ≡ true → xs ≡ ys
unfolding same_bytes
eq_of_same_bytes [] [] h = refl
eq_of_same_bytes [] (y ∷ ys) h = cc
eq_of_same_bytes (x ∷ xs) [] h = cc
eq_of_same_bytes (x ∷ xs) (y ∷ ys) h = ground (arith, eq_of_same_bytes xs ys)

-- The comparison goes through an otherwise empty map that has room.
abbrev pub Ready : Kernel → Strs → Type 0
Ready k s =
    ((key : List ℕ) → s.str_buf key ≡ none)
    × ((m : List ℕ → Option ℕ) (key : List ℕ) → k.str_buf_room m key ≡ true)

lookup_value_lem :
    (k : Kernel) (s : Strs) (value : List ℕ) (f : ArgFilter)
    → Ready k s
    → ((lookup_value k s value f).0 ≡ (if same_bytes value f.str_val then 1 else 0))
      × ((key : List ℕ) → (lookup_value k s value f).1.str_buf key ≡ none)
unfolding lookup_value
lookup_value_lem k s value f (empty, room) = (
  ground (arith, room s.str_buf f.str_val, empty value),
  λ key. ground (arith, room s.str_buf f.str_val, empty value, empty key),
)

make_str_buf-Ready : (k : Kernel) (s : Strs) → Ready k s → Ready k (make_str_buf k s).1
unfolding make_str_buf
make_str_buf-Ready k s (empty, room) = (λ key. ground (arith, empty key), room)

Matches : Kernel → OpCtx → ArgFilter → Type 0
Matches k c f = (f.str_len ≤ c.str_len) × (str_value k c f ≡ f.str_val)

compare_in_iff :
    (o : Option (List ℕ)) (k : Kernel) (s : Strs) (c : OpCtx) (f : ArgFilter)
    → o ≢ none
    → Ready k s
    → (((compare_in o k s c f).0 ≡ 1) ↔ Matches k c f)
      × ((key : List ℕ) → (compare_in o k s c f).1.str_buf key ≡ none)
unfolding compare_in Matches
compare_in_iff none k s c f buffer ready = absurd (buffer refl)
compare_in_iff (some b) k s c f buffer ready = elim (Bool-cases (ltb c.str_len f.str_len)) [
  | inl short ↦ rw short ((λ h. absurd (omega arith), λ h. absurd (ground arith)), ready.0)
  | inr long ↦
      let value = str_value k c f in
      let s' = set_buf k (set_buf k s zeroed) value in
      let (answer, clean) = lookup_value_lem k s' value f ready in
      rw long (elim (Bool-cases (same_bytes value f.str_val)) [
        | inl same ↦ (
          (λ h. (ground arith, eq_of_same_bytes value f.str_val same), λ h. rw same at answer),
          clean,
        )
        | inr other ↦ (
          (
            λ h. absurd (omega (arith, rw other at answer)),
            λ h. cc (rw h.1 at other, same_bytes_refl f.str_val),
          ),
          clean,
        )
      ])
]

-- Where the map of texts is empty and takes every entry, and this thread has a buffer, the answer is
-- 1 exactly if the string that was saved is at least as long as the filter's text and the bytes
-- at its address, filled up with zeros, are the filter's; and the map is empty again.
pub strcmp_by_map_iff :
    (k : Kernel) (s : Strs) (c : OpCtx) (f : ArgFilter)
    → Ready k s
    → (make_str_buf k s).0 ≢ none
    → (((strcmp_by_map k s c f).0 ≡ 1) ↔ ((f.str_len ≤ c.str_len) × (str_value k c f ≡ f.str_val)))
      × ((key : List ℕ) → (strcmp_by_map k s c f).1.str_buf key ≡ none)
unfolding strcmp_by_map Matches
strcmp_by_map_iff k s c f ready buffer =
    compare_in_iff (make_str_buf k s).0 k (make_str_buf k s).1 c f buffer
      (make_str_buf-Ready k s ready)
