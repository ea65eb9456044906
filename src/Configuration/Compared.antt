-- ===== src/Configuration/Compared.antt =====
-- A filter on a value, from what the user writes to the values that the kernel keeps.
use stackplz.Base.{
  ℕ, ◌+◌, ◌%◌, ◌^◌, ◌<◌, ◌≡◌, ◌↔◌, refl, ◌∙◌, arith, Bool, true, false, Option, some, List, [], ◌∷◌,
  ◌++◌, if◌then◌else◌, length,
}
use stackplz.Types.{ArgFilter, equal_filter, greater_filter, less_filter}
use stackplz.Kernel.{Config}
use stackplz.ReadArgs.Filters.{rejects_value}
use stackplz.Compiler.Runs.Filters.{AreLoaded, admits_value}
use stackplz.Configuration.Numerals.{decimal, str_to_num64-decimal}
use stackplz.Configuration.Filters.{
  UserFilter, blank_filter, to_ebpf_value, split_colon, number_filter, read_filter, append_filter,
  add_filter, load_filters,
}
use stackplz.Configuration.Added.{AreNumbered, NumberedFrom-append, written_before-NumberedFrom}
use stackplz.Configuration.Found.{load_filters-Holds, Holds-append}

-- The three comparisons, the words that they are written with, and the codes that they get.
pub data Comparison : Type 0 where
  equal : Comparison
  greater : Comparison
  less : Comparison

abbrev pub code_of : Comparison → ℕ
code_of equal = equal_filter
code_of greater = greater_filter
code_of less = less_filter

-- such as `gt:5`
abbrev pub written : Comparison → ℕ → List ℕ
written equal n = b'e' ∷ b'q' ∷ b':' ∷ decimal n
written greater n = b'g' ∷ b't' ∷ b':' ∷ decimal n
written less n = b'l' ∷ b't' ∷ b':' ∷ decimal n

-- The values that such a filter lets pass in the kernel.
abbrev pub Keeps : Comparison → ℕ → ℕ → Type 0
Keeps equal n v = v ≡ n
Keeps greater n v = v < n
Keeps less n v = n < v

-- the filter that is made of it
abbrev pub compared : Comparison → ℕ → UserFilter
compared c n = record blank_filter { filter_type = code_of c; num_val = n }

number_filter_lem :
    (type_ n : ℕ)
    → n < 2 ^ 64
    → number_filter type_ (decimal n)
      ≡ some (record blank_filter { filter_type = type_; num_val = n })
unfolding number_filter
number_filter_lem type_ n h = rw (number_filter, str_to_num64-decimal n h) refl

-- the text is split, its word found in the switch, and its number read
add_filter-written :
    (ip : List ℕ → Option (List ℕ)) (fs : List UserFilter) (c : Comparison) (n : ℕ)
    → AreNumbered fs
    → n < 2 ^ 64
    → add_filter ip fs (written c n) ≡ some (append_filter fs (compared c n))
unfolding add_filter split_colon read_filter
add_filter-written ip fs equal n all h =
    rw (add_filter, written_before-NumberedFrom 1 fs _ _ all, number_filter_lem equal_filter n h)
      refl
add_filter-written ip fs greater n all h =
    rw (add_filter, written_before-NumberedFrom 1 fs _ _ all, number_filter_lem greater_filter n h)
      refl
add_filter-written ip fs less n all h =
    rw (add_filter, written_before-NumberedFrom 1 fs _ _ all, number_filter_lem less_filter n h)
      refl

rejects_value-Keeps :
    (c : Comparison) (n v i : ℕ)
    → let f = to_ebpf_value (record (compared c n) { filter_index = i }) in
      (rejects_value f v ≡ false) ↔ Keeps c n v
unfolding rejects_value to_ebpf_value
rejects_value-Keeps equal n v i = (λ h. ground (arith, h), λ h. ground (arith, h))
rejects_value-Keeps greater n v i = (λ h. ground (arith, h), λ h. ground (arith, h))
rejects_value-Keeps less n v i = (λ h. ground (arith, h), λ h. ground (arith, h))

-- The new filter and the map that the module fills then.
append_filter-Holds :
    (room : (ℕ → Option ArgFilter) → ℕ → Bool) (fs : List UserFilter) (f : UserFilter)
    (m m' : ℕ → Option ArgFilter)
    → AreNumbered fs
    → f.filter_str ≡ []
    → length fs + 1 < 2 ^ 32
    → load_filters room (append_filter fs f).1 m ≡ some m'
    → m' (length fs + 1) ≡ some (to_ebpf_value (record f { filter_index = length fs + 1 }))
unfolding append_filter
append_filter-Holds room fs f m m' all plain small h =
    let number : (length fs + 1) % 2 ^ 32 ≡ length fs + 1 = omega arith in
    let g = record f { filter_index = length fs + 1 } in
    let grown = NumberedFrom-append 1 (length fs + 1) fs g all refl plain (omega arith) in
    let held =
      load_filters-Holds room (fs ++ g ∷ []) m m' grown (rw (append_filter, number) at h) in
    let place : 1 + length fs ≡ length fs + 1 = omega arith in
    rw place at (Holds-append 1 fs g m' held)

admitted :
    {P : Type 0} (b : Bool)
    → (b ≡ false → P)
    → (P → b ≡ false)
    → ((if b then false else true) ≡ true) ↔ P
admitted true keeps kept = ((λ h. absurd cc), λ p. cc (kept p))
admitted false keeps kept = ((λ h. keeps refl), λ p. refl)

-- A comparison with a number of 64 bits that the user writes, in decimal and under its short name,
-- is added behind fewer than 2^32 filters: `AddFilter` returns the next number. Once the module has
-- filled the map, the kernel finds a filter under this number, and it lets a value pass exactly
-- where the value equals the number for `eq`, is below it for `gt`, and is above it for `lt`.
pub admits_value-written :
    (ip : List ℕ → Option (List ℕ)) (room : (ℕ → Option ArgFilter) → ℕ → Bool)
    (fs : List UserFilter) (c : Comparison) (n : ℕ) (cfg : Config) (m : ℕ → Option ArgFilter)
    → AreNumbered fs
    → n < 2 ^ 64
    → length fs + 1 < 2 ^ 32
    → load_filters room (append_filter fs (compared c n)).1 m ≡ some cfg.arg_filter
    → (add_filter ip fs (written c n) ≡ some (length fs + 1, (append_filter fs (compared c n)).1))
      × AreLoaded cfg ((length fs + 1) ∷ [])
      × ((v : ℕ) → (admits_value cfg v ((length fs + 1) ∷ []) ≡ true) ↔ Keeps c n v)
unfolding append_filter
admits_value-written ip room fs c n cfg m all fits small h =
    let number : (length fs + 1) % 2 ^ 32 ≡ length fs + 1 = omega arith in
    let g = record (compared c n) { filter_index = length fs + 1 } in
    let held = append_filter-Holds room fs (compared c n) m cfg.arg_filter all refl small h in
    (
      add_filter-written ip fs c n all fits ∙ rw (append_filter, number) refl,
      ((to_ebpf_value g, held), tt),
      (λ v.
          let (keeps, kept) = rejects_value-Keeps c n v (length fs + 1) in
          rw (admits_value, held) (admitted (rejects_value (to_ebpf_value g) v) keeps kept)),
    )
