-- ===== src/Configuration/Found.antt =====
-- The filters found again: by their names, and by their numbers in the map of the kernel.
use stackplz.Base.{
  ℕ, suc, ◌+◌, ◌-◌, ◌^◌, ◌<◌, ◌≤◌, ◌≡◌, ◌≢◌, refl, sym, ap, ◌∙◌, arith, Bool, true, false, Option,
  some, List, [], ◌∷◌, ◌++◌, ◌==◌, if◌then◌else◌, length, Bool-cases, inl, inr,
}
use stackplz.Types.{ArgFilter}
use stackplz.ReadArgs.Strcmp.{same_bytes}
use stackplz.ReadArgs.Match.{same_bytes_refl, eq_of_same_bytes}
use stackplz.Configuration.Numbers.{str_to_num64}
use stackplz.Configuration.Numerals.{decimal, str_to_num64-decimal}
use stackplz.Configuration.Filters.{
  UserFilter, is_named, to_ebpf_value, get_filter_by_name, get_filter_index, load_filters,
}
use stackplz.Configuration.Added.{NumberedFrom, AreNumbered}

decimal_injective : (m n : ℕ) → m < 2 ^ 64 → n < 2 ^ 64 → decimal m ≡ decimal n → m ≡ n
decimal_injective m n small small' e =
    let read : some m ≡ some n =
      sym (str_to_num64-decimal m small) ∙ ap str_to_num64 e ∙ str_to_num64-decimal n small' in
    cc

same_tail : (c : ℕ) (xs ys : List ℕ) → same_bytes (c ∷ xs) (c ∷ ys) ≡ same_bytes xs ys
unfolding same_bytes
same_tail c xs ys = ground arith

-- the filter with the number `suc i` has the name with the number `i`
is_named_lem :
    (n i : ℕ) (f : UserFilter)
    → f.filter_index ≡ suc i
    → is_named (b'f' ∷ decimal n) f ≡ same_bytes (decimal n) (decimal i)
unfolding is_named
is_named_lem n i f e =
    let index : suc i - 1 ≡ i = omega arith in
    let counted : (suc i == 0) ≡ false = ground arith in
    rw (e, counted, index) (same_tail b'f' (decimal n) (decimal i))

is_named-other :
    (n i : ℕ) → n ≢ i → n < 2 ^ 64 → i < 2 ^ 64 → same_bytes (decimal n) (decimal i) ≡ false
is_named-other n i other small small' = elim (Bool-cases (same_bytes (decimal n) (decimal i))) [
  | inl same ↦ absurd (other (decimal_injective n i small small' (eq_of_same_bytes _ _ same)))
  | inr differ ↦ differ
]

by_name :
    (i : ℕ) (fs : List UserFilter) (n : ℕ)
    → NumberedFrom (suc i) fs
    → i ≤ n
    → n < i + length fs
    → n < 2 ^ 64
    → get_filter_index fs (b'f' ∷ decimal n) ≡ some (suc n)
unfolding get_filter_index get_filter_by_name
by_name i [] n all low high small = absurd (omega arith)
by_name i (f ∷ fs) n all low high small = elim (Bool-cases (n == i)) [
  | inl here ↦
      let same : f.filter_index ≡ suc n = grind arith in
      rw (is_named_lem n n f same, same_bytes_refl (decimal n)) (ap some same)
  | inr later ↦
      let other : n ≢ i = ground arith in
      rw (is_named_lem n i f all.0.0, is_named-other n i other small (omega arith))
        (by_name (suc i) fs n all.1 (omega (arith, other)) (omega arith) small)
]

-- The names `f0`, `f1` and so on stand for the filters in the order in which they were added: the
-- name with the number `n` finds the filter number `n + 1`, of fewer than 2^32 filters.
pub get_filter_index-decimal :
    (fs : List UserFilter) (n : ℕ)
    → AreNumbered fs
    → n < length fs
    → length fs < 2 ^ 32
    → get_filter_index fs (b'f' ∷ decimal n) ≡ some (n + 1)
get_filter_index-decimal fs n all h small =
    by_name 0 fs n all (omega arith) (omega arith) (omega arith) ∙ ap some (omega arith)

-- The map holds the filters under their numbers.
abbrev pub Holds : ℕ → List UserFilter → (ℕ → Option ArgFilter) → Type 0
Holds i [] m = Unit
Holds i (f ∷ fs) m = (m i ≡ some (to_ebpf_value f)) × Holds (suc i) fs m

load_filters-below :
    (room : (ℕ → Option ArgFilter) → ℕ → Bool) (i : ℕ) (fs : List UserFilter)
    (m m' : ℕ → Option ArgFilter)
    → NumberedFrom i fs
    → load_filters room fs m ≡ some m'
    → Holds i fs m' × ((key : ℕ) → key < i → m' key ≡ m key)
unfolding load_filters
load_filters-below room i [] m m' all h =
    let same : m ≡ m' = cc in (tt, λ key below. ap (λ g. g key) (sym same))
load_filters-below room i (f ∷ fs) m m' all h = elim (Bool-cases (room m f.filter_index)) [
  | inr full ↦ absurd (cc (rw (load_filters, full) at h))
  | inl fits ↦
      let m1 : ℕ → Option ArgFilter =
        λ key. if key == f.filter_index then some (to_ebpf_value f) else m key in
      let (later, below) =
        load_filters-below room (suc i) fs m1 m' all.1 (rw (load_filters, fits) at h) in
      let here : (i == f.filter_index) ≡ true = ground (arith, all.0.0) in
      let missed : (key : ℕ) → key < i → (key == f.filter_index) ≡ false =
        λ key low. ground (arith, all.0.0) in
      (
        (below i (omega arith) ∙ rw here refl, later),
        λ key low. below key (omega arith) ∙ rw (missed key low) refl,
      )
]

-- Where every update succeeds, the map that the module fills holds each filter under its number.
pub load_filters-Holds :
    (room : (ℕ → Option ArgFilter) → ℕ → Bool) (fs : List UserFilter) (m m' : ℕ → Option ArgFilter)
    → AreNumbered fs
    → load_filters room fs m ≡ some m'
    → Holds 1 fs m'
load_filters-Holds room fs m m' all h = (load_filters-below room 1 fs m m' all h).0

pub Holds-append :
    (i : ℕ) (fs : List UserFilter) (f : UserFilter) (m : ℕ → Option ArgFilter)
    → Holds i (fs ++ f ∷ []) m
    → m (i + length fs) ≡ some (to_ebpf_value f)
Holds-append i [] f m h = let here : i + 0 ≡ i = omega arith in rw here h.0
Holds-append i (g ∷ fs) f m h =
    let next : i + suc (length fs) ≡ suc i + length fs = omega arith in
    rw next (Holds-append (suc i) fs f m h.1)
