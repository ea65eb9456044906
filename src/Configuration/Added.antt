-- ===== src/Configuration/Added.antt =====
-- What `AddFilter` does to the filters, and that the names and the map find them again.
use stackplz.Base.{
  ℕ, suc, ◌+◌, ◌%◌, ◌^◌, ◌<◌, ◌≡◌, refl, sym, ◌∙◌, arith, Bool, true, false, Option, none, some,
  List, [], ◌∷◌, ◌++◌, leb, if◌then◌else◌, length, Option-cases, inl, inr,
}
use stackplz.Types.{equal_filter, greater_filter, less_filter, whitelist_filter, blacklist_filter}
use stackplz.ReadArgs.Strcmp.{same_bytes}
use stackplz.Configuration.{◌>>=◌}
use stackplz.Configuration.Numbers.{str_to_num64, decode_hex}
use stackplz.Configuration.Filters.{
  UserFilter, split_colon, addr_filter, hex_filter, number_filter, text_filter, is_case, addr_words,
  hex_words, equal_words, greater_words, less_words, white_words, black_words, read_filter,
  written_before, append_filter, add_filter,
}

-- The filters are numbered from here on, and none keeps its text.
abbrev pub NumberedFrom : ℕ → List UserFilter → Type 0
NumberedFrom i [] = Unit
NumberedFrom i (f ∷ fs) = ((f.filter_index ≡ i) × (f.filter_str ≡ [])) × NumberedFrom (suc i) fs

abbrev pub AreNumbered : List UserFilter → Type 0
AreNumbered fs = NumberedFrom 1 fs

pub NumberedFrom-append :
    (i j : ℕ) (fs : List UserFilter) (f : UserFilter)
    → NumberedFrom i fs
    → f.filter_index ≡ j
    → f.filter_str ≡ []
    → i + length fs ≡ j
    → NumberedFrom i (fs ++ f ∷ [])
NumberedFrom-append i j [] f all e s n = ((omega (arith, e, n), s), tt)
NumberedFrom-append i j (g ∷ fs) f all e s n =
    (all.0, NumberedFrom-append (suc i) j fs f all.1 e s (omega (arith, n)))

-- no filter keeps its text, so none is found that was written before
pub written_before-NumberedFrom :
    (i : ℕ) (fs : List UserFilter) (c : ℕ) (cs : List ℕ)
    → NumberedFrom i fs
    → written_before fs (c ∷ cs) ≡ none
unfolding written_before same_bytes
written_before-NumberedFrom i [] c cs all = refl
written_before-NumberedFrom i (f ∷ fs) c cs all =
    rw all.0.1 (written_before-NumberedFrom (suc i) fs c cs all.1)

abbrev Unnamed : Option UserFilter → Type 0
Unnamed o = (f : UserFilter) → o ≡ some f → f.filter_str ≡ []

none-Unnamed : Unnamed none
none-Unnamed f h = cc

>>=-Unnamed :
    {A : Type 0} (o : Option A) (g : A → Option UserFilter)
    → ((a : A) → Unnamed (g a))
    → Unnamed (o >>= g)
>>=-Unnamed none g h = none-Unnamed
>>=-Unnamed (some a) g h = h a

if-Unnamed :
    (b : Bool) {x y : Option UserFilter} → Unnamed x → Unnamed y → Unnamed (if b then x else y)
if-Unnamed true h h' = h
if-Unnamed false h h' = h'

some-Unnamed : (g : UserFilter) → g.filter_str ≡ [] → Unnamed (some g)
some-Unnamed g h f e = let same : g ≡ f = cc in rw (← same) h

addr_filter-Unnamed :
    (ip : List ℕ → Option (List ℕ)) (text : List ℕ) → Unnamed (addr_filter ip text)
unfolding addr_filter
addr_filter-Unnamed ip text = elim (Option-cases (ip text)) [
  | inl e ↦ rw (addr_filter, e) none-Unnamed
  | inr (bs, e) ↦
      rw (addr_filter, e)
        (if-Unnamed (leb 9 (length bs)) none-Unnamed
          (if-Unnamed (leb 4 (length bs)) (some-Unnamed _ refl) none-Unnamed))
]

hex_filter-Unnamed : (text : List ℕ) → Unnamed (hex_filter text)
unfolding hex_filter
hex_filter-Unnamed text = elim (Option-cases (decode_hex text)) [
  | inl e ↦ rw (hex_filter, e) none-Unnamed
  | inr (bs, e) ↦
      rw (hex_filter, e)
        (if-Unnamed (leb 9 (length bs)) none-Unnamed
          (>>=-Unnamed (str_to_num64 (b'0' ∷ b'x' ∷ text)) _ (λ v. some-Unnamed _ refl)))
]

number_filter-Unnamed : (type_ : ℕ) (text : List ℕ) → Unnamed (number_filter type_ text)
unfolding number_filter
number_filter-Unnamed type_ text = >>=-Unnamed (str_to_num64 text) _ (λ v. some-Unnamed _ refl)

text_filter-Unnamed : (type_ : ℕ) (text : List ℕ) → Unnamed (text_filter type_ text)
unfolding text_filter
text_filter-Unnamed type_ text =
    if-Unnamed (leb 257 (length text)) none-Unnamed (some-Unnamed _ refl)

read_filter-Unnamed :
    (ip : List ℕ → Option (List ℕ)) (word text : List ℕ) → Unnamed (read_filter ip word text)
unfolding read_filter
read_filter-Unnamed ip word text =
    if-Unnamed (is_case word addr_words) (addr_filter-Unnamed ip text) (
      if-Unnamed (is_case word hex_words) (hex_filter-Unnamed text) (
        if-Unnamed (is_case word equal_words) (number_filter-Unnamed equal_filter text) (
          if-Unnamed (is_case word greater_words) (number_filter-Unnamed greater_filter text) (
            if-Unnamed (is_case word less_words) (number_filter-Unnamed less_filter text) (
              if-Unnamed (is_case word white_words) (text_filter-Unnamed whitelist_filter text) (
                if-Unnamed (is_case word black_words) (text_filter-Unnamed blacklist_filter text)
                  none-Unnamed))))))

-- A text that names a filter, added: the filters grow by one at their end.
abbrev pub Appended : List UserFilter → ℕ → List UserFilter → Type 0
Appended fs i fs' =
    (i ≡ length fs + 1)
    × AreNumbered fs'
    × ((f : UserFilter) × (fs' ≡ fs ++ f ∷ []) × (f.filter_index ≡ i))

-- Filters are numbered from 1 on, in the order in which they are added: where `AddFilter` returns
-- on a text that is not empty, it has put a new filter behind the others and returns its number,
-- also where the same text was added before. There are fewer than 2^32 filters.
pub add_filter-Appends :
    (ip : List ℕ → Option (List ℕ)) (fs : List UserFilter) (c : ℕ) (cs : List ℕ) (i : ℕ)
    (fs' : List UserFilter)
    → AreNumbered fs
    → length fs + 1 < 2 ^ 32
    → add_filter ip fs (c ∷ cs) ≡ some (i, fs')
    → Appended fs i fs'
unfolding add_filter append_filter
add_filter-Appends ip fs c cs i fs' all small h =
    added (split_colon (c ∷ cs)) (rw (add_filter, written_before-NumberedFrom 1 fs c cs all) at h)
  where
    stored :
        (o : Option UserFilter)
        → Unnamed o
        → (o >>= λ f. some (append_filter fs f)) ≡ some (i, fs')
        → Appended fs i fs'
    stored none u e = absurd cc
    stored (some f) u e =
        let index : (length fs + 1) % 2 ^ 32 ≡ length fs + 1 = omega arith in
        let g = record f { filter_index = (length fs + 1) % 2 ^ 32 } in
        let number : g.filter_index ≡ i = cc in
        let grown : fs ++ g ∷ [] ≡ fs' = cc in
        (
          sym number ∙ index,
          rw (← grown)
              (NumberedFrom-append 1 (length fs + 1) fs g all index (u f refl) (omega arith)),
          (g, sym grown, number),
        )

    added :
        (o : Option (List ℕ × List ℕ))
        → (o >>= λ p. read_filter ip p.0 p.1 >>= λ f. some (append_filter fs f)) ≡ some (i, fs')
        → Appended fs i fs'
    added none e = absurd cc
    added (some (word, text)) e =
        stored (read_filter ip word text) (read_filter-Unnamed ip word text) e
