-- ===== src/Configuration/Numerals.antt =====
-- A number that is written with digits is the number that `StrToNum64` reads.
use stackplz.Base.{
  ℕ, zero, suc, ◌+◌, ◌*◌, ◌/◌, ◌%◌, ◌^◌, ◌<◌, ◌≤◌, ◌≡◌, refl, ap, ◌∙◌, arith, false, some, List, [],
  ◌∷◌, ◌==◌, ltb, if◌then◌else◌, Bool-cases, inl, inr,
}
use stackplz.Configuration.Numbers.{
  digit_value, parse_digits, has_underscore, split_base, parse_uint, str_to_num64,
}

-- The decimal digits of a number, in front of a text; the first argument bounds how many.
unfoldable pub decimal_before : ℕ → ℕ → List ℕ → List ℕ
decimal_before zero n text = text
decimal_before (suc fuel) n text =
    let rest = decimal_before fuel (n / 10) ((b'0' + n % 10) ∷ text) in
    if ltb n 10 then (b'0' + n) ∷ text else rest

-- `fmt.Sprintf("%d", n)`
unfoldable pub decimal : ℕ → List ℕ
unfolding decimal_before
decimal n = decimal_before (suc n) n []

digit_value-digit : (d : ℕ) → d < 10 → digit_value (b'0' + d) ≡ some d
digit_value-digit d h = ground arith

-- one more digit
parse_digits-digit :
    (n d : ℕ) (text : List ℕ)
    → d < 10
    → n * 10 + d < 2 ^ 64
    → parse_digits 10 n ((b'0' + d) ∷ text) ≡ parse_digits 10 (n * 10 + d) text
unfolding parse_digits
parse_digits-digit n d text h small =
    let plain : ((b'0' + d) == b'_') ≡ false = ground arith in
    let known = digit_value-digit d h in rw (plain, known) (ground arith)

parse_digits-decimal_before :
    (fuel n : ℕ) (text : List ℕ)
    → n < fuel
    → n < 2 ^ 64
    → parse_digits 10 0 (decimal_before fuel n text) ≡ parse_digits 10 n text
unfolding decimal_before
parse_digits-decimal_before zero n text h small = absurd (omega arith)
parse_digits-decimal_before (suc fuel) n text h small = elim (Bool-cases (ltb n 10)) [
  | inl one ↦ rw one (
      parse_digits-digit 0 n text (ground arith) (omega arith)
      ∙ ap (λ m. parse_digits 10 m text) (omega arith))
  | inr more ↦
      let big : 10 ≤ n = ground arith in
      rw more (
        parse_digits-decimal_before fuel (n / 10) ((b'0' + n % 10) ∷ text) (omega arith)
          (omega arith)
        ∙ parse_digits-digit (n / 10) (n % 10) text (omega arith) (omega arith)
        ∙ ap (λ m. parse_digits 10 m text) (omega arith))
]

decimal_before-has_underscore :
    (fuel n : ℕ) (text : List ℕ)
    → has_underscore text ≡ false
    → has_underscore (decimal_before fuel n text) ≡ false
unfolding decimal_before
decimal_before-has_underscore zero n text h = h
decimal_before-has_underscore (suc fuel) n text h =
    let rest =
      decimal_before-has_underscore fuel (n / 10) ((b'0' + n % 10) ∷ text) (ground arith) in
    ground (arith, rest)

first-split_base : (c : ℕ) (cs : List ℕ) → b'0' < c → split_base (c ∷ cs) ≡ (10, c ∷ cs)
unfolding split_base
first-split_base c [] h = ground arith
first-split_base c (p ∷ []) h = ground arith
first-split_base c (p ∷ d ∷ cs) h = ground arith

-- The digits start with none that names a base.
decimal_before-split_base :
    (fuel n : ℕ) (text : List ℕ)
    → n < fuel
    → 0 < n
    → split_base (decimal_before fuel n text) ≡ (10, decimal_before fuel n text)
unfolding decimal_before
decimal_before-split_base zero n text h pos = absurd (omega arith)
decimal_before-split_base (suc fuel) n text h pos = elim (Bool-cases (ltb n 10)) [
  | inl one ↦ rw one (first-split_base (b'0' + n) text (omega arith))
  | inr more ↦
      let big : 10 ≤ n = ground arith in
      rw more (
        decimal_before-split_base fuel (n / 10) ((b'0' + n % 10) ∷ text) (omega arith)
          (omega arith))
]

-- a number of base 10 without underscores
parse_uint-plain :
    (text : List ℕ) (n : ℕ)
    → split_base text ≡ (10, text)
    → has_underscore text ≡ false
    → parse_digits 10 0 text ≡ some n
    → 0 < n
    → parse_uint text ≡ some n
unfolding parse_uint parse_digits
parse_uint-plain [] n base plain digits pos = absurd (ground (arith, digits))
parse_uint-plain (c ∷ cs) n base plain digits pos = rw (base, plain) digits

str_to_num64_zero : str_to_num64 (decimal 0) ≡ some 0
unfolding str_to_num64 decimal
str_to_num64_zero = refl

-- `StrToNum64` reads the decimal digits of a number of 64 bits as that number.
pub str_to_num64-decimal : (n : ℕ) → n < 2 ^ 64 → str_to_num64 (decimal n) ≡ some n
unfolding str_to_num64 decimal
str_to_num64-decimal zero h = str_to_num64_zero
str_to_num64-decimal (suc m) h =
    let n = suc m in
    parse_uint-plain (decimal n) n
      (decimal_before-split_base (suc n) n [] (omega arith) (omega arith))
      (decimal_before-has_underscore (suc n) n [] refl)
      (parse_digits-decimal_before (suc n) n [] (omega arith) h) (omega arith)
