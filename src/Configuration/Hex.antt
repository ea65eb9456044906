-- ===== src/Configuration/Hex.antt =====
-- The bytes of a hexadecimal text, and the number that `StrToNum64` reads from it.
use stackplz.Base.{
  ℕ, zero, suc, ◌+◌, ◌-◌, ◌*◌, ◌/◌, ◌%◌, ◌^◌, ◌<◌, ◌≤◌, ◌≡◌, refl, sym, ap, ◌∙◌, arith, false, some,
  List, [], ◌∷◌, ◌++◌, replicate, le_value, ◌==◌, length, Option-cases, inl, inr,
}
use native.Mathlib.Nat.{
  pow-suc, one-le-pow, pow-le-pow_right, mul-le-mul_right, mul_assoc, mul_comm, le-mul_of_pos_right,
  le-div_iff_mul-le, mul-div_cancel, div-lt_iff_lt-mul,
}
use stackplz.Configuration.Numbers.{
  digit_value, parse_digits, has_underscore, split_base, parse_uint, str_to_num64, from_hex,
  decode_hex,
}

-- The number of these bytes, the highest first, behind the number of those before.
unfoldable pub be_value : ℕ → List ℕ → ℕ
be_value m [] = m
be_value m (b ∷ bs) = be_value (m * 256 + b) bs

-- a digit of `hex.DecodeString` is one of `strconv.ParseUint`
from_hex-digit :
    (c d : ℕ) → from_hex c ≡ some d → (digit_value c ≡ some d) × (d < 16) × ((c == b'_') ≡ false)
from_hex-digit c d h = ground (arith, h)

-- one digit of base 16 read
parse_digits-hex :
    (m c d : ℕ) (cs : List ℕ)
    → from_hex c ≡ some d
    → m * 16 + d < 2 ^ 64
    → parse_digits 16 m (c ∷ cs) ≡ parse_digits 16 (m * 16 + d) cs
unfolding parse_digits
parse_digits-hex m c d cs h small =
    let (value, digit, plain) = from_hex-digit c d h in rw (plain, value) (ground arith)

-- The bytes of a text: two digits, and the others.
abbrev Decodes : ℕ → ℕ → List ℕ → List ℕ → Type 0
Decodes c d cs bs =
    (high : ℕ) × (low : ℕ) × (bytes : List ℕ) × (from_hex c ≡ some high)
    × (from_hex d ≡ some low)
    × (decode_hex cs ≡ some bytes)
    × (bs ≡ (high * 16 + low) ∷ bytes)

decode_hex-Decodes :
    (c d : ℕ) (cs bs : List ℕ) → decode_hex (c ∷ d ∷ cs) ≡ some bs → Decodes c d cs bs
unfolding decode_hex
decode_hex-Decodes c d cs bs h = elim (Option-cases (from_hex c)) [
  | inl e ↦ absurd (cc (rw e at h))
  | inr (high, e) ↦ elim (Option-cases (from_hex d)) [
    | inl e' ↦ absurd (cc (rw (e, e') at h))
    | inr (low, e') ↦ elim (Option-cases (decode_hex cs)) [
      | inl e'' ↦ absurd (cc (rw (e, e', e'') at h))
      | inr (bytes, e'') ↦ (high, low, bytes, e, e', e'', sym (cc (rw (e, e', e'') at h)))
    ]
  ]
]

-- Digits of a number that fits, behind those of `m`.
room_lem :
    (m b p : ℕ)
    → 0 < p
    → b < 256
    → (m + 1) * (p * 256) ≤ 2 ^ 64
    → ((m * 256 + b + 1) * p ≤ 2 ^ 64) × (m * 256 + b < 2 ^ 64)
room_lem m b p pos small h =
    let next : (m * 256 + b + 1) * p ≤ (m + 1) * 256 * p = mul-le-mul_right p (omega arith) in
    let same : (m + 1) * 256 * p ≡ (m + 1) * (p * 256) =
      mul_assoc (m + 1) 256 p ∙ ap (λ x. (m + 1) * x) (mul_comm 256 p) in
    let fits = le-mul_of_pos_right (m * 256 + b + 1) pos in
    (omega (arith, next, same), omega (arith, next, same, fits))

pub pow_256_pos : (n : ℕ) → 0 < 256 ^ n
pow_256_pos n = one-le-pow n 256 (omega arith)

-- The digits of a text are those of its bytes.
pub parse_digits-be_value :
    (m : ℕ) (text bs : List ℕ)
    → decode_hex text ≡ some bs
    → (m + 1) * 256 ^ length bs ≤ 2 ^ 64
    → (parse_digits 16 m text ≡ some (be_value m bs)) × (has_underscore text ≡ false)
unfolding parse_digits be_value decode_hex
parse_digits-be_value m [] bs h small = let empty : [] ≡ bs = cc in rw (← empty) (refl, refl)
parse_digits-be_value m (c ∷ []) bs h small = absurd cc
parse_digits-be_value m (c ∷ d ∷ cs) bs h small =
    let (high, low, bytes, e, e', e'', shape) = decode_hex-Decodes c d cs bs h in
    let (v, small_high, plain) = from_hex-digit c high e in
    let (v', small_low, plain') = from_hex-digit d low e' in
    let b = high * 16 + low in
    let bound : (m + 1) * (256 ^ length bytes * 256) ≤ 2 ^ 64 =
      rw (shape, pow-suc 256 (length bytes)) at small in
    let (room, fits) =
      room_lem m b (256 ^ length bytes) (pow_256_pos (length bytes)) (omega arith) bound in
    let (digits, none_) = parse_digits-be_value (m * 256 + b) cs bytes e'' room in
    let twice : (m * 16 + high) * 16 + low ≡ m * 256 + b = omega arith in
    (
      parse_digits-hex m c high (d ∷ cs) e (omega arith)
          ∙ parse_digits-hex (m * 16 + high) d low cs e' (omega arith)
          ∙ ap (λ x. parse_digits 16 x cs) twice
          ∙ digits
          ∙ ap (λ x. some (be_value m x)) (sym shape),
      rw (plain, plain', none_) refl,
    )

-- `StrToNum64` of `0x` and the digits of one to eight bytes is their number.
pub str_to_num64-hex :
    (text bs : List ℕ)
    → decode_hex text ≡ some bs
    → 0 < length bs
    → length bs ≤ 8
    → str_to_num64 (b'0' ∷ b'x' ∷ text) ≡ some (be_value 0 bs)
unfolding str_to_num64 parse_uint split_base decode_hex
str_to_num64-hex [] bs h pos small =
    let empty : [] ≡ bs = cc in absurd (omega (arith, ap length empty))
str_to_num64-hex (c ∷ cs) bs h pos small =
    let fits : (0 + 1) * 256 ^ length bs ≤ 2 ^ 64 =
      omega (arith, pow-le-pow_right {n = 256} (omega arith) small) in
    let (digits, plain) = parse_digits-be_value 0 (c ∷ cs) bs h fits in rw plain digits

-- `binary.BigEndian.PutUint64`, for a number of so many bytes
abbrev pub be_bytes : ℕ → ℕ → List ℕ
be_bytes zero v = []
be_bytes (suc n) v = (v / 256 ^ n % 256) ∷ be_bytes n v

abbrev pub AreBytes : List ℕ → Type 0
AreBytes [] = Unit
AreBytes (b ∷ bs) = (b < 256) × AreBytes bs

be_value-bounds :
    (m : ℕ) (bs : List ℕ)
    → AreBytes bs
    → (m * 256 ^ length bs ≤ be_value m bs) × (be_value m bs < (m + 1) * 256 ^ length bs)
unfolding be_value
be_value-bounds m [] all = (omega arith, omega arith)
be_value-bounds m (b ∷ bs) (small, all) =
    let p = 256 ^ length bs in
    let (low, high) = be_value-bounds (m * 256 + b) bs all in
    let below : m * 256 * p ≤ (m * 256 + b) * p = mul-le-mul_right p (omega arith) in
    let above : (m * 256 + b + 1) * p ≤ (m + 1) * 256 * p = mul-le-mul_right p (omega arith) in
    let turn : (x : ℕ) → x * 256 * p ≡ x * (p * 256) =
      λ x. mul_assoc x 256 p ∙ ap (λ y. x * y) (mul_comm 256 p) in
    rw pow-suc (omega (arith, low, below, turn m), omega (arith, high, above, turn (m + 1)))

pub div_between : (n q p : ℕ) → 0 < p → q * p ≤ n → n < (q + 1) * p → n / p ≡ q
div_between n q p pos low high =
    let least : q ≤ n / p = (le-div_iff_mul-le pos).1 low in
    let most : n / p < q + 1 = (div-lt_iff_lt-mul pos).1 high in omega (arith, least, most)

-- the bytes of the number of some bytes
be_bytes-be_value : (m : ℕ) (bs : List ℕ) → AreBytes bs → be_bytes (length bs) (be_value m bs) ≡ bs
unfolding be_value
be_bytes-be_value m [] all = refl
be_bytes-be_value m (b ∷ bs) (small, all) =
    let (low, high) = be_value-bounds (m * 256 + b) bs all in
    let top : be_value (m * 256 + b) bs / 256 ^ length bs ≡ m * 256 + b =
      div_between (be_value (m * 256 + b) bs) (m * 256 + b) (256 ^ length bs)
        (pow_256_pos (length bs)) low high in
    rw (top, be_bytes-be_value (m * 256 + b) bs all) (ap (λ x. x ∷ bs) (omega arith))

-- zeros come before the bytes of a number that needs fewer
be_bytes-more : (j n v : ℕ) → v < 256 ^ n → be_bytes (j + n) v ≡ replicate j 0 ++ be_bytes n v
be_bytes-more zero n v h = ap (λ x. be_bytes x v) (omega arith)
be_bytes-more (suc j) n v h =
    let more = pow-le-pow_right {n = 256} (omega arith) {i = n} {j = j + n} (omega arith) in
    let top : v / 256 ^ (j + n) ≡ 0 =
      div_between v 0 (256 ^ (j + n)) (pow_256_pos (j + n)) (omega arith) (omega (arith, more)) in
    let next : suc j + n ≡ suc (j + n) = omega arith in
    ap (λ x. be_bytes x v) next ∙ rw (top, be_bytes-more j n v h) refl

le_value-zeros : (j : ℕ) (bs : List ℕ) → le_value (replicate j 0 ++ bs) ≡ le_value bs * 256 ^ j
le_value-zeros zero bs = omega arith
le_value-zeros (suc j) bs =
    rw (le_value-zeros j bs, pow-suc) (omega (arith, mul_assoc (le_value bs) (256 ^ j) 256))

pub two_pow_bytes : (j : ℕ) → 2 ^ (j * 8) ≡ 256 ^ j
two_pow_bytes zero = refl
two_pow_bytes (suc j) =
    let n = j * 8 in
    let eight : suc j * 8 ≡ suc (suc (suc (suc (suc (suc (suc (suc n))))))) = omega arith in
    ap (λ x. 2 ^ x) eight ∙ rw pow-suc (omega (arith, two_pow_bytes j))

-- The number that a filter keeps of one to eight bytes: read lowest byte first, whatever their
-- number.
pub be_value-le_value :
    (bs : List ℕ)
    → AreBytes bs
    → length bs ≤ 8
    → le_value (be_bytes 8 (be_value 0 bs)) / 2 ^ ((8 - length bs) * 8) ≡ le_value bs
be_value-le_value bs all small =
    let j = 8 - length bs in
    let (low, high) = be_value-bounds 0 bs all in
    let whole : 8 ≡ j + length bs = omega arith in
    let bytes : be_bytes 8 (be_value 0 bs) ≡ replicate j 0 ++ bs =
      ap (λ x. be_bytes x (be_value 0 bs)) whole
      ∙ be_bytes-more j (length bs) (be_value 0 bs) (omega (arith, high))
      ∙ ap (λ x. replicate j 0 ++ x) (be_bytes-be_value 0 bs all) in
    ap (λ x. le_value x / 2 ^ (j * 8)) bytes
    ∙ rw (le_value-zeros j bs, two_pow_bytes j) (mul-div_cancel (le_value bs) (pow_256_pos j))

pub decode_hex-AreBytes : (text bs : List ℕ) → decode_hex text ≡ some bs → AreBytes bs
unfolding decode_hex
decode_hex-AreBytes [] bs h = let empty : [] ≡ bs = cc in rw (← empty) tt
decode_hex-AreBytes (c ∷ []) bs h = absurd cc
decode_hex-AreBytes (c ∷ d ∷ cs) bs h =
    let (high, low, bytes, e, e', e'', shape) = decode_hex-Decodes c d cs bs h in
    let (v, small, plain) = from_hex-digit c high e in
    let (v', small', plain') = from_hex-digit d low e' in
    rw shape (omega arith, decode_hex-AreBytes cs bytes e'')
