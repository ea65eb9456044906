-- ===== src/Configuration/Numbers.antt =====
-- `StrToNum64` of user/util/helper.go, with `strconv.ParseUint` in base 0, and `hex.DecodeString`.
use stackplz.Base.{
  ℕ, ◌+◌, ◌-◌, ◌*◌, ◌/◌, ◌%◌, ◌^◌, Bool, true, false, not, ◌&&◌, ◌||◌, Option, none, some, List, [],
  ◌∷◌, ◌==◌, leb, if◌then◌else◌,
}
use stackplz.Configuration.{◌>>=◌}

-- `c | 0x20`
abbrev pub lower : ℕ → ℕ
lower c = if c / 32 % 2 == 1 then c else c + 32

abbrev pub is_decimal : ℕ → Bool
is_decimal c = leb b'0' c && leb c b'9'

-- the value of a digit or a letter
abbrev pub digit_value : ℕ → Option ℕ
digit_value c =
    if is_decimal c
    then some (c - b'0')
    else if leb b'a' (lower c) && leb (lower c) b'z'
    then some (lower c - b'a' + 10)
    else none

-- The loop of `strconv.ParseUint`: `none` is a character that is no digit of the base, or a number
-- that does not fit 64 bits.
unfoldable pub parse_digits : ℕ → ℕ → List ℕ → Option ℕ
parse_digits base n [] = some n
parse_digits base n (c ∷ cs) = if c == b'_' then parse_digits base n cs else elim (digit_value c) [
  | none ↦ none
  | some d ↦
      let rest = parse_digits base (n * base + d) cs in
      if leb base d then none else if leb (2 ^ 64) (n * base + d) then none else rest
]

abbrev pub has_underscore : List ℕ → Bool
has_underscore [] = false
has_underscore (c ∷ cs) = c == b'_' || has_underscore cs

-- What `underscoreOK` saw last.
pub data Saw : Type 0 where
  saw_start : Saw
  saw_digit : Saw
  saw_underscore : Saw
  saw_other : Saw

-- the loop of `underscoreOK`: an underscore stands between digits
unfoldable pub underscores_between : Bool → Saw → List ℕ → Bool
underscores_between hex saw_underscore [] = false
underscores_between hex _ [] = true
underscores_between hex saw (c ∷ cs) =
    let more : Saw → Bool = λ next. underscores_between hex next cs in
    if is_decimal c || hex && leb b'a' (lower c) && leb (lower c) b'f'
    then more saw_digit
    else if c == b'_'
    then elim saw [ saw_digit ↦ more saw_underscore | _ ↦ false ]
    else elim saw [ saw_underscore ↦ false | _ ↦ more saw_other ]

-- the base that a number names by its first characters, and its digits
unfoldable pub split_base : List ℕ → ℕ × List ℕ
split_base (c ∷ p ∷ d ∷ cs) =
    if c == b'0'
    then (if lower p == b'b'
        then (2, d ∷ cs)
        else if lower p == b'o'
        then (8, d ∷ cs)
        else if lower p == b'x'
        then (16, d ∷ cs)
        else (8, p ∷ d ∷ cs))
    else (10, c ∷ p ∷ d ∷ cs)
split_base (c ∷ cs) = if c == b'0' then (8, cs) else (10, c ∷ cs)
split_base [] = (10, [])

-- A prefix counts as a digit.
unfoldable pub underscore_ok : List ℕ → Bool
unfolding underscores_between
underscore_ok (c ∷ p ∷ cs) =
    if c == b'0' && (lower p == b'b' || lower p == b'o' || lower p == b'x')
    then underscores_between (lower p == b'x') saw_digit cs
    else underscores_between false saw_start (c ∷ p ∷ cs)
underscore_ok cs = underscores_between false saw_start cs

-- `strconv.ParseUint(text, 0, 64)`
unfoldable pub parse_uint : List ℕ → Option ℕ
unfolding split_base parse_digits underscore_ok
parse_uint [] = none
parse_uint (c ∷ cs) =
    let (base, digits) = split_base (c ∷ cs) in
    if has_underscore digits && not (underscore_ok (c ∷ cs))
    then none
    else parse_digits base 0 digits

-- `StrToNum64`
unfoldable pub str_to_num64 : List ℕ → Option ℕ
unfolding parse_uint
str_to_num64 text = parse_uint text

-- `hex.DecodeString`
abbrev pub from_hex : ℕ → Option ℕ
from_hex c =
    if is_decimal c
    then some (c - b'0')
    else if leb b'a' c && leb c b'f'
    then some (c - b'a' + 10)
    else if leb b'A' c && leb c b'F'
    then some (c - b'A' + 10)
    else none

unfoldable pub decode_hex : List ℕ → Option (List ℕ)
decode_hex [] = some []
decode_hex (c ∷ []) = none
decode_hex (c ∷ d ∷ cs) = do
  high ← from_hex c
  low ← from_hex d
  bytes ← decode_hex cs
  some ((high * 16 + low) ∷ bytes)
