-- ===== src/Decoder/Fields.antt =====
-- Fields are read back from their bytes.
use stackplz.Base.{
  ℕ, ◌∙◌, Option, none, ◌^◌, ◌<◌, ◌≡◌, refl, ap, some, List, [], ◌∷◌, ◌++◌, arith, length, take,
  drop, length-append, le_bytes, length-le_bytes, le_value-le_bytes, le_value,
}
use stackplz.Decoder.{Reads, ◌>>=◌, read_bytes, read_num, read_arg}

take-append {ℓ} : {A : Type ℓ} (xs ys : List A) → take (length xs) (xs ++ ys) ≡ xs
take-append [] ys = refl
take-append (x ∷ xs) ys = ap (λ t. x ∷ t) (take-append xs ys)

drop-append {ℓ} : {A : Type ℓ} (xs ys : List A) → drop (length xs) (xs ++ ys) ≡ ys
drop-append [] ys = refl
drop-append (x ∷ xs) ys = drop-append xs ys

pub read_bytes_lem : (bs rest : List ℕ) → read_bytes (length bs) (bs ++ rest) ≡ some (bs, rest)
unfolding read_bytes
read_bytes_lem bs rest =
    ground (arith, length-append bs rest, take-append bs rest, drop-append bs rest)

pub read_num_lem :
    (w n : ℕ) (rest : List ℕ) → n < 256 ^ w → read_num w (le_bytes w n ++ rest) ≡ some (n, rest)
unfolding read_num ◌>>=◌
read_num_lem w n rest h = ground (
  arith,
  rw (length-le_bytes w n) at (read_bytes_lem (le_bytes w n) rest),
  le_value-le_bytes w n h,
)

pub read_byte_lem : (b : ℕ) (rest : List ℕ) → read_num 1 (b ∷ rest) ≡ some (b, rest)
unfolding read_num ◌>>=◌
read_byte_lem b rest = ground (arith, read_bytes_lem (b ∷ []) rest)

-- The index of the argument may be anything.
pub read_arg_lem :
    (w index n : ℕ) (rest : List ℕ)
    → n < 256 ^ w
    → read_arg w (index ∷ le_bytes w n ++ rest) ≡ some (n, rest)
unfolding read_arg ◌>>=◌
read_arg_lem w index n rest h =
    ground (arith, read_byte_lem index (le_bytes w n ++ rest), read_num_lem w n rest h)

-- `read_bytes` of a length that is known
pub read_bytes_of :
    (n : ℕ) (bs rest : List ℕ) → length bs ≡ n → read_bytes n (bs ++ rest) ≡ some (bs, rest)
read_bytes_of n bs rest e = rw (← e) (read_bytes_lem bs rest)

-- A reader goes on with what its first part took.
pub bind-some :
    {A B : Type 0} (m : Reads A) (f : A → Reads B) {buf rest : List ℕ} {a : A}
    → m buf ≡ some (a, rest)
    → (m >>= f) buf ≡ f a rest
unfolding ◌>>=◌
bind-some {A} m f e =
    ap (λ (o : Option (A × List ℕ)). elim o [ none ↦ none | some (a, rest) ↦ f a rest ]) e

-- A field is read, then what is behind it.
pub next_num :
    {A : Type 0} {r : Option (A × List ℕ)} (f : ℕ → Reads A) (w n : ℕ) (rest : List ℕ)
    → n < 256 ^ w
    → f n rest ≡ r
    → (read_num w >>= f) (le_bytes w n ++ rest) ≡ r
next_num f w n rest h e = bind-some (read_num w) f (read_num_lem w n rest h) ∙ e

pub next_bytes :
    {A : Type 0} {r : Option (A × List ℕ)} (f : List ℕ → Reads A) (n : ℕ) (bs rest : List ℕ)
    → length bs ≡ n
    → f bs rest ≡ r
    → (read_bytes n >>= f) (bs ++ rest) ≡ r
next_bytes f n bs rest h e = bind-some (read_bytes n) f (read_bytes_of n bs rest h) ∙ e

-- An integer is read from any bytes of its width.
pub next_value :
    {A : Type 0} {r : Option (A × List ℕ)} (f : ℕ → Reads A) (w : ℕ) (bs rest : List ℕ)
    → length bs ≡ w
    → f (le_value bs) rest ≡ r
    → (read_num w >>= f) (bs ++ rest) ≡ r
unfolding read_num
next_value f w bs rest h e =
    bind-some (read_num w) f (bind-some (read_bytes w) _ (read_bytes_of w bs rest h)) ∙ e
