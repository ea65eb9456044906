-- ===== src/Decoder/RoundTrip.antt =====
-- The arguments of a record are read back from their entries.
use stackplz.Base.{
  ℕ, ◌^◌, ◌<◌, ◌≡◌, ◌≢◌, refl, ap, sym, ◌∙◌, arith, Option, some, Bool, true, false, not, ◌==◌,
  List, [], ◌∷◌, ◌++◌, length, le_bytes, le_value, append_assoc,
}
use stackplz.Types.{strarr_magic_len}
use stackplz.Event.Entries.{Entry, word, block, magic, encode, encode_all}
use stackplz.Decoder.{Reads, ◌>>=◌, pure, read_num}
use stackplz.Decoder.Fields.{
  read_byte_lem, read_num_lem, bind-some, next_num, next_bytes, next_value,
}
use stackplz.Decoder.Args.{
  Kind, text, std_text, buffer, Parsed, plain, with_bytes, with_value, read_address, read_len,
  parse_text, parse_struct, parse_number_ptr, parse_texts, parse_vectors, parse_more, parse_arg,
  parse_point,
}
use stackplz.Decoder.Saves.{
  reads_text, SavesTexts, full, unreadable, one_text, SavesVectors, no_vectors, one_vector, Saves,
  unread, a_number, a_text, a_structure, no_structure, a_pointee, no_pointee, some_texts,
  some_vectors, SavesAll, nothing, argument,
}

-- The bytes of entries, in front of others.
unfoldable pub put_all : List Entry → List ℕ → List ℕ
put_all [] rest = rest
put_all (x ∷ xs) rest = encode x ++ put_all xs rest

pub put_all_lem : (xs : List Entry) (rest : List ℕ) → encode_all xs ++ rest ≡ put_all xs rest
unfolding put_all encode_all
put_all_lem [] rest = refl
put_all_lem (x ∷ xs) rest =
    append_assoc (encode x) (encode_all xs) rest ∙ ap (λ t. encode x ++ t) (put_all_lem xs rest)

pub put_all-append :
    (xs ys : List Entry) (rest : List ℕ) → put_all (xs ++ ys) rest ≡ put_all xs (put_all ys rest)
unfolding put_all
put_all-append [] ys rest = refl
put_all-append (x ∷ xs) ys rest = ap (λ t. encode x ++ t) (put_all-append xs ys rest)

skip_index :
    {A : Type 0} (f : ℕ → Reads A) (i : ℕ) (rest : List ℕ)
    → (read_num 1 >>= f) (i ∷ rest) ≡ f i rest
skip_index f i rest = bind-some (read_num 1) f (read_byte_lem i rest)

read_address_lem :
    (i v : ℕ) (rest : List ℕ)
    → v < 2 ^ 64
    → read_address (encode (word 8 i v) ++ rest) ≡ some (v, rest)
unfolding read_address encode
read_address_lem i v rest h = skip_index _ i _ ∙ read_num_lem 8 v rest h

pub next_address :
    {A : Type 0} {r : Option (A × List ℕ)} (f : ℕ → Reads A) (i v : ℕ) (rest : List ℕ)
    → v < 2 ^ 64
    → f v rest ≡ r
    → (read_address >>= f) (encode (word 8 i v) ++ rest) ≡ r
next_address f i v rest h e = bind-some read_address f (read_address_lem i v rest h) ∙ e

pub next_len :
    {A : Type 0} {r : Option (A × List ℕ)} (f : ℕ → Reads A) (i : ℕ) (bs rest : List ℕ)
    → length bs < 2 ^ 32
    → f (length bs) (bs ++ rest) ≡ r
    → (read_len >>= f) (encode (block i bs) ++ rest) ≡ r
unfolding read_len encode
next_len f i bs rest h e =
    bind-some read_len f (skip_index _ i _ ∙ read_num_lem 4 (length bs) (bs ++ rest) h) ∙ e

pub next_magic :
    {A : Type 0} {r : Option (A × List ℕ)} (f : ℕ → Reads A) (i : ℕ) (rest : List ℕ)
    → f strarr_magic_len rest ≡ r
    → (read_len >>= f) (encode (magic i) ++ rest) ≡ r
unfolding read_len encode
next_magic f i rest e =
    bind-some read_len f (skip_index _ i _ ∙ read_num_lem 4 strarr_magic_len rest (omega arith)) ∙ e

parse_text_lem :
    (v j : ℕ) (bs rest : List ℕ)
    → length bs < 2 ^ 32
    → parse_text v (encode (block j bs) ++ rest) ≡ some (with_bytes v bs, rest)
unfolding parse_text
parse_text_lem v j bs rest h = next_len _ j bs rest h (next_bytes _ _ bs rest refl refl)

parse_struct_lem :
    (v j size taken : ℕ) (bs rest : List ℕ)
    → size < 2 ^ 32
    → size ≢ 0
    → length bs ≡ size
    → taken ≡ size
    → parse_struct size taken v (encode (block j bs) ++ rest) ≡ some (with_bytes v bs, rest)
unfolding parse_struct
parse_struct_lem v j size taken bs rest small some_ e whole =
    let there : (length bs == 0) ≡ false = ground arith in
    let same : not (length bs == size) ≡ false = ground arith in
    next_len _ j bs rest (omega arith)
      (rw (there, same) (next_bytes _ taken bs rest (e ∙ sym whole) refl))

empty_struct_lem :
    (v j size taken : ℕ) (rest : List ℕ)
    → parse_struct size taken v (encode (block j []) ++ rest) ≡ some (plain v, rest)
unfolding parse_struct
empty_struct_lem v j size taken rest = next_len _ j [] rest (omega arith) refl

parse_number_ptr_lem :
    (v j : ℕ) (bs rest : List ℕ)
    → length bs ≡ 8
    → parse_number_ptr v (encode (block j bs) ++ rest) ≡ some (with_value v (le_value bs), rest)
unfolding parse_number_ptr
parse_number_ptr_lem v j bs rest h =
    let eight : (length bs == 8) ≡ true = ground arith in
    next_len _ j bs rest (omega arith) (rw eight (next_value _ 8 bs rest h refl))

empty_number_ptr_lem :
    (v j : ℕ) (rest : List ℕ)
    → parse_number_ptr v (encode (block j []) ++ rest) ≡ some (with_value v 0, rest)
unfolding parse_number_ptr
empty_number_ptr_lem v j rest = next_len _ j [] rest (omega arith) (bind-some (pure 0) _ refl)

parse_texts_lem :
    {n : ℕ} {results : List (ℕ × List ℕ)} {entries : List Entry} (rest : List ℕ)
    → SavesTexts n results entries
    → parse_texts n (put_all entries rest) ≡ some (results, rest)
unfolding parse_texts put_all
parse_texts_lem rest full = refl
parse_texts_lem rest (unreadable i j v h) = next_address _ i v _ h (next_magic _ j rest refl)
parse_texts_lem rest (one_text {results} {entries} i j v bs h there short more) =
    let not_magic : (length bs == strarr_magic_len) ≡ false = ground arith in
    let address : (v == 0) ≡ false = ground arith in
    next_address _ i v _ h (
      next_len _ j bs _ (omega arith) (
        rw not_magic
          (next_bytes _ _ bs _ refl (rw address (bind-some _ _ (parse_texts_lem rest more))))))

pub parse_vectors_lem :
    {n : ℕ} {results : List (ℕ × ℕ × List ℕ)} {entries : List Entry} (rest : List ℕ)
    → SavesVectors n results entries
    → parse_vectors n (put_all entries rest) ≡ some (results, rest)
unfolding parse_vectors put_all
parse_vectors_lem rest no_vectors = refl
parse_vectors_lem rest (one_vector i j base len bs h h' short more) =
    next_len _ i (le_bytes 8 base ++ le_bytes 8 len) _ (omega arith) (
      next_num _ 8 base _ h (
        next_num _ 8 len _ h' (
          next_len _ j bs _ short
            (next_bytes _ _ bs _ refl (bind-some _ _ (parse_vectors_lem rest more))))))

parse_more-text :
    (kind : Kind) (v : ℕ) (buf : List ℕ)
    → reads_text kind ≡ true
    → parse_more kind v buf ≡ parse_text v buf
unfolding parse_more
parse_more-text text v buf t = refl
parse_more-text std_text v buf t = refl
parse_more-text buffer v buf t = refl
parse_more-text _ v buf t = cc

pub parse_arg_lem :
    {arg : Kind × Bool} {result : Parsed} {entries : List Entry} (rest : List ℕ)
    → Saves arg result entries
    → parse_arg arg (put_all entries rest) ≡ some (result, rest)
unfolding parse_arg parse_more put_all
parse_arg_lem rest (unread i v h) = next_address _ i v rest h refl
parse_arg_lem rest (a_number i v h) = next_address _ i v rest h refl
parse_arg_lem rest (a_text {kind} i j v bs t h short) =
    next_address _ i v _ h (parse_more-text kind v _ t ∙ parse_text_lem v j bs rest short)
parse_arg_lem rest (a_structure i j v size taken bs h small some_ e whole) =
    next_address _ i v _ h (parse_struct_lem v j size taken bs rest small some_ e whole)
parse_arg_lem rest (no_structure {size} {taken} i j v h) =
    next_address _ i v _ h (empty_struct_lem v j size taken rest)
parse_arg_lem rest (a_pointee i j v bs h h') =
    next_address _ i v _ h (parse_number_ptr_lem v j bs rest h')
parse_arg_lem rest (no_pointee i j v h) = next_address _ i v _ h (empty_number_ptr_lem v j rest)
parse_arg_lem rest (some_texts i v h more) =
    next_address _ i v _ h (bind-some _ _ (parse_texts_lem rest more))
parse_arg_lem rest (some_vectors i j v count h h' more) =
    next_address _ i v _ h
      (next_address _ j count _ h' (bind-some _ _ (parse_vectors_lem rest more)))

-- The register of an argument can be read.
pub register_there :
    {arg : Kind × Bool} {result : Parsed} {entries : List Entry} (rest : List ℕ)
    → Saves arg result entries
    → (v : ℕ) × (more : List ℕ) × (read_address (put_all entries rest) ≡ some (v, more))
unfolding put_all
register_there rest (unread i v h) = (v, _, read_address_lem i v _ h)
register_there rest (a_number i v h) = (v, _, read_address_lem i v _ h)
register_there rest (a_text {kind} i j v bs t h short) = (v, _, read_address_lem i v _ h)
register_there rest (a_structure i j v size taken bs h small some_ e whole) =
    (v, _, read_address_lem i v _ h)
register_there rest (no_structure i j v h) = (v, _, read_address_lem i v _ h)
register_there rest (a_pointee i j v bs h h') = (v, _, read_address_lem i v _ h)
register_there rest (no_pointee i j v h) = (v, _, read_address_lem i v _ h)
register_there rest (some_texts i v h more) = (v, _, read_address_lem i v _ h)
register_there rest (some_vectors i j v count h h' more) = (v, _, read_address_lem i v _ h)

pub parse_point_put :
    {args : List (Kind × Bool)} {results : List Parsed} {entries : List Entry} (rest : List ℕ)
    → SavesAll args results entries
    → parse_point args (put_all entries rest) ≡ some (results, rest)
unfolding parse_point put_all
parse_point_put rest nothing = refl
parse_point_put rest (argument {entries} {more} one others) =
    rw (put_all-append entries more rest) (
      bind-some _ _ (parse_arg_lem (put_all more rest) one)
      ∙ bind-some _ _ (parse_point_put rest others))

-- Where the entries of a record are those of the arguments of a point, each of its type, the
-- decoder reads the values of the arguments back in order, and leaves what follows the entries.
pub parse_point-SavesAll :
    (args : List (Kind × Bool)) (results : List Parsed) (entries : List Entry) (rest : List ℕ)
    → SavesAll args results entries
    → parse_point args (encode_all entries ++ rest) ≡ some (results, rest)
parse_point-SavesAll args results entries rest saved =
    rw (put_all_lem entries rest) (parse_point_put rest saved)
