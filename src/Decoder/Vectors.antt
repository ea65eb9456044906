-- ===== src/Decoder/Vectors.antt =====
-- MAX_IOV_COUNT of the decoder is less than MAX_LOOP_COUNT of the reader.
use stackplz.Base.{
  ℕ, zero, suc, ◌^◌, ◌<◌, ◌≤◌, ◌≡◌, refl, arith, some, List, ◌∷◌, ◌++◌, le_bytes, take, drop,
}
use stackplz.Event.Entries.{Entry, word, encode_all}
use stackplz.Decoder.Fields.{bind-some, next_num, next_bytes}
use stackplz.Decoder.Args.{
  vectors, with_vectors, max_iov_count, iov_read_count, parse_vectors, parse_more,
}
use stackplz.Decoder.Saves.{SavesVectors, no_vectors, one_vector}
use stackplz.Decoder.RoundTrip.{put_all, put_all_lem, next_address, next_len}

-- the entries behind those of so many vectors, two each
unfoldable pub drop_vectors : ℕ → List Entry → List Entry
drop_vectors zero entries = entries
drop_vectors (suc m) entries = drop_vectors m (drop 2 entries)

-- Of more vectors than are read, the first are read and the others left.
parse_vectors_prefix :
    (m : ℕ) {n : ℕ} {results : List (ℕ × ℕ × List ℕ)} {entries : List Entry} (rest : List ℕ)
    → SavesVectors n results entries
    → m ≤ n
    → parse_vectors m (put_all entries rest)
      ≡ some (take m results, put_all (drop_vectors m entries) rest)
unfolding parse_vectors put_all drop_vectors
parse_vectors_prefix zero rest saved h = refl
parse_vectors_prefix (suc m) rest no_vectors h = absurd (omega (arith, h))
parse_vectors_prefix (suc m) rest (one_vector {results} {entries} i j base len bs h h' short more)
      le =
    next_len _ i (le_bytes 8 base ++ le_bytes 8 len) _ (omega arith) (
      next_num _ 8 base _ h (
        next_num _ 8 len _ h' (
          next_len _ j bs _ short (
            next_bytes _ _ bs _ refl
              (bind-some _ _ (parse_vectors_prefix m rest more (omega arith)))))))

read_count :
    (count : ℕ) → max_iov_count ≤ count → count < 2 ^ 63 → iov_read_count count ≡ max_iov_count
unfolding iov_read_count
read_count count many small = ground arith

-- The reader saves the vectors of an argument up to MAX_LOOP_COUNT, the decoder reads at most
-- MAX_IOV_COUNT. Of more vectors than that, as many as the count in the record says, the decoder
-- reads the first six and leaves the entries of the others in the buffer.
pub parse_more-vectors :
    (ptr j count : ℕ) (results : List (ℕ × ℕ × List ℕ)) (entries : List Entry) (rest : List ℕ)
    → max_iov_count ≤ count
    → count < 2 ^ 63
    → SavesVectors count results entries
    → parse_more vectors ptr (encode_all (word 8 j count ∷ entries) ++ rest)
      ≡ some (
        with_vectors ptr (take max_iov_count results),
        encode_all (drop_vectors max_iov_count entries) ++ rest,
      )
unfolding parse_more put_all
parse_more-vectors ptr j count results entries rest many small saved =
    rw
      (
        put_all_lem (word 8 j count ∷ entries) rest,
        put_all_lem (drop_vectors max_iov_count entries) rest,
      )
      (next_address _ j count _ (omega arith) (
        rw (read_count count many small)
          (bind-some _ _ (parse_vectors_prefix max_iov_count rest saved many))))
