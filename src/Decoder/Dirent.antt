-- ===== src/Decoder/Dirent.antt =====
-- user/argtype/argtype_complex.go: `r_DIRENT` gives the type the callback of `r_POLLFD`.
use stackplz.Base.{
  ℕ, ◌≡◌, refl, arith, some, List, [], ◌∷◌, ◌++◌, length, length-append, append_assoc,
}
use stackplz.Event.Entries.{block, encode_all}
use stackplz.Decoder.Fields.{next_bytes}
use stackplz.Decoder.Args.{Kind, structure, with_bytes, parse_struct, parse_more}
use stackplz.Decoder.RoundTrip.{put_all, put_all_lem, next_len}

-- `Dirent` has 280 bytes, of which `parse_POLLFD` takes the eight of a `Pollfd`.
abbrev pub dirent : Kind
dirent = structure 280 8

abbrev pub pollfd : Kind
pollfd = structure 8 8

-- Of a directory entry that the reader saved, the decoder takes the first eight bytes, and leaves
-- the other 272 in front of the arguments that follow.
pub parse_more-dirent :
    (ptr j : ℕ) (first others rest : List ℕ)
    → length first ≡ 8
    → length others ≡ 272
    → parse_more dirent ptr (encode_all (block j (first ++ others) ∷ []) ++ rest)
      ≡ some (with_bytes ptr first, others ++ rest)
unfolding parse_more parse_struct put_all
parse_more-dirent ptr j first others rest eight more =
    let size : length (first ++ others) ≡ 280 = omega (arith, length-append first others) in
    rw (put_all_lem (block j (first ++ others) ∷ []) rest) (
      next_len _ j (first ++ others) rest (omega arith) (
        rw (size, append_assoc first others rest)
          (next_bytes _ 8 first (others ++ rest) eight refl)))
