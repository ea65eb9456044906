-- ===== src/Compiler/Runs/Entries.antt =====
-- The entries that an argument saves, and how many bytes they take.
use stackplz.Base.{
  ℕ, ◌+◌, ◌<◌, ◌≤◌, ◌^◌, ◌≡◌, ap, arith, List, [], ◌∷◌, ◌++◌, Bool, true, false, length,
  length-append,
}
use stackplz.Types.{EventData, max_bytes_arr_size, max_string_size}
use stackplz.Kernel.{Kernel, Target, IsKernel}
use stackplz.Event.Stream.{Stream, stream}
use stackplz.Event.Entries.{Entry, word, encode, encode_all, emit_all, bytes-emit_all, block}
use stackplz.Buffer.Total.{length-stream}
use stackplz.Decoder.Args.{
  Kind, number, number_ptr, structure, text, std_text, buffer, texts, vectors,
}
use stackplz.Decoder.Saves.{IsWhole, Saves, unread}
use stackplz.ReadArgs.State.{untag}
use stackplz.ReadArgs.Exec.{std_string_data}
use stackplz.ReadArgs.Blocks.{contents}
use stackplz.Compiler.Ops.{max_buf_read_size}
use stackplz.Compiler.Runs.Kinds.{pointed_entries, IsSimple, pointed}
use stackplz.Compiler.Runs.Args.{printed, pointed-Saves, contents-le}

-- The most bytes that an argument takes.
abbrev pub need : Kind × Bool → ℕ
need (kind, false) = 9
need (number, true) = 9
need (number_ptr, true) = 22
need (structure n taken, true) = 14 + n
need (kind, true) = 14 + max_bytes_arr_size

pub buf_off-emit_all :
    (e e' : EventData) (entries : List Entry)
    → stream e' ≡ emit_all (stream e) entries
    → e'.buf_off ≡ e.buf_off + length (encode_all entries)
buf_off-emit_all e e' entries h = omega (
  arith,
  length-stream e',
  length-stream e,
  ap (λ (s : Stream). length s.bytes) h,
  ap (λ (bs : List ℕ). length bs) (bytes-emit_all (stream e) entries),
  length-append (stream e).bytes (encode_all entries),
)

abbrev pub arg_entries : Kernel → Target → ℕ → ℕ → ℕ → ℕ → Kind × Bool → List Entry
arg_entries k t i j v a (kind, false) = word 8 i v ∷ []
arg_entries k t i j v a (kind, true) = word 8 i v ∷ pointed_entries k t j a kind

pub arg_entries-Saves :
    (k : Kernel) (law : IsKernel k) (t : Target) (i j v a : ℕ) (arg : Kind × Bool)
    → v < 2 ^ 64
    → IsSimple arg.0
    → IsWhole arg.0
    → Saves arg (printed k t v a arg) (arg_entries k t i j v a arg)
unfolding printed
arg_entries-Saves k law t i j v a (kind, false) h s whole = unread i v h
arg_entries-Saves k law t i j v a (kind, true) h s whole =
    pointed-Saves k law t i j v a kind h s whole

encode_block :
    (j n : ℕ) (bs : List ℕ) → length bs ≤ n → length (encode_all (block j bs ∷ [])) ≤ 5 + n
unfolding encode_all encode
encode_block j n bs h = omega (arith, length-append bs [])

pub length-encode_all :
    (xs ys : List Entry)
    → length (encode_all (xs ++ ys)) ≡ length (encode_all xs) + length (encode_all ys)
unfolding encode_all
length-encode_all [] ys = omega arith
length-encode_all (x ∷ xs) ys = omega (
  arith,
  length-append (encode x) (encode_all (xs ++ ys)),
  length-append (encode x) (encode_all xs),
  length-encode_all xs ys,
)

module _ (k : Kernel) (law : IsKernel k) (t : Target) where
  pointed-le : (a : ℕ) (n : ℕ) → length (contents (k.probe_read a n)) ≤ n
  pointed-le a n = contents-le (k.probe_read a n) n (omega (arith, law.read_fills a n))

  pointed_str-le :
      (a : ℕ) → length (contents (k.probe_read_str a max_string_size)) ≤ max_string_size
  pointed_str-le a =
      contents-le (k.probe_read_str a max_string_size) max_string_size
        (law.read_str_fits a max_string_size)

  pointed_entries-le :
      (j a : ℕ) (kind : Kind)
      → IsSimple kind
      → length (encode_all (pointed_entries k t j a kind)) + 9 ≤ need (kind, true)
  unfolding pointed encode_all
  pointed_entries-le j a number s = omega arith
  pointed_entries-le j a text s =
      omega (arith, encode_block j max_string_size _ (pointed_str-le (untag a)))
  pointed_entries-le j a std_text s =
      omega
        (arith, encode_block j max_string_size _ (pointed_str-le (untag (std_string_data k t a))))
  pointed_entries-le j a buffer s =
      omega (arith, encode_block j max_buf_read_size _ (pointed-le (untag a) max_buf_read_size))
  pointed_entries-le j a number_ptr s = omega (arith, encode_block j 8 _ (pointed-le (untag a) 8))
  pointed_entries-le j a (structure n taken) s =
      omega (arith, encode_block j n _ (pointed-le (untag a) n))
  pointed_entries-le j a texts s = absurd s
  pointed_entries-le j a vectors s = absurd s

  pub arg_entries-le :
      (i j v a : ℕ) (arg : Kind × Bool)
      → IsSimple arg.0
      → length (encode_all (arg_entries k t i j v a arg)) ≤ need arg
  unfolding encode_all encode
  arg_entries-le i j v a (kind, false) s = omega arith
  arg_entries-le i j v a (kind, true) s = omega (arith, pointed_entries-le j a kind s)

pub nine-le : (x : Kind × Bool) → 9 ≤ need x
nine-le (kind, false) = omega arith
nine-le (number, true) = omega arith
nine-le (number_ptr, true) = omega arith
nine-le (structure n taken, true) = omega arith
nine-le (_, true) = omega arith
