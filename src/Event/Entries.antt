-- ===== src/Event/Entries.antt =====
-- What the argument buffer holds: entries, each behind the index of its argument.
use stackplz.Base.{
  ℕ, ◌+◌, ◌%◌, ◌≡◌, refl, ◌∙◌, ap, sym, List, [], ◌∷◌, ◌++◌, arith, length, le_bytes, append-nil,
  append_assoc,
}
use stackplz.Types.{strarr_magic_len}
use stackplz.Event.Stream.{Stream, emit}

-- A word of four or eight bytes; bytes behind their number; the end of an array of strings.
pub data Entry : Type 0 where
  word : ℕ → ℕ → ℕ → Entry
  block : ℕ → List ℕ → Entry
  magic : ℕ → Entry

unfoldable pub encode : Entry → List ℕ
encode (word w index v) = index ∷ le_bytes w v
encode (block index bs) = index ∷ le_bytes 4 (length bs) ++ bs
encode (magic index) = index ∷ le_bytes 4 strarr_magic_len

unfoldable pub encode_all : List Entry → List ℕ
encode_all [] = []
encode_all (x ∷ xs) = encode x ++ encode_all xs

unfoldable pub emit_all : Stream → List Entry → Stream
emit_all s [] = s
emit_all s (x ∷ xs) = emit_all (emit s (encode x)) xs

pub emit_all-append :
    (s : Stream) (xs ys : List Entry) → emit_all s (xs ++ ys) ≡ emit_all (emit_all s xs) ys
unfolding emit_all
emit_all-append s [] ys = refl
emit_all-append s (x ∷ xs) ys = emit_all-append (emit s (encode x)) xs ys

-- The bytes are those of the entries, one after the other.
pub bytes-emit_all :
    (s : Stream) (xs : List Entry) → (emit_all s xs).bytes ≡ s.bytes ++ encode_all xs
unfolding emit_all encode_all emit
bytes-emit_all s [] = sym (append-nil s.bytes)
bytes-emit_all s (x ∷ xs) =
    bytes-emit_all (emit s (encode x)) xs ∙ append_assoc s.bytes (encode x) (encode_all xs)

-- The context counts the entries, modulo 256, and is otherwise unchanged.
pub context-emit_all :
    (s : Stream) (xs : List Entry)
    → (emit_all s xs).context ≡ record s.context { argnum = (emit_all s xs).context.argnum }
unfolding emit_all emit
context-emit_all s [] = refl
context-emit_all s (x ∷ xs) = context-emit_all (emit s (encode x)) xs

pub argnum-emit_all :
    (s : Stream) (xs : List Entry)
    → (emit_all s xs).context.argnum % 256 ≡ (s.context.argnum + length xs) % 256
unfolding emit_all emit
argnum-emit_all s [] = omega arith
argnum-emit_all s (x ∷ xs) = omega (arith, argnum-emit_all (emit s (encode x)) xs)

-- `s'` is `s` with some more entries.
pub record Extends (s s' : Stream) : Type 0 where
  pub entries : List Entry
  pub view : s' ≡ emit_all s entries

pub Extends-refl : (s : Stream) → Extends s s
unfolding emit_all
Extends-refl s = record { entries = []; view = refl }

pub Extends-of_eq : {s s' : Stream} → s' ≡ s → Extends s s'
unfolding emit_all
Extends-of_eq e = record { entries = []; view = e }

pub Extends-emit : {s s' : Stream} (x : Entry) → s' ≡ emit s (encode x) → Extends s s'
unfolding emit_all
Extends-emit x e = record { entries = x ∷ []; view = e }

pub Extends-trans : {s s' s'' : Stream} → Extends s s' → Extends s' s'' → Extends s s''
Extends-trans {s} p q = record {
  entries = p.entries ++ q.entries;
  view =
      q.view ∙ ap (λ u. emit_all u q.entries) p.view ∙ sym (emit_all-append s p.entries q.entries);
}
