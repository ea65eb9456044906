-- ===== src/Base/Bytes.antt =====
-- Bytes in memory: little-endian words, and arrays as functions from offsets.
use Prim.Native.Nat.{ℕ, zero, suc, ◌+◌, ◌*◌, ◌/◌, ◌%◌, ◌^◌, ◌≤◌, ◌<◌}
use mathlib.Core.Path.{◌≡◌, refl, ap, ◌∙◌}
use mathlib.Core.List.{List, [], ◌∷◌, ◌++◌, append_assoc}
use native.Mathlib.Omega.{arith}
use native.Mathlib.Nat.{pow-suc, add-zero, le_refl}
use Prim.Native.Nat.add
use stackplz.Base.Tests.{◌==◌, if◌then◌else◌}
use stackplz.Base.Lists.{length}

-- The `w` low bytes of a number, the lowest first.
abbrev pub le_bytes : ℕ → ℕ → List ℕ
le_bytes zero n = []
le_bytes (suc w) n = (n % 256) ∷ le_bytes w (n / 256)

abbrev pub le_value : List ℕ → ℕ
le_value [] = 0
le_value (b ∷ bs) = b + 256 * le_value bs

pub length-le_bytes : (w n : ℕ) → length (le_bytes w n) ≡ w
length-le_bytes zero n = refl
length-le_bytes (suc w) n = ap suc (length-le_bytes w (n / 256))

pub le_value-le_bytes : (w n : ℕ) → n < 256 ^ w → le_value (le_bytes w n) ≡ n
le_value-le_bytes zero n h = omega arith
le_value-le_bytes (suc w) n h =
    omega (arith, le_value-le_bytes w (n / 256) (omega (arith, pow-suc 256 w)))

-- An array of bytes, by offset.
abbrev pub Mem : Type 0
Mem = ℕ → ℕ

-- The bytes `bs` copied to offset `off`.
unfoldable pub write : Mem → ℕ → List ℕ → Mem
write f off [] i = f i
write f off (b ∷ bs) i = if i == off then b else write f (suc off) bs i

-- The `n` bytes from offset `off` on.
unfoldable pub window : Mem → ℕ → ℕ → List ℕ
window f off zero = []
window f off (suc n) = f off ∷ window f (suc off) n

pub length-window : (f : Mem) (off n : ℕ) → length (window f off n) ≡ n
unfolding window
length-window f off zero = refl
length-window f off (suc n) = ap suc (length-window f (suc off) n)

write-below : (f : Mem) (off : ℕ) (bs : List ℕ) (i : ℕ) → i < off → write f off bs i ≡ f i
unfolding write
write-below f off [] i h = refl
write-below f off (b ∷ bs) i h = ground (arith, write-below f (suc off) bs i)

-- A copy changes nothing below its offset.
pub window-write_below :
    (f : Mem) (off n k : ℕ) (bs : List ℕ)
    → off + n ≤ k
    → window (write f k bs) off n ≡ window f off n
unfolding window
window-write_below f off zero k bs h = refl
window-write_below f off (suc n) k bs h =
    ground (arith, write-below f k bs off, window-write_below f (suc off) n k bs)

window-shadow :
    (f : Mem) (off k n b : ℕ) (bs : List ℕ)
    → k < off
    → window (write f k (b ∷ bs)) off n ≡ window (write f (suc k) bs) off n
unfolding window write
window-shadow f off k zero b bs h = refl
window-shadow f off k (suc n) b bs h = ground (arith, window-shadow f (suc off) k n b bs)

write-head : (f : Mem) (off b : ℕ) (bs : List ℕ) → write f off (b ∷ bs) off ≡ b
unfolding write
write-head f off b bs = ground arith

-- Reading back what a copy wrote.
pub window-write_self :
    (f : Mem) (off : ℕ) (bs : List ℕ) → window (write f off bs) off (length bs) ≡ bs
unfolding window
window-write_self f off [] = refl
window-write_self f off (b ∷ bs) = ground (
  arith,
  write-head f off b bs,
  window-shadow f (suc off) off (length bs) b bs,
  window-write_self f (suc off) bs,
)

pub window-append :
    (f : Mem) (off n m : ℕ) → window f off (n + m) ≡ window f off n ++ window f (off + n) m
unfolding window
window-append f off zero m = rw (add.zero, add-zero)
window-append f off (suc n) m = rw add.suc (
    ap (λ t. f off ∷ t)
      (window-append f (suc off) n m
        ∙ ap (λ k. window f (suc off) n ++ window f k m) (omega arith)))

-- A copy of `bs` just past the first `n` bytes extends them by `bs`.
pub window-write_end :
    (f : Mem) (n : ℕ) (bs : List ℕ) → window (write f n bs) 0 (n + length bs) ≡ window f 0 n ++ bs
window-write_end f n bs = rw (
  window-append (write f n bs) 0 n (length bs),
  add.zero n,
  window-write_self f n bs,
  window-write_below f 0 n n bs (omega arith),
)

write-above :
    (f : Mem) (off : ℕ) (bs : List ℕ) (i : ℕ) → off + length bs ≤ i → write f off bs i ≡ f i
unfolding write
write-above f off [] i h = refl
write-above f off (b ∷ bs) i h = ground (arith, write-above f (suc off) bs i)

-- A copy changes nothing past its end.
pub window-write_above :
    (f : Mem) (off n k : ℕ) (bs : List ℕ)
    → k + length bs ≤ off
    → window (write f k bs) off n ≡ window f off n
unfolding window
window-write_above f off zero k bs h = refl
window-write_above f off (suc n) k bs h =
    ground (arith, write-above f k bs off, window-write_above f (suc off) n k bs)

-- Bytes `cs` copied first, then `bs` into the gap before them.
pub window-write_gap :
    (f : Mem) (n : ℕ) (bs cs : List ℕ)
    → window (write (write f (n + length bs) cs) n bs) 0 (n + length bs + length cs)
      ≡ window f 0 n ++ (bs ++ cs)
window-write_gap f n bs cs =
    window-append (write (write f (n + length bs) cs) n bs) 0 (n + length bs) (length cs)
    ∙ rw (
      window-write_end (write f (n + length bs) cs) n bs,
      add.zero,
      window-write_above (write f (n + length bs) cs) (n + length bs) (length cs) n bs (le_refl _),
      window-write_self f (n + length bs) cs,
      window-write_below f 0 n (n + length bs) cs (omega arith),
      append_assoc,
    )
