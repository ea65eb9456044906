-- ===== src/Base/Bits.antt =====
-- Laws of `bit_and` at masks of ones, which the tactics do not know.
use Prim.Native.Nat.{
  ℕ, zero, suc, ◌+◌, ◌-◌, ◌*◌, ◌/◌, ◌%◌, ◌^◌, ◌≤◌, ◌<◌, min, bit_and, digits, bit_and-bitwise,
}
use mathlib.Core.Path.{◌≡◌, refl, ◌∙◌}
use native.Mathlib.Omega.{arith}
use native.Mathlib.Nat.{pow-suc}

mod_double : (a p : ℕ) → 0 < p → a % (p * 2) ≡ (a / 2) % p * 2 + a % 2
mod_double a p h = grind arith

pub pow_pos : (k : ℕ) → 0 < 2 ^ k
pow_pos zero = omega arith
pow_pos (suc k) = omega (arith, pow_pos k, pow-suc 2 k)

-- Digit by digit, a mask of `k` ones keeps `k` digits.
masked : (n k a b : ℕ) → a ≤ n → b ≡ 2 ^ k - 1 → digits (λ d. zero) min n a b ≡ a % 2 ^ k
masked zero k a b h e = omega arith
masked (suc n) k zero b h e = omega arith
masked (suc n) zero (suc a) b h e =
    omega (arith, masked n zero (suc a / 2) (b / 2) (omega arith) (omega arith))
masked (suc n) (suc k) (suc a) b h e =
    rw (pow-suc, mod_double (suc a) (2 ^ k) (pow_pos k))
      (omega (arith, b_odd, masked n k (suc a / 2) (b / 2) (omega arith) (omega (arith, half))))
  where
    half : b ≡ 2 ^ k * 2 - 1
    half = e ∙ rw pow-suc

    b_odd : b % 2 ≡ 1
    b_odd = omega (arith, half, pow_pos k)

pub bit_and_ones : (k a : ℕ) → bit_and a (2 ^ k - 1) ≡ a % 2 ^ k
bit_and_ones k a = bit_and-bitwise a (2 ^ k - 1) ∙ masked a k a (2 ^ k - 1) (omega arith) refl

pub bit_and_12_ones : (a : ℕ) → bit_and a 4095 ≡ a % 4096
bit_and_12_ones a = bit_and_ones 12 a

pub bit_and_48_ones : (a : ℕ) → bit_and a 0xffff_ffff_ffff ≡ a % 2 ^ 48
bit_and_48_ones a = bit_and_ones 48 a
