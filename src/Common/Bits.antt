-- ===== src/Common/Bits.antt =====
-- The mask of the lowest bits, `a & (2^k - 1)`, as arithmetic.
use Prim.Native.Nat.{
  ℕ, zero, suc, ◌+◌, ◌*◌, ◌-◌, ◌/◌, ◌%◌, ◌^◌, ◌≤◌, ◌<◌, min, bit_and, digits, bit_and-bitwise,
}
use mathlib.Core.Path.{◌≡◌, ap, ◌∙◌}
use native.Mathlib.Nat.{pow-suc, one-le-pow}
use native.Mathlib.Omega.{arith}

-- Halving and doubling under a power of two.
mod-double : (a p : ℕ) → 0 < p → (a / 2) % p * 2 + a % 2 ≡ a % (2 * p)
mod-double a p h = grind arith

masked_digits : (fuel k a : ℕ) → a ≤ fuel → digits (λ _. 0) min fuel a (2 ^ k - 1) ≡ a % 2 ^ k
masked_digits zero k zero h = omega (arith, one-le-pow k 2)
masked_digits zero k (suc a) h = absurd (omega arith)
masked_digits (suc fuel) k zero h = omega (arith, one-le-pow k 2)
masked_digits (suc fuel) zero (suc a) h =
    omega (arith, masked_digits fuel 0 (suc a / 2) (omega arith))
masked_digits (suc fuel) (suc k) (suc a) h =
    let p = pow-suc 2 k in
    let one : 0 < 2 ^ k = one-le-pow k 2 (omega arith) in
    let twice : 2 ^ suc k ≡ 2 * 2 ^ k = omega (arith, p) in
    let half : (2 ^ suc k - 1) / 2 ≡ 2 ^ k - 1 = omega (arith, p, one) in
    let odd : (2 ^ suc k - 1) % 2 ≡ 1 = omega (arith, p, one) in
    rw (half, odd, masked_digits fuel k (suc a / 2) (omega arith))
      (omega (arith, ap (λ (t : ℕ). suc a % t) twice, mod-double (suc a) (2 ^ k) one))

pub bit_and-mask : (k a : ℕ) → bit_and a (2 ^ k - 1) ≡ a % 2 ^ k
bit_and-mask k a = bit_and-bitwise a (2 ^ k - 1) ∙ masked_digits a k a (omega arith)
