-- ===== src/Prelude/Bits.antt =====
-- Bounds of `&` and `|` on native numbers, from the recursion on digits that the native operations
-- stand for.
use Prim.Native.Nat.{
  ℕ, zero, suc, ◌+◌, ◌/◌, ◌≤◌, min, max, bit_and, bit_or, digits, bit_and-bitwise, bit_or-bitwise,
}
use native.Mathlib.Omega.{arith}

and_digits-le :
    (fuel a b : ℕ) → (digits (λ _. zero) min fuel a b ≤ a) × (digits (λ _. zero) min fuel a b ≤ b)
and_digits-le zero a b = (omega arith, omega arith)
and_digits-le (suc fuel) zero b = (omega arith, omega arith)
and_digits-le (suc fuel) (suc a) b =
    let (left, right) = and_digits-le fuel (suc a / 2) (b / 2) in (omega arith, omega arith)

or_digits-le : (fuel a b : ℕ) → digits (λ b. b) max fuel a b ≤ a + b
or_digits-le zero a b = omega arith
or_digits-le (suc fuel) zero b = omega arith
or_digits-le (suc fuel) (suc a) b = omega (arith, or_digits-le fuel (suc a / 2) (b / 2))

-- Masking gives at most the mask.
pub bit_and-le : (a b : ℕ) → bit_and a b ≤ b
bit_and-le a b = rw (bit_and-bitwise a b) (and_digits-le a a b).1

-- Masking gives at most what is masked.
pub bit_and-le_left : (a b : ℕ) → bit_and a b ≤ a
bit_and-le_left a b = rw (bit_and-bitwise a b) (and_digits-le a a b).0

pub bit_or-le-add : (a b : ℕ) → bit_or a b ≤ a + b
bit_or-le-add a b = rw (bit_or-bitwise a b) (or_digits-le a a b)
