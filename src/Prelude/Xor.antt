-- ===== src/Prelude/Xor.antt =====
-- Laws of `^` on native numbers, from the recursion on digits that the native operation stands for.
use Prim.Native.Nat.{
  ℕ, zero, suc, ◌+◌, ◌-◌, ◌*◌, ◌/◌, ◌%◌, ◌≤◌, ◌<◌, ◌^◌, bit_xor, digits, differ, bit_xor-bitwise,
}
use mathlib.Core.Path.{◌≡◌, refl, ◌∙◌}
use native.Mathlib.Decide.{dec_le}
use native.Mathlib.Nat.{pow-suc}
use native.Mathlib.Omega.{arith}

abbrev xor_fuel : ℕ → ℕ → ℕ → ℕ
xor_fuel fuel a b = digits (λ c. c) differ fuel a b

-- Fuel beyond the first number is not used.
one_more : (fuel a b : ℕ) → a ≤ fuel → xor_fuel (suc fuel) a b ≡ xor_fuel fuel a b
one_more zero zero b h = refl
one_more zero (suc a) b h = absurd (omega arith)
one_more (suc fuel) zero b h = refl
one_more (suc fuel) (suc a) b h = omega (arith, one_more fuel (suc a / 2) (b / 2) (omega arith))

to_least : (spare a b : ℕ) → xor_fuel (spare + a) a b ≡ xor_fuel a a b
to_least zero a b = ground arith
to_least (suc spare) a b =
    let e : suc spare + a ≡ suc (spare + a) = omega arith in
    rw (e) (one_more (spare + a) a b (omega arith) ∙ to_least spare a b)

enough : (fuel a b : ℕ) → a ≤ fuel → xor_fuel fuel a b ≡ bit_xor a b
enough fuel a b h =
    let e : fuel ≡ fuel - a + a = omega arith in
    rw (bit_xor-bitwise a b) (rw (e) (to_least (fuel - a) a b))

differ_bits : (x y : ℕ) → x < 2 → y < 2 → differ x y ≡ (x + y) % 2
differ_bits zero y h l = omega arith
differ_bits (suc zero) zero h l = omega arith
differ_bits (suc zero) (suc zero) h l = omega arith
differ_bits (suc zero) (suc (suc y)) h l = absurd (omega arith)
differ_bits (suc (suc x)) y h l = absurd (omega arith)

pub zero-bit_xor : (b : ℕ) → bit_xor 0 b ≡ b
zero-bit_xor b = bit_xor-bitwise 0 b

-- The halves, and the lowest digits.
halves : (a b : ℕ) → bit_xor a b ≡ bit_xor (a / 2) (b / 2) * 2 + (a % 2 + b % 2) % 2
halves zero b = omega (arith, zero-bit_xor b, zero-bit_xor (b / 2))
halves (suc a) b = omega (
  arith,
  bit_xor-bitwise (suc a) b,
  enough a (suc a / 2) (b / 2) (omega arith),
  differ_bits (suc a % 2) (b % 2) (omega arith) (omega arith),
)

xor_comm_below : (n a b : ℕ) → a + b ≤ n → bit_xor a b ≡ bit_xor b a
xor_comm_below zero a b h =
    let p : a ≡ 0 = omega arith in let q : b ≡ 0 = omega arith in ground arith
xor_comm_below (suc n) a b h = elim (dec_le 1 (a + b)) [
  | yes p ↦ omega (arith, halves a b, halves b a, xor_comm_below n (a / 2) (b / 2) (omega arith))
  | no p ↦ xor_comm_below n a b (omega arith)
]

pub bit_xor_comm : (a b : ℕ) → bit_xor a b ≡ bit_xor b a
bit_xor_comm a b = xor_comm_below (a + b) a b (omega arith)

self_below : (n a : ℕ) → a ≤ n → bit_xor a a ≡ 0
self_below n zero h = zero-bit_xor 0
self_below zero (suc a) h = absurd (omega arith)
self_below (suc n) (suc a) h =
    omega (arith, halves (suc a) (suc a), self_below n (suc a / 2) (omega arith))

pub bit_xor_self : (a : ℕ) → bit_xor a a ≡ 0
bit_xor_self a = self_below a a (omega arith)

-- The rest and the lowest digit of a sum without carries.
parts :
    (a b : ℕ)
    → (bit_xor a b / 2 ≡ bit_xor (a / 2) (b / 2)) × (bit_xor a b % 2 ≡ (a % 2 + b % 2) % 2)
parts a b = (omega (arith, halves a b), omega (arith, halves a b))

assoc_below : (n a b c : ℕ) → a + b + c ≤ n → bit_xor (bit_xor a b) c ≡ bit_xor a (bit_xor b c)
assoc_below zero a b c h =
    let p : a ≡ 0 = omega arith in
    let q : b ≡ 0 = omega arith in let r : c ≡ 0 = omega arith in ground arith
assoc_below (suc n) a b c h = elim (dec_le 1 (a + b + c)) [
  | yes p ↦
      let ih = assoc_below n (a / 2) (b / 2) (c / 2) (omega arith) in
      let (ab, ab') = parts a b in
      let (bc, bc') = parts b c in
      rw (halves (bit_xor a b) c, halves a (bit_xor b c), ab, bc, ab', bc', ih) (omega arith)
  | no p ↦ assoc_below n a b c (omega arith)
]

pub bit_xor_assoc : (a b c : ℕ) → bit_xor (bit_xor a b) c ≡ bit_xor a (bit_xor b c)
bit_xor_assoc a b c = assoc_below (a + b + c) a b c (omega arith)

-- A sum without carries stays within the width of its arguments.
pub bit_xor-lt : (k a b : ℕ) → a < 2 ^ k → b < 2 ^ k → bit_xor a b < 2 ^ k
bit_xor-lt zero a b p q = let e : a ≡ 0 = omega arith in let f : b ≡ 0 = omega arith in ground arith
bit_xor-lt (suc k) a b p q = omega (
  arith,
  halves a b,
  pow-suc 2 k,
  bit_xor-lt k (a / 2) (b / 2) (omega (arith, pow-suc 2 k)) (omega (arith, pow-suc 2 k)),
)
