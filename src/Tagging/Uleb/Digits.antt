-- ===== src/Tagging/Uleb/Digits.antt =====
-- The bit operations of tagging_tools/uleb.h on seven bits.
use Prim.Native.Nat.{min, max, digits, bit_and-bitwise, bit_or-bitwise}
use native.Mathlib.Nat.{pow-suc, mul_assoc}
use hope_policy_engine.Prelude.{
  ℕ, zero, suc, ◌+◌, ◌*◌, ◌/◌, ◌%◌, ◌^◌, ◌≤◌, ◌<◌, ◌==◌, Bool, true, ◌&&◌, ◌≡◌, refl, ap, sym, ◌∙◌,
  bit_and, bit_or, arith, Bool-cases, inl, inr,
}

abbrev masked : ℕ → ℕ → ℕ → ℕ
masked fuel a mask = digits (λ _. zero) min fuel a mask

-- A mask of ones leaves the remainder, up to seven of them.
mask_digits :
    (fuel a : ℕ)
    → a ≤ fuel
    → (masked fuel a 0 ≡ 0)
      × (masked fuel a 1 ≡ a % 2)
      × (masked fuel a 3 ≡ a % 4)
      × (masked fuel a 7 ≡ a % 8)
      × (masked fuel a 15 ≡ a % 16)
      × (masked fuel a 31 ≡ a % 32)
      × (masked fuel a 63 ≡ a % 64)
      × (masked fuel a 127 ≡ a % 128)
mask_digits zero a h = ground arith
mask_digits (suc fuel) zero h = ground arith
mask_digits (suc fuel) (suc a) h =
    let (e0, e1, e3, e7, e15, e31, e63, e127) = mask_digits fuel (suc a / 2) (omega arith) in
    (
      omega arith,
      omega arith,
      omega arith,
      omega arith,
      omega arith,
      omega arith,
      omega arith,
      omega arith,
    )

pub bit_and-mask : (a : ℕ) → bit_and a 0x7f ≡ a % 128
bit_and-mask a = bit_and-bitwise a 0x7f ∙ (mask_digits a a (omega arith)).7

twice : (k b : ℕ) → b * 2 ^ suc k ≡ b * 2 ^ k * 2
twice k b = ap (λ t. b * t) (pow-suc 2 k) ∙ sym (mul_assoc b (2 ^ k) 2)

-- Numbers without a common digit are joined by their sum.
join_digits :
    (k fuel a b : ℕ) → a < 2 ^ k → a ≤ fuel → digits (λ c. c) max fuel a (b * 2 ^ k) ≡ a + b * 2 ^ k
join_digits k zero a b h f = omega arith
join_digits k (suc fuel) zero b h f = omega arith
join_digits zero (suc fuel) (suc a) b h f = absurd (omega arith)
join_digits (suc k) (suc fuel) (suc a) b h f =
    let below : suc a / 2 < 2 ^ k = omega (arith, pow-suc 2 k) in
    let ih = join_digits k fuel (suc a / 2) b below (omega arith) in
    rw (twice k b)
      (let half : b * 2 ^ k * 2 / 2 ≡ b * 2 ^ k = omega arith in rw (half, ih) (omega arith))

pub bit_or-join : (k a b : ℕ) → a < 2 ^ k → bit_or a (b * 2 ^ k) ≡ a + b * 2 ^ k
bit_or-join k a b h = bit_or-bitwise a (b * 2 ^ k) ∙ join_digits k a a b h (omega arith)

all_below : ℕ → (ℕ → Bool) → Bool
all_below zero test = true
all_below (suc n) test = test n && all_below n test

all_below_lem :
    (n : ℕ) (test : ℕ → Bool) → all_below n test ≡ true → (i : ℕ) → i < n → test i ≡ true
unfolding all_below
all_below_lem zero test h i l = absurd (omega arith)
all_below_lem (suc n) test h i l = elim (Bool-cases (n == i)) [
  | inl here ↦ let same : n ≡ i = ground arith in rw (← same) (ground arith)
  | inr below ↦ all_below_lem n test (ground arith) i (ground arith)
]

abbrev has_no_top : ℕ → Bool
has_no_top b = bit_and (b + 128) 0x80 == 128 && bit_and b 0x80 == 0

-- A byte below 128 and the same byte with its top bit.
pub continued :
    (b : ℕ)
    → b < 128
    → (bit_or b 0x80 ≡ b + 128) × (bit_and (b + 128) 0x80 ≡ 128) × (bit_and b 0x80 ≡ 0)
unfolding all_below
continued b h =
    let done = all_below_lem 128 has_no_top refl b h in
    (bit_or-join 7 b 1 (omega arith), ground arith, ground arith)
