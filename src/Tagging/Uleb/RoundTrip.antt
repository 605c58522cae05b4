-- ===== src/Tagging/Uleb/RoundTrip.antt =====
-- The numbers of tagging_tools/uleb.h, written and read.
use native.Mathlib.Nat.{pow-suc, mul_assoc, mul-le-mul_right, add-mul, mod-eq_of_lt}
use hope_policy_engine.Prelude.{
  ℕ, zero, suc, ◌+◌, ◌*◌, ◌/◌, ◌%◌, ◌^◌, ◌≤◌, ◌<◌, ◌==◌, ◌≡◌, refl, ap, sym, ◌∙◌, false, List, [],
  ◌∷◌, ◌++◌, some, length, bit_and, bit_or, arith, Bool-cases, inl, inr,
}
use hope_policy_engine.Tagging.Uleb.{read_from, read_uleb, write_from, write_uleb}
use hope_policy_engine.Tagging.Uleb.Digits.{bit_and-mask, bit_or-join, continued}

-- What one byte adds to the value.
byte_value :
    (width shift v b : ℕ)
    → v < 2 ^ shift
    → v + b * 2 ^ shift < 2 ^ width
    → bit_or v (b * 2 ^ shift % 2 ^ width) ≡ v + b * 2 ^ shift
byte_value width shift v b h l =
    let small : b * 2 ^ shift % 2 ^ width ≡ b * 2 ^ shift = mod-eq_of_lt (omega arith) in
    ap (λ t. bit_or v t) small ∙ bit_or-join shift v b h

seven_more : (shift : ℕ) → 2 ^ (shift + 7) ≡ 128 * 2 ^ shift
seven_more shift =
    let e : shift + 7 ≡ suc (suc (suc (suc (suc (suc (suc shift)))))) = omega arith in
    ap (λ n. 2 ^ n) e
    ∙ omega (
      arith,
      pow-suc 2 shift,
      pow-suc 2 (suc shift),
      pow-suc 2 (suc (suc shift)),
      pow-suc 2 (suc (suc (suc shift))),
      pow-suc 2 (suc (suc (suc (suc shift)))),
      pow-suc 2 (suc (suc (suc (suc (suc shift))))),
      pow-suc 2 (suc (suc (suc (suc (suc (suc shift)))))),
    )

-- A number by its lowest seven bits and the rest, at a place.
places : (shift x : ℕ) → x % 128 * 2 ^ shift + x / 128 * 2 ^ (shift + 7) ≡ x * 2 ^ shift
places shift x =
    let whole : x % 128 + x / 128 * 128 ≡ x = omega arith in
    let moved : x / 128 * 2 ^ (shift + 7) ≡ x / 128 * 128 * 2 ^ shift =
      ap (λ t. x / 128 * t) (seven_more shift) ∙ sym (mul_assoc (x / 128) 128 (2 ^ shift)) in
    rw (moved) (sym (add-mul (x % 128) (x / 128 * 128) (2 ^ shift)) ∙ ap (λ t. t * 2 ^ shift) whole)

write-last : (fuel x : ℕ) → x / 128 ≡ 0 → write_from (suc fuel) x ≡ x % 128 ∷ []
unfolding write_from
write-last fuel x e = rw (e, write_from) (rw (bit_and-mask x) refl)

write-more :
    (fuel x : ℕ)
    → (x / 128 == 0) ≡ false
    → write_from (suc fuel) x ≡ (x % 128 + 128) ∷ write_from fuel (x / 128)
unfolding write_from
write-more fuel x e =
    rw (e, write_from) (rw (bit_and-mask x, (continued (x % 128) (omega arith)).0) refl)

module _ (width shift v b : ℕ) (rest : List ℕ) where
  read-last :
      b < 128
      → v < 2 ^ shift
      → v + b * 2 ^ shift < 2 ^ width
      → read_from width shift v (b ∷ rest) ≡ some (v + b * 2 ^ shift, (shift + 7) / 7, rest)
  unfolding read_from
  read-last small h l =
      let mask : bit_and b 0x7f ≡ b = bit_and-mask b ∙ omega arith in
      rw ((continued b small).2, read_from) (rw (mask, byte_value width shift v b h l) refl)

  read-more :
      b < 128
      → v < 2 ^ shift
      → v + b * 2 ^ shift < 2 ^ width
      → read_from width shift v ((b + 128) ∷ rest)
        ≡ read_from width (shift + 7) (v + b * 2 ^ shift) rest
  unfolding read_from
  read-more small h l =
      let mask : bit_and (b + 128) 0x7f ≡ b = bit_and-mask (b + 128) ∙ omega arith in
      rw ((continued b small).1, read_from) (rw (mask, byte_value width shift v b h l) refl)

-- Reading what the loop of `write_uleb` wrote, from any place on.
read-write :
    (width fuel shift v x : ℕ) (rest : List ℕ)
    → v < 2 ^ shift
    → v + x * 2 ^ shift < 2 ^ width
    → x < fuel
    → read_from width shift v (write_from fuel x ++ rest)
      ≡ some (v + x * 2 ^ shift, (shift + 7 * length (write_from fuel x)) / 7, rest)
read-write width zero shift v x rest h l f = absurd (omega arith)
read-write width (suc fuel) shift v x rest h l f =
    let place = places shift x in
    let next = seven_more shift in
    elim (Bool-cases (x / 128 == 0)) [
      | inl last ↦
          let zero_left : x / 128 ≡ 0 = ground arith in
          let same : x % 128 ≡ x = omega arith in
          rw (write-last fuel x zero_left, same) (read-last width shift v x rest (omega arith) h l)
      | inr more ↦
          let tail = write_from fuel (x / 128) in
          let small : x % 128 * 2 ^ shift ≤ 127 * 2 ^ shift =
            mul-le-mul_right (2 ^ shift) (omega arith) in
          let v' = v + x % 128 * 2 ^ shift in
          let ih =
            read-write width fuel (shift + 7) v' (x / 128) rest (omega arith) (omega arith)
              (ground arith) in
          let whole : v' + x / 128 * 2 ^ (shift + 7) ≡ v + x * 2 ^ shift = omega arith in
          let count : shift + 7 + 7 * length tail ≡ shift + 7 * suc (length tail) = omega arith in
          rw (write-more fuel x more) (
            read-more width shift v (x % 128) (tail ++ rest) (omega arith) h (omega arith)
            ∙ ih
            ∙ ap (λ t. some (t, (shift + 7 + 7 * length tail) / 7, rest)) whole
            ∙ ap (λ n. some (v + x * 2 ^ shift, n / 7, rest)) count)
    ]

-- A number of the width is read back as it was written, whatever follows it in the file, and the number
-- of bytes read is that of the bytes written.
pub read_uleb-write_uleb :
    (width value : ℕ) (rest : List ℕ)
    → value < 2 ^ width
    → read_uleb width (write_uleb value ++ rest) ≡ some (value, length (write_uleb value), rest)
unfolding read_uleb write_uleb
read_uleb-write_uleb width value rest h =
    let count : (0 + 7 * length (write_from (suc value) value)) / 7
        ≡ length (write_from (suc value) value) =
      omega arith in
    let whole : 0 + value * 2 ^ 0 ≡ value = omega arith in
    read-write width (suc value) 0 0 value rest (omega arith) (omega arith) (omega arith)
    ∙ ap (λ t. some (t, (0 + 7 * length (write_from (suc value) value)) / 7, rest)) whole
    ∙ ap (λ n. some (value, n, rest)) count
