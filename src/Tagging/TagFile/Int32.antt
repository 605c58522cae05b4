-- ===== src/Tagging/TagFile/Int32.antt =====
-- The defaults of a tag file, which are written as `int32_t`, tagging_tools/tag_file.cc and uleb.h.
use hope_policy_engine.Prelude.{
  ℕ, zero, suc, ◌/◌, ◌^◌, ◌≤◌, ◌<◌, ◌≡◌, refl, ap, ◌==◌, true, false, Bool-cases, inl, inr, arith,
}
use native.Mathlib.Nat.{pow-suc}
use hope_policy_engine.Tagging.Uleb.{write_uleb, write_from}
use hope_policy_engine.Tagging.TagFile.Write.{
  Save, saved, endless, ◌>>=◌, shift_int32, write_int32_from, write_int32,
}

pub saved-bind :
    {A B : Type 0} {m : Save A} (f : A → Save B) {a : A} → m ≡ saved a → (m >>= f) ≡ f a
saved-bind f e = ap (λ m. m >>= f) e

shift-positive : (value : ℕ) → value < 2 ^ 31 → shift_int32 value ≡ value / 2 ^ 7
unfolding shift_int32
shift-positive value l = ground arith

shift-negative :
    (value : ℕ)
    → 2 ^ 31 ≤ value
    → value < 2 ^ 32
    → (2 ^ 31 ≤ shift_int32 value) × (shift_int32 value < 2 ^ 32)
unfolding shift_int32
shift-negative value l u = ground arith

-- A negative number is written for ever: the loop has not ended after any number of steps.
pub write_int32-endless :
    (fuel value : ℕ) → 2 ^ 31 ≤ value → value < 2 ^ 32 → write_int32_from fuel value ≡ endless
unfolding write_int32_from
write_int32-endless zero value l u = refl
write_int32-endless (suc fuel) value l u =
    let (l', u') = shift-negative value l u in
    let ih = write_int32-endless fuel (shift_int32 value) l' u' in
    let more : (shift_int32 value == 0) ≡ false = ground arith in rw (more) (rw (ih) refl)

as_unsigned :
    (n fuel value : ℕ)
    → value < 2 ^ 31
    → value < 128 ^ suc n
    → value < fuel
    → write_int32_from (suc n) value ≡ saved (write_from fuel value)
unfolding write_int32_from write_from
as_unsigned n zero value l b f = absurd (omega arith)
as_unsigned zero (suc fuel) value l b f =
    let done : (value / 2 ^ 7 == 0) ≡ true = ground (arith, pow-suc 128 0) in
    rw (shift-positive value l) (rw (done) refl)
as_unsigned (suc n) (suc fuel) value l b f =
    rw (shift-positive value l) (elim (Bool-cases (value / 2 ^ 7 == 0)) [
      | inl e ↦ rw (e) refl
      | inr e ↦
          let ih =
            as_unsigned n fuel (value / 2 ^ 7) (omega arith) (omega (arith, pow-suc 128 (suc n)))
              (ground arith) in
          rw (e) (rw (ih) refl)
    ])

-- A value that is not negative is written as the unsigned number.
pub write_int32-write_uleb :
    (value : ℕ) → value < 2 ^ 31 → write_int32 value ≡ saved (write_uleb value)
unfolding write_int32 write_uleb
write_int32-write_uleb value l = as_unsigned 4 (suc value) value l (omega arith) (omega arith)
