-- ===== src/Factory/Opcodes/Ranges.antt =====
-- The loop of `tag_opcodes`, validator/src/metadata_factory.cc, ends, and tags instruction after
-- instruction.
use hope_policy_engine.Prelude.{
  ℕ, zero, suc, ◌+◌, ◌-◌, ◌≤◌, ◌<◌, ◌≡◌, ◌∙◌, refl, ◌⊎◌, inl, inr, Bool, true, false, if◌then◌else◌,
  List, [], ◌∷◌, Option, none, some, length, arith,
}
use hope_policy_engine.Isa.{exists}
use hope_policy_engine.Decoder.Range.Decode.{decode-InRange}
use hope_policy_engine.Tagging.RangeMap.{Range}
use hope_policy_engine.Tagging.TagFile.Metadata.{Metadata}
use hope_policy_engine.Factory.{
  Factory, lookup_group_metadata, Result, ok, stop, Stop, map_failed, past_end, no_values,
  unfinished, ◌>>=◌,
}
use hope_policy_engine.Factory.Opcodes.{read_bits, of_group, opcode, advance}

-- It returns a value with `P`, or stops for the map, for the end of the code or for a rule without values.
abbrev pub IsStop : Stop → Type 0
IsStop map_failed = Unit
IsStop past_end = Unit
IsStop no_values = Unit
IsStop _ = ⊥

abbrev pub Ends : {A : Type 0} → (A → Type 0) → Result A → Type 0
Ends P (ok a) = P a
Ends P (stop e) = IsStop e

pub Ends-bind :
    {A B : Type 0} (P : A → Type 0) (Q : B → Type 0) (m : Result A) (k : A → Result B)
    → Ends P m
    → ((a : A) → P a → Ends Q (k a))
    → Ends Q (m >>= k)
Ends-bind P Q (ok a) k h next = next a h
Ends-bind P Q (stop e) k h next = h

-- the bytes of an instruction
abbrev pub IsWidth : ℕ → Type 0
IsWidth n = (n ≡ 2) ⊎ (n ≡ 4)

of_group-Ends :
    (compressed : Bool) (o : Option (Option Metadata))
    → Ends (λ r. IsWidth r.0) (of_group compressed o)
unfolding of_group
of_group-Ends compressed none = tt
of_group-Ends true (some md) = inl refl
of_group-Ends false (some md) = inr refl

either-Ends :
    {A : Type 0} (P : A → Type 0) (b : Bool) (m n : Result A)
    → Ends P m
    → Ends P n
    → Ends P (if b then m else n)
either-Ends P true m n h k = h
either-Ends P false m n h k = k

pub opcode-Ends :
    (f : Factory) (xlen bits : ℕ)
    → (xlen ≡ 32) ⊎ (xlen ≡ 64)
    → Ends (λ r. IsWidth r.0) (opcode f xlen bits)
unfolding opcode
opcode-Ends f xlen bits h =
    let (inst, decoded, _) = decode-InRange bits xlen h in
    rw (decoded, opcode)
      (either-Ends (λ r. IsWidth r.0) (exists inst) _ (ok (4, none))
        (of_group-Ends inst.flags.is_compressed (lookup_group_metadata inst.name inst f))
        (inr refl))

pub length-advance : (n : ℕ) (bytes : List ℕ) → length (advance n bytes) ≡ length bytes - n
unfolding advance
length-advance zero bytes = ground arith
length-advance (suc n) [] = ground arith
length-advance (suc n) (b ∷ bytes) = length-advance n bytes ∙ ground arith

pub read_bits-Ends : (bytes : List ℕ) → Ends (λ bits. 4 ≤ length bytes) (read_bits bytes)
unfolding read_bits
read_bits-Ends [] = tt
read_bits-Ends (b0 ∷ []) = tt
read_bits-Ends (b0 ∷ b1 ∷ []) = tt
read_bits-Ends (b0 ∷ b1 ∷ b2 ∷ []) = tt
read_bits-Ends (b0 ∷ b1 ∷ b2 ∷ b3 ∷ bytes) = omega arith

-- what is left of the code after an instruction
pub left_over :
    (n fuel : ℕ) (bytes : List ℕ)
    → IsWidth n
    → 4 ≤ length bytes
    → length bytes ≤ suc fuel
    → (n + length (advance n bytes) ≡ length bytes) × (length (advance n bytes) ≤ fuel)
left_over n fuel bytes width four enough =
    let l = length-advance n bytes in (ground arith, ground arith)

unfoldable pub with_tags :
    Range → Option Metadata → List (Range × Metadata) → List (Range × Metadata)
with_tags range none rs = rs
with_tags range (some md) rs = (range, md) ∷ rs

-- The ranges that the loop tags, without the map.
unfoldable pub opcode_ranges : ℕ → Factory → ℕ → ℕ → ℕ → List ℕ → Result (List (Range × Metadata))
opcode_ranges fuel f base xlen pc [] = ok []
opcode_ranges zero f base xlen pc (b ∷ bytes) = stop unfinished
opcode_ranges (suc fuel) f base xlen pc (b ∷ bytes) = do
  bits ← read_bits (b ∷ bytes)
  r ← opcode f xlen bits
  rest ← opcode_ranges fuel f base xlen (pc + r.0) (advance r.0 (b ∷ bytes))
  ok (with_tags (record { start = base + pc; end = base + (pc + r.0) }) r.1 rest)

-- One after another, from `low` up to `high`.
abbrev pub InOrder : ℕ → ℕ → List (Range × Metadata) → Type 0
InOrder low high [] = low ≤ high
InOrder low high ((range, md) ∷ rs) =
    (low ≤ range.start) × (range.start < range.end) × InOrder range.end high rs

InOrder-lower :
    (low low' high : ℕ) (rs : List (Range × Metadata))
    → low ≤ low'
    → InOrder low' high rs
    → InOrder low high rs
InOrder-lower low low' high [] l h = omega arith
InOrder-lower low low' high ((range, md) ∷ rs) l (h, more, rest) = (omega arith, more, rest)

pub with_tags-InOrder :
    (low end high : ℕ) (o : Option Metadata) (rs : List (Range × Metadata))
    → low < end
    → InOrder end high rs
    → InOrder low high (with_tags (record { start = low; end = end }) o rs)
unfolding with_tags
with_tags-InOrder low end high none rs l h = InOrder-lower low end high rs (omega arith) h
with_tags-InOrder low end high (some md) rs l h = (omega arith, l, h)
