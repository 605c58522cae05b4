-- ===== src/Factory/Opcodes/Tagged.antt =====
-- `tag_opcodes`, validator/src/metadata_factory.cc, against the instructions of the code.
use hope_policy_engine.Prelude.{
  ℕ, zero, suc, ◌+◌, ◌^◌, ◌<◌, ◌≡◌, ◌∙◌, refl, ap, subst, ◌⊎◌, List, [], ◌∷◌, Option, none, some,
  length, arith, if◌then◌else◌, Bool-cases, Option-cases, inl, inr,
}
use hope_policy_engine.Isa.{DecodedInstruction, exists}
use hope_policy_engine.Decoder.Decode.{decode}
use hope_policy_engine.Tagging.RangeMap.{Range}
use hope_policy_engine.Tagging.TagFile.Metadata.{Metadata}
use hope_policy_engine.Tagging.MemoryMap.{MemRegion}
use hope_policy_engine.Factory.{
  Factory, lookup_group_metadata, Result, ok, stop, bad_xlen, no_values, unfinished, ◌>>=◌,
}
use hope_policy_engine.Factory.Opcodes.{read_bits, opcode, of_group, advance, tag_from, tag_opcodes}
use hope_policy_engine.Factory.Opcodes.Ranges.{Ends, with_tags, opcode_ranges}
use hope_policy_engine.Factory.Opcodes.Loop.{Tags, loop-Tags, tag_from-Ends}

-- Two bytes for an instruction that the decoder flags as compressed, and four for every other word. The
-- decoder does not flag the compressed instructions whose flags it joins, which are the loads and stores.
unfoldable pub width : DecodedInstruction → ℕ
width inst = if exists inst then (if inst.flags.is_compressed then 2 else 4) else 4

-- the tags of the instruction's group, and none for a word that is no instruction
unfoldable pub group_tags : Factory → DecodedInstruction → Result (Option Metadata)
group_tags f inst =
    if exists inst
    then elim (lookup_group_metadata inst.name inst f) [ none ↦ stop no_values | some md ↦ ok md ]
    else ok none

unfoldable pub decoded : ℕ → ℕ → Result DecodedInstruction
decoded bits xlen = elim (decode bits xlen) [ none ↦ stop bad_xlen | some inst ↦ ok inst ]

-- The ranges of the instructions that have tags, from an offset on.
unfoldable pub tagged_ranges : ℕ → Factory → ℕ → ℕ → ℕ → List ℕ → Result (List (Range × Metadata))
tagged_ranges fuel f base xlen pc [] = ok []
tagged_ranges zero f base xlen pc (b ∷ bytes) = stop unfinished
tagged_ranges (suc fuel) f base xlen pc (b ∷ bytes) = do
  bits ← read_bits (b ∷ bytes)
  inst ← decoded bits xlen
  md ← group_tags f inst
  rest ← tagged_ranges fuel f base xlen (pc + width inst) (advance (width inst) (b ∷ bytes))
  ok (with_tags (record { start = base + pc; end = base + (pc + width inst) }) md rest)

same_rest :
    {A B : Type 0} (m : Result A) (f g : A → Result B)
    → ((a : A) → f a ≡ g a)
    → (m >>= f) ≡ (m >>= g)
same_rest (ok a) f g same = same a
same_rest (stop e) f g same = refl

-- `opcode` gives the width of the instruction and the tags of its group.
opcode_then :
    {B : Type 0} (f : Factory) (xlen bits : ℕ) (k : ℕ × Option Metadata → Result B)
    → (opcode f xlen bits >>= k)
      ≡ (decoded bits xlen >>= (λ inst. group_tags f inst >>= (λ md. k (width inst, md))))
unfolding opcode decoded group_tags width of_group
opcode_then f xlen bits k = elim (Option-cases (decode bits xlen)) [
  | inl bad ↦ rw (bad, opcode) (rw (bad, decoded) refl)
  | inr (inst, good) ↦
      rw (good, opcode)
        (rw (good, decoded)
          (elim (Bool-cases (exists inst)) [
            | inr unknown ↦ rw (unknown) refl
            | inl known ↦ elim (Option-cases (lookup_group_metadata inst.name inst f)) [
              | inl wrong ↦ rw (known, wrong) refl
              | inr (md, found) ↦ rw (known, found) refl
            ]
          ]))
]

same_ranges :
    (fuel : ℕ) (f : Factory) (base xlen pc : ℕ) (bytes : List ℕ)
    → opcode_ranges fuel f base xlen pc bytes ≡ tagged_ranges fuel f base xlen pc bytes
unfolding opcode_ranges tagged_ranges
same_ranges fuel f base xlen pc [] = refl
same_ranges zero f base xlen pc (b ∷ bytes) = refl
same_ranges (suc fuel) f base xlen pc (b ∷ bytes) = same_rest (read_bits (b ∷ bytes)) _ _ (λ bits.
    opcode_then f xlen bits _
    ∙ same_rest (decoded bits xlen) _ _ (λ inst. same_rest (group_tags f inst) _ _ (λ md.
      ap
        (λ m. m >>= (λ rest.
          ok (with_tags (record { start = base + pc; end = base + (pc + width inst) }) md rest)))
        (same_ranges fuel f base xlen (pc + width inst) (advance (width inst) (b ∷ bytes))))))

-- For both register widths, and code whose addresses fit 64 bits, `tag_opcodes` ends, on fuel for as
-- many turns as the code has bytes: with the map, or because the map fails, an instruction word reaches
-- past the end of the code, or a rule on a range has no values. Where the code can be read, it adds to
-- the map the tags of the groups of its instructions, one after another: an instruction that the
-- decoder flags as compressed is taken to have two bytes, every other word four, and the ranges follow
-- one another within the addresses of the code.
pub tag_opcodes-Tags :
    (map : List MemRegion) (base xlen : ℕ) (bytes : List ℕ) (f : Factory)
    → (xlen ≡ 32) ⊎ (xlen ≡ 64)
    → base + length bytes < 2 ^ 64
    → Ends (λ map'. Unit) (tag_opcodes map base xlen bytes f)
      × Ends
          (Tags base (base + length bytes) (λ m. tag_opcodes m base xlen bytes f))
          (tagged_ranges (length bytes) f base xlen 0 bytes)
unfolding tag_opcodes
tag_opcodes-Tags map base xlen bytes f h room = (
  tag_from-Ends (length bytes) f base xlen 0 bytes map h (omega arith),
  subst (λ n. Ends (Tags n (base + length bytes) loop) found) low
      (subst (λ n. Ends (Tags (base + 0) n loop) found) high
        (subst (Ends (Tags (base + 0) (base + (0 + length bytes)) loop))
          (same_ranges (length bytes) f base xlen 0 bytes)
          (loop-Tags (length bytes) f base xlen 0 bytes h (omega arith) (omega arith)))),
)
  where
    loop : List MemRegion → Result (List MemRegion)
    loop = tag_from (length bytes) f base xlen 0 bytes

    found : Result (List (Range × Metadata))
    found = tagged_ranges (length bytes) f base xlen 0 bytes

    low : base + 0 ≡ base
    low = omega arith

    high : base + (0 + length bytes) ≡ base + length bytes
    high = omega arith
