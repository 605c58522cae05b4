-- ===== src/Factory/Opcodes/Loop.antt =====
-- The loop of `tag_opcodes`, validator/src/metadata_factory.cc, as a whole.
use hope_policy_engine.Prelude.{
  ℕ, zero, suc, ◌+◌, ◌%◌, ◌^◌, ◌≤◌, ◌<◌, ◌≡◌, refl, subst, ◌⊎◌, List, [], ◌∷◌, Option, none, some,
  length, arith, Option-cases, inl, inr,
}
use hope_policy_engine.Tagging.RangeMap.{Range}
use hope_policy_engine.Tagging.TagFile.Metadata.{Metadata}
use hope_policy_engine.Tagging.MemoryMap.{MemRegion, map_add_range}
use hope_policy_engine.Tagging.MetadataFile.{add_all}
use hope_policy_engine.Factory.{Factory, Result, ok, stop, map_failed, ◌>>=◌, add_to_map}
use hope_policy_engine.Factory.Opcodes.{read_bits, opcode, tag_one, advance, tag_from}
use hope_policy_engine.Factory.Opcodes.Ranges.{
  Ends, Ends-bind, IsWidth, opcode-Ends, read_bits-Ends, left_over, with_tags, opcode_ranges,
  InOrder, with_tags-InOrder,
}

-- the failed assertion of the map
abbrev pub of_map : Option (List MemRegion) → Result (List MemRegion)
of_map none = stop map_failed
of_map (some map) = ok map

tag_one-Ends :
    (start end : ℕ) (o : Option Metadata) (map : List MemRegion)
    → Ends (λ map'. Unit) (tag_one start end o map)
unfolding tag_one add_to_map
tag_one-Ends start end none map = tt
tag_one-Ends start end (some md) map = elim (Option-cases (map_add_range start end md map)) [
  | inl failed ↦ rw (failed, add_to_map) tt
  | inr (map', e) ↦ rw (e, add_to_map) tt
]

pub tag_from-Ends :
    (fuel : ℕ) (f : Factory) (base xlen pc : ℕ) (bytes : List ℕ) (map : List MemRegion)
    → (xlen ≡ 32) ⊎ (xlen ≡ 64)
    → length bytes ≤ fuel
    → Ends (λ map'. Unit) (tag_from fuel f base xlen pc bytes map)
unfolding tag_from
tag_from-Ends fuel f base xlen pc [] map h l = tt
tag_from-Ends zero f base xlen pc (b ∷ bytes) map h l = absurd (omega arith)
tag_from-Ends (suc fuel) f base xlen pc (b ∷ bytes) map h l =
    Ends-bind (λ bits. 4 ≤ length (b ∷ bytes)) (λ map'. Unit) (read_bits (b ∷ bytes)) _
      (read_bits-Ends (b ∷ bytes))
      (λ bits four.
        Ends-bind (λ r. IsWidth r.0) (λ map'. Unit) (opcode f xlen bits) _
          (opcode-Ends f xlen bits h)
          (λ r width.
            Ends-bind (λ map'. Unit) (λ map'. Unit)
              (tag_one ((base + pc) % 2 ^ 64) ((base + (pc + r.0)) % 2 ^ 64) r.1 map) _
              (tag_one-Ends ((base + pc) % 2 ^ 64) ((base + (pc + r.0)) % 2 ^ 64) r.1 map)
              (λ map' _.
                tag_from-Ends fuel f base xlen (pc + r.0) (advance r.0 (b ∷ bytes)) map' h
                  (left_over r.0 fuel (b ∷ bytes) width four l).1)))

-- What one turn does to the map, and then the rest of the ranges.
tag_one-add_all :
    (start end : ℕ) (o : Option Metadata) (rs : List (Range × Metadata)) (map : List MemRegion)
    (k : List MemRegion → Result (List MemRegion))
    → ((map' : List MemRegion) → k map' ≡ of_map (add_all rs map'))
    → (tag_one start end o map >>= k)
      ≡ of_map (add_all (with_tags (record { start = start; end = end }) o rs) map)
unfolding tag_one add_to_map with_tags add_all
tag_one-add_all start end none rs map k same = same map
tag_one-add_all start end (some md) rs map k same =
    elim (Option-cases (map_add_range start end md map)) [
      | inl failed ↦ rw (failed, add_to_map) refl
      | inr (map', e) ↦ rw (e, add_to_map) (same map')
    ]

-- The ranges stand in order in the code, and the loop adds them to the map.
abbrev pub Tags :
    ℕ → ℕ → (List MemRegion → Result (List MemRegion)) → List (Range × Metadata) → Type 0
Tags low high loop rs =
    InOrder low high rs × ((map : List MemRegion) → loop map ≡ of_map (add_all rs map))

-- one turn, once the bytes and the instruction are known
turn :
    (fuel : ℕ) (f : Factory) (base xlen pc b : ℕ) (bytes : List ℕ) (bits : ℕ)
    (r : ℕ × Option Metadata) (rs : List (Range × Metadata))
    → read_bits (b ∷ bytes) ≡ ok bits
    → opcode f xlen bits ≡ ok r
    → IsWidth r.0
    → r.0 + length (advance r.0 (b ∷ bytes)) ≡ length (b ∷ bytes)
    → base + (pc + length (b ∷ bytes)) < 2 ^ 64
    → Tags
        (base + (pc + r.0))
        (base + (pc + r.0 + length (advance r.0 (b ∷ bytes))))
        (tag_from fuel f base xlen (pc + r.0) (advance r.0 (b ∷ bytes)))
        rs
    → Tags
        (base + pc)
        (base + (pc + length (b ∷ bytes)))
        (tag_from (suc fuel) f base xlen pc (b ∷ bytes))
        (with_tags (record { start = base + pc; end = base + (pc + r.0) }) r.1 rs)
unfolding tag_from
turn fuel f base xlen pc b bytes bits r rs read found width rest room (order, same) = (
  with_tags-InOrder (base + pc) (base + (pc + r.0)) (base + (pc + length (b ∷ bytes))) r.1 rs
      (ground arith) (subst (λ n. InOrder (base + (pc + r.0)) n rs) (omega arith) order),
  λ map.
      let low : (base + pc) % 2 ^ 64 ≡ base + pc = omega arith in
      let high : (base + (pc + r.0)) % 2 ^ 64 ≡ base + (pc + r.0) = omega arith in
      rw (read) (
        rw (found)
          (rw (low, high) (tag_one-add_all (base + pc) (base + (pc + r.0)) r.1 rs map _ same))),
)

-- A result, with the equation of the value that it is.
Ends-equation :
    {A : Type 0} (P : A → Type 0) (m : Result A) → Ends P m → Ends (λ a. (m ≡ ok a) × P a) m
Ends-equation P (ok a) h = (refl, h)
Ends-equation P (stop e) h = h

pub loop-Tags :
    (fuel : ℕ) (f : Factory) (base xlen pc : ℕ) (bytes : List ℕ)
    → (xlen ≡ 32) ⊎ (xlen ≡ 64)
    → length bytes ≤ fuel
    → base + (pc + length bytes) < 2 ^ 64
    → Ends
        (Tags (base + pc) (base + (pc + length bytes)) (tag_from fuel f base xlen pc bytes))
        (opcode_ranges fuel f base xlen pc bytes)
unfolding opcode_ranges
loop-Tags fuel f base xlen pc [] h l room = unfold tag_from add_all in (omega arith, λ map. refl)
loop-Tags zero f base xlen pc (b ∷ bytes) h l room = absurd (omega arith)
loop-Tags (suc fuel) f base xlen pc (b ∷ bytes) h l room =
    let P =
      Tags (base + pc) (base + (pc + length (b ∷ bytes)))
        (tag_from (suc fuel) f base xlen pc (b ∷ bytes)) in
    Ends-bind (λ bits. (read_bits (b ∷ bytes) ≡ ok bits) × (4 ≤ length (b ∷ bytes))) P
      (read_bits (b ∷ bytes)) _
      (Ends-equation (λ bits. 4 ≤ length (b ∷ bytes)) (read_bits (b ∷ bytes))
        (read_bits-Ends (b ∷ bytes)))
      (λ bits (read, four).
        Ends-bind (λ r. (opcode f xlen bits ≡ ok r) × IsWidth r.0) P (opcode f xlen bits) _
          (Ends-equation (λ r. IsWidth r.0) (opcode f xlen bits) (opcode-Ends f xlen bits h))
          (λ r (found, width).
            let (rest, enough) = left_over r.0 fuel (b ∷ bytes) width four l in
            Ends-bind
              (Tags (base + (pc + r.0)) (base + (pc + r.0 + length (advance r.0 (b ∷ bytes))))
                (tag_from fuel f base xlen (pc + r.0) (advance r.0 (b ∷ bytes))))
              P (opcode_ranges fuel f base xlen (pc + r.0) (advance r.0 (b ∷ bytes))) _
              (loop-Tags fuel f base xlen (pc + r.0) (advance r.0 (b ∷ bytes)) h enough
                (omega arith))
              (λ rs done.
                turn fuel f base xlen pc b bytes bits r rs read found width rest room done)))
