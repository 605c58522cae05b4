-- ===== src/Factory/Opcodes.antt =====
-- `tag_opcodes` of validator/src/metadata_factory.cc: the code of an image, instruction by instruction. The
-- code is the list of its bytes; a word that reaches past its end is a read out of bounds. Warnings are
-- not modelled.
pub mod Ranges
pub mod Loop
pub mod Tagged
use hope_policy_engine.Prelude.{
  ℕ, zero, suc, ◌+◌, ◌*◌, ◌%◌, ◌^◌, Bool, if◌then◌else◌, List, [], ◌∷◌, Option, none, some, length,
}
use hope_policy_engine.Isa.{DecodedInstruction, exists}
use hope_policy_engine.Decoder.Decode.{decode}
use hope_policy_engine.Tagging.TagFile.Metadata.{Metadata}
use hope_policy_engine.Tagging.MemoryMap.{MemRegion}
use hope_policy_engine.Factory.{
  Factory, lookup_group_metadata, Result, ok, stop, bad_xlen, past_end, no_values, unfinished,
  ◌>>=◌, add_to_map,
}

-- `*(insn_bits_t*)(bytes + pc)`, with the lowest byte first
unfoldable pub read_bits : List ℕ → Result ℕ
read_bits (b0 ∷ b1 ∷ b2 ∷ b3 ∷ bytes) = ok (b0 + b1 * 2 ^ 8 + b2 * 2 ^ 16 + b3 * 2 ^ 24)
read_bits _ = stop past_end

-- a decoded instruction, by whether it is compressed and what its group has
unfoldable pub of_group : Bool → Option (Option Metadata) → Result (ℕ × Option Metadata)
of_group compressed none = stop no_values
of_group compressed (some md) = ok (if compressed then 2 else 4, md)

-- the number of bytes of an instruction, 4 if it cannot be decoded, and the tags of its group
unfoldable pub opcode : Factory → ℕ → ℕ → Result (ℕ × Option Metadata)
opcode f xlen bits = elim (decode bits xlen) [
  | none ↦ stop bad_xlen
  | some inst ↦
      if exists inst
      then of_group inst.flags.is_compressed (lookup_group_metadata inst.name inst f)
      else ok (4, none)
]

unfoldable pub tag_one : ℕ → ℕ → Option Metadata → List MemRegion → Result (List MemRegion)
tag_one start end none map = ok map
tag_one start end (some md) map = add_to_map start end md map

unfoldable pub advance : ℕ → List ℕ → List ℕ
advance zero bytes = bytes
advance (suc n) [] = []
advance (suc n) (b ∷ bytes) = advance n bytes

-- The loop, on fuel, with the bytes from `pc` on.
unfoldable pub tag_from :
    ℕ → Factory → ℕ → ℕ → ℕ → List ℕ → List MemRegion → Result (List MemRegion)
tag_from fuel f base xlen pc [] map = ok map
tag_from zero f base xlen pc (b ∷ bytes) map = stop unfinished
tag_from (suc fuel) f base xlen pc (b ∷ bytes) map = do
  bits ← read_bits (b ∷ bytes)
  r ← opcode f xlen bits
  map' ← tag_one ((base + pc) % 2 ^ 64) ((base + (pc + r.0)) % 2 ^ 64) r.1 map
  tag_from fuel f base xlen (pc + r.0) (advance r.0 (b ∷ bytes)) map'

unfoldable pub tag_opcodes : List MemRegion → ℕ → ℕ → List ℕ → Factory → Result (List MemRegion)
tag_opcodes map base xlen bytes f = tag_from (length bytes) f base xlen 0 bytes map
