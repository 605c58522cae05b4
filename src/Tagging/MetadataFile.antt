-- ===== src/Tagging/MetadataFile.antt =====
-- `save_metadata` and `load_metadata` of tagging_tools/tag_file.cc on the bytes of the file, which takes
-- every byte.
pub mod RoundTrip
use hope_policy_engine.Prelude.{
  ℕ, zero, suc, ◌==◌, true, if◌then◌else◌, List, [], ◌∷◌, ◌++◌, Option, none, some, length,
}
use hope_policy_engine.Tagging.RangeMap.{Range}
use hope_policy_engine.Tagging.TagFile.Write.{write_number, write_all}
use hope_policy_engine.Tagging.TagFile.Read.{◌>>=◌, read_number, read_many}
use hope_policy_engine.Tagging.TagFile.Metadata.{Metadata, insert_all}
use hope_policy_engine.Tagging.TagFile.Save.{write_range}
use hope_policy_engine.Tagging.TagFile.Load.{read_range}
use hope_policy_engine.Tagging.MemoryMap.{MemRegion, map_add_range}
use hope_policy_engine.Tagging.MemoryMap.Ranges.{TaggedWords, iterate}

-- The size is written with 64 bits and read with 32.
unfoldable pub write_tagged : Range × Metadata → List ℕ
write_tagged (range, md) =
    write_range range ++ (write_number 64 (length md) ++ write_all (write_number 64) md)

-- the loop, on the ranges of the iterator and the sets behind its pointers
unfoldable pub save_metadata : List (Range × Metadata) → ℕ → List ℕ
save_metadata tagged xlen = write_number 32 xlen ++ write_all write_tagged tagged

-- The sets behind the pointers; a null pointer, which the loop dereferences, is `none`.
unfoldable pub pointed : List TaggedWords → Option (List (Range × Metadata))
pointed [] = some []
pointed ((range, none) ∷ ts) = none
pointed ((range, some md) ∷ ts) = do rest ← pointed ts; some ((range, md) ∷ rest)

-- the bytes of a map
unfoldable pub save_map : List MemRegion → ℕ → Option (List ℕ)
save_map mrs xlen = do ts ← iterate mrs; tagged ← pointed ts; some (save_metadata tagged xlen)

unfoldable pub read_tagged : List ℕ → Option ((Range × Metadata) × List ℕ)
read_tagged bytes = do
  range ← read_range bytes
  count ← read_number 32 range.1
  tags ← read_many (read_number 64) count.0 count.1
  some ((range.0, insert_all tags.0 []), tags.1)

-- `while (!reader.eof())`, on fuel: each turn reads a byte at least.
unfoldable pub read_to_end : ℕ → List ℕ → Option (List (Range × Metadata))
read_to_end zero bytes = if length bytes == 0 then some [] else none
read_to_end (suc fuel) bytes = elim (length bytes == 0) [
  | true ↦ some []
  | _ ↦ read_tagged bytes >>= λ r. read_to_end fuel r.1 >>= λ rest. some (r.0 ∷ rest)
]

unfoldable pub add_all : List (Range × Metadata) → List MemRegion → Option (List MemRegion)
add_all [] map = some map
add_all ((range, md) ∷ tagged) map = do
  map' ← map_add_range range.start range.end md map
  add_all tagged map'

-- `none` is the result false, or a failed assertion of the map. The number is `xlen`.
unfoldable pub load_metadata : List MemRegion → List ℕ → Option (ℕ × List MemRegion)
load_metadata map bytes = do
  xlen ← read_number 32 bytes
  tagged ← read_to_end (length xlen.1) xlen.1
  map' ← add_all tagged map
  some (xlen.0, map')
