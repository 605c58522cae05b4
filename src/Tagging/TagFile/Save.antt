-- ===== src/Tagging/TagFile/Save.antt =====
-- `write_headers`, `save_tag_indexes` and `save_metadata` of tagging_tools/tag_file.cc. A `std::map` is the
-- list of its entries in the order of iteration.
use hope_policy_engine.Prelude.{ℕ, Bool, if◌then◌else◌, List, [], ◌∷◌, ◌++◌, none, some, length}
use hope_policy_engine.Tagging.RangeMap.{Range}
use hope_policy_engine.Tagging.TagFile.Write.{
  Save, saved, unknown_name, ◌>>=◌, write_number, write_int32, write_all, in_turn,
}
use hope_policy_engine.Tagging.TagFile.Names.{Name, NameMap, after_last_dot, value_of}
use hope_policy_engine.Tagging.TagFile.Metadata.{Metadata}

unfoldable pub write_range : Range → List ℕ
write_range range = write_number 64 range.start ++ write_number 64 range.end

-- a range of data with its granularity
unfoldable pub write_data_range : Range × ℕ → List ℕ
write_data_range (range, gran) = write_range range ++ write_number 64 gran

unfoldable pub write_headers : List Range → List (Range × ℕ) → Bool → List ℕ
write_headers code_ranges data_ranges is_64_bit = in_turn (
    (write_number 8 (if is_64_bit then 1 else 0))
    ∷ (write_number 32 (length code_ranges))
    ∷ (write_all write_range code_ranges)
    ∷ (write_number 32 (length data_ranges))
    ∷ (write_all write_data_range data_ranges)
    ∷ [])

-- `meta_t` is `uintptr_t`, of 64 bits.
unfoldable pub write_metadata : Metadata → List ℕ
write_metadata md = write_number 32 (length md) ++ write_all (write_number 64) md

-- the entries of `register_index_map` or `csr_index_map`
unfoldable pub write_indexes : NameMap → List (Name × ℕ) → Save (List ℕ)
write_indexes table [] = saved []
write_indexes table ((name, index) ∷ entries) = elim (value_of (after_last_dot name) table) [
  | none ↦ unknown_name
  | some value ↦ do
    rest ← write_indexes table entries
    saved (write_number 32 value ++ write_number 32 index ++ rest)
]

unfoldable pub write_memory_index : Range × ℕ → List ℕ
write_memory_index (range, index) = write_range range ++ write_number 32 index

-- What `save_tag_indexes` is given. A default is the 32-bit pattern of an `int32_t`.
pub record TagIndexes : Type 0 where
  pub metadata_values : List Metadata
  pub memory_index_map : List (Range × ℕ)
  pub register_index_map : List (Name × ℕ)
  pub csr_index_map : List (Name × ℕ)
  pub register_default : ℕ
  pub csr_default : ℕ
  pub env_default : ℕ

-- The parameters are `register_name_map` and `csr_name_map`.
module _ (register_name_map csr_name_map : NameMap) where
  unfoldable pub save_tag_indexes : TagIndexes → Save (List ℕ)
  save_tag_indexes t = do
    register_default ← write_int32 t.register_default
    registers ← write_indexes register_name_map t.register_index_map
    csr_default ← write_int32 t.csr_default
    csrs ← write_indexes csr_name_map t.csr_index_map
    env_default ← write_int32 t.env_default
    saved (
        in_turn (
          (write_number 32 (length t.metadata_values))
          ∷ (write_all write_metadata t.metadata_values)
          ∷ (write_number 32 (length t.register_index_map))
          ∷ register_default
          ∷ registers
          ∷ (write_number 32 (length t.csr_index_map))
          ∷ csr_default
          ∷ csrs
          ∷ env_default
          ∷ (write_number 32 (length t.memory_index_map))
          ∷ (write_all write_memory_index t.memory_index_map)
          ∷ []))
