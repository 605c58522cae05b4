-- ===== src/Tagging/TagFile/Load.antt =====
-- `load_firmware_tag_file` of tagging_tools/tag_file.cc on the bytes of the file.
use hope_policy_engine.Prelude.{ℕ, Bool, if◌then◌else◌, List, [], ◌∷◌, Option, some}
use hope_policy_engine.Tagging.RangeMap.{Range, range_eq}
use hope_policy_engine.Tagging.TagFile.Read.{◌>>=◌, read_number, read_many}
use hope_policy_engine.Tagging.TagFile.Names.{Name, NameMap, name_of, name_eq}
use hope_policy_engine.Tagging.TagFile.Metadata.{Metadata, insert_all}
use hope_policy_engine.Tagging.TagFile.Save.{TagIndexes}

unfoldable pub read_range : List ℕ → Option (Range × List ℕ)
read_range bytes = do
  start ← read_number 64 bytes
  end ← read_number 64 start.1
  some (record { start = start.0; end = end.0 }, end.1)

-- The granularity is read and dropped.
unfoldable pub read_data_range : List ℕ → Option (Range × List ℕ)
read_data_range bytes = do
  range ← read_range bytes
  gran ← read_number 64 range.1
  some (range.0, gran.1)

unfoldable pub read_metadata : List ℕ → Option (Metadata × List ℕ)
read_metadata bytes = do
  count ← read_number 32 bytes
  tags ← read_many (read_number 64) count.0 count.1
  some (insert_all tags.0 [], tags.1)

unfoldable pub read_index : NameMap → List ℕ → Option ((Name × ℕ) × List ℕ)
read_index table bytes = do
  value ← read_number 32 bytes
  meta ← read_number 32 value.1
  name ← name_of value.0 table
  some ((name, meta.0), meta.1)

unfoldable pub read_memory_index : List ℕ → Option ((Range × ℕ) × List ℕ)
read_memory_index bytes = do
  range ← read_range bytes
  index ← read_number 32 range.1
  some ((range.0, index.0), index.1)

-- `insert` of `std::map`: a key that is there keeps its value. The order is that of insertion.
unfoldable pub insert_entry : {K : Type 0} → (K → K → Bool) → K × ℕ → List (K × ℕ) → List (K × ℕ)
insert_entry eq e [] = e ∷ []
insert_entry eq (k, v) ((key, value) ∷ entries) =
    let rest = insert_entry eq (k, v) entries in
    if eq key k then (key, value) ∷ entries else (key, value) ∷ rest

-- A `std::map` as its entries, in the order in which their keys were first inserted. The map itself goes
-- through them in the order of the keys; what a key has is the same.
unfoldable pub insert_entries :
    {K : Type 0} → (K → K → Bool) → List (K × ℕ) → List (K × ℕ) → List (K × ℕ)
insert_entries eq [] map = map
insert_entries eq (e ∷ es) map = insert_entries eq es (insert_entry eq e map)

-- What `load_firmware_tag_file` fills in.
pub record Loaded : Type 0 where
  pub is_64_bit : ℕ
  pub code_ranges : List Range
  pub data_ranges : List Range
  pub indexes : TagIndexes

-- The parameters are `register_name_map` and `csr_name_map`. The containers are empty before.
module _ (register_name_map csr_name_map : NameMap) where
  unfoldable pub read_headers : List ℕ → Option ((ℕ × List Range × List Range) × List ℕ)
  read_headers bytes = do
    is_64_bit ← read_number 8 bytes
    code_range_count ← read_number 32 is_64_bit.1
    code_ranges ← read_many read_range code_range_count.0 code_range_count.1
    data_range_count ← read_number 32 code_ranges.1
    data_ranges ← read_many read_data_range data_range_count.0 data_range_count.1
    some ((is_64_bit.0, code_ranges.0, data_ranges.0), data_ranges.1)

  unfoldable pub read_tag_indexes : List ℕ → Option (TagIndexes × List ℕ)
  read_tag_indexes bytes = do
    value_count ← read_number 32 bytes
    values ← read_many read_metadata value_count.0 value_count.1
    register_count ← read_number 32 values.1
    register_default ← read_number 32 register_count.1
    registers ← read_many (read_index register_name_map) register_count.0 register_default.1
    csr_count ← read_number 32 registers.1
    csr_default ← read_number 32 csr_count.1
    csrs ← read_many (read_index csr_name_map) csr_count.0 csr_default.1
    env_default ← read_number 32 csrs.1
    memory_count ← read_number 32 env_default.1
    memory ← read_many read_memory_index memory_count.0 memory_count.1
    some (
      record {
        metadata_values = values.0;
        memory_index_map = insert_entries range_eq memory.0 [];
        register_index_map = insert_entries name_eq registers.0 [];
        csr_index_map = insert_entries name_eq csrs.0 [];
        register_default = register_default.0;
        csr_default = csr_default.0;
        env_default = env_default.0;
      },
      memory.1,
    )

  -- What follows in the file is not read.
  unfoldable pub load_firmware_tag_file : List ℕ → Option Loaded
  load_firmware_tag_file bytes = do
    headers ← read_headers bytes
    indexes ← read_tag_indexes headers.1
    some (record {
      is_64_bit = headers.0.0;
      code_ranges = headers.0.1;
      data_ranges = headers.0.2;
      indexes = indexes.0;
    })
