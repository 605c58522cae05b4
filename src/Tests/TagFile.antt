-- ===== src/Tests/TagFile.antt =====
-- A tag file with two ranges, two sets of tags, a register and a CSR.
use hope_policy_engine.Prelude.{◌≡◌, refl, inl, inr, true, List, [], ◌∷◌, ◌++◌, some, arith}
use hope_policy_engine.Tagging.RangeMap.{Range, range_eq}
use hope_policy_engine.Tagging.TagFile.Write.{saved, endless, write_int32_from}
use hope_policy_engine.Tagging.TagFile.Names.{
  Name, NameMap, after_last_dot, value_of, name_eq, has_dot,
}
use hope_policy_engine.Tagging.TagFile.Save.{TagIndexes, write_headers, save_tag_indexes}
use hope_policy_engine.Tagging.TagFile.Load.{load_firmware_tag_file}
use hope_policy_engine.Tagging.TagFile.Coalesce.{Covered, coalesce_ranges, coalesce_ranges-Covered}
use hope_policy_engine.Tagging.TagFile.Int32.{write_int32-endless}
use hope_policy_engine.Tagging.TagFile.Distinct.{Increasing, Distinct}
use hope_policy_engine.Tagging.TagFile.Entries.{Known}
use hope_policy_engine.Tagging.TagFile.LoadSave.{Holdable, index_bytes, loaded_indexes, load-save}

-- "A0" and "PC"
abbrev register_names : NameMap
register_names = ((65 ∷ 48 ∷ []), 10) ∷ ((80 ∷ 67 ∷ []), 64) ∷ []

-- "MISA"
abbrev csr_names : NameMap
csr_names = ((77 ∷ 73 ∷ 83 ∷ 65 ∷ []), 2) ∷ []

-- "Reg.A0"
abbrev a0 : Name
a0 = 82 ∷ 101 ∷ 103 ∷ 46 ∷ 65 ∷ 48 ∷ []

abbrev misa : Name
misa = 77 ∷ 73 ∷ 83 ∷ 65 ∷ []

abbrev code_range : Range
code_range = record { start = 0x1000; end = 0x2000 }

abbrev data_range : Range
data_range = record { start = 0x8000; end = 0x9000 }

abbrev indexes : TagIndexes
indexes = record {
  metadata_values = (3 ∷ 7 ∷ []) ∷ (300 ∷ []) ∷ [];
  memory_index_map = (code_range, 0) ∷ (data_range, 1) ∷ [];
  register_index_map = (a0, 1) ∷ [];
  csr_index_map = (misa, 0) ∷ [];
  register_default = 1;
  csr_default = 0;
  env_default = 200;
}

a0-Known : Known register_names (a0, 1)
unfolding value_of after_last_dot has_dot name_eq
a0-Known = (10, refl, omega arith, omega arith)

misa-Known : Known csr_names (misa, 0)
unfolding value_of after_last_dot has_dot name_eq
misa-Known = (2, refl, omega arith, omega arith)

indexes-Holdable : Holdable register_names csr_names indexes
unfolding Increasing Distinct range_eq
indexes-Holdable = (
  (
    omega arith,
    (
      (omega arith, (omega arith, (omega arith, tt)), ((omega arith, tt), (tt, tt))),
      ((omega arith, (omega arith, tt), (tt, tt)), tt),
    ),
  ),
  (
    omega arith,
    (((omega arith, omega arith), omega arith), (((omega arith, omega arith), omega arith), tt)),
    ((refl, tt), (tt, tt)),
  ),
  (omega arith, (a0-Known, tt), (tt, tt)),
  (omega arith, (misa-Known, tt), (tt, tt)),
  omega arith,
  omega arith,
  omega arith,
)

load-save_example :
    (save_tag_indexes register_names csr_names indexes
      ≡ saved (index_bytes register_names csr_names indexes))
    × (load_firmware_tag_file register_names csr_names (
          write_headers (code_range ∷ []) ((data_range, 8) ∷ []) true
          ++ (index_bytes register_names csr_names indexes ++ []))
        ≡ some (record {
          is_64_bit = 1;
          code_ranges = code_range ∷ [];
          data_ranges = data_range ∷ [];
          indexes = loaded_indexes register_names csr_names indexes;
        }))
load-save_example =
    load-save register_names csr_names (code_range ∷ []) ((data_range, 8) ∷ []) true indexes []
      (omega arith) ((omega arith, omega arith), tt) (omega arith)
      (((omega arith, omega arith), omega arith), tt) indexes-Holdable

write_int32-endless_example : write_int32_from 100 0xffffffff ≡ endless
write_int32-endless_example = write_int32-endless 100 0xffffffff (omega arith) (omega arith)

coalesce_ranges-Covered_example :
    (result : List Range) × (coalesce_ranges (data_range ∷ code_range ∷ []) ≡ some result)
    × Covered 0x1800 result
coalesce_ranges-Covered_example =
    coalesce_ranges-Covered 0x1800 (data_range ∷ code_range ∷ [])
      (inr (inl (omega arith, omega arith)))
