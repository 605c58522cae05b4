-- ===== src/Tagging/TagFile/LoadSave.antt =====
-- A whole tag file of tagging_tools/tag_file.cc, saved and loaded.
use hope_policy_engine.Prelude.{
  ℕ, ◌%◌, ◌^◌, ◌<◌, ◌≡◌, ◌∙◌, refl, ap, Bool, true, false, if◌then◌else◌, List, ◌++◌, map, some,
  length, All, arith,
}
use hope_policy_engine.Tagging.RangeMap.{Range, range_eq}
use hope_policy_engine.Tagging.TagFile.Write.{saved, write_number, write_all, write_int32}
use hope_policy_engine.Tagging.TagFile.Read.{read_number, read_many}
use hope_policy_engine.Tagging.TagFile.Names.{NameMap, name_eq}
use hope_policy_engine.Tagging.TagFile.Save.{
  TagIndexes, write_range, write_data_range, write_headers, write_metadata, write_memory_index,
  save_tag_indexes,
}
use hope_policy_engine.Tagging.TagFile.Load.{
  read_range, read_data_range, read_metadata, read_index, read_memory_index, read_headers,
  read_tag_indexes, load_firmware_tag_file,
}
use hope_policy_engine.Tagging.TagFile.Sequences.{
  some-bind, read_number-write_number, read_many-write_all,
}
use hope_policy_engine.Tagging.TagFile.Int32.{write_int32-write_uleb}
use hope_policy_engine.Tagging.TagFile.Distinct.{Distinct, insert_entries-Distinct}
use hope_policy_engine.Tagging.TagFile.RoundTrip.{
  next, next-last, RangeFits, range_back, DataFits, first, data_back, memory_back, MetaFits,
  metadata_back, map_same,
}
use hope_policy_engine.Tagging.TagFile.Entries.{reread, Known, write_entry, index_back, write-Known}

-- What a tag file can hold: sizes and numbers of their widths, defaults that are not negative, names of the
-- tables, and no range or first name twice.
abbrev pub Holdable : NameMap → NameMap → TagIndexes → Type 0
Holdable registers csrs t =
    ((length t.metadata_values < 2 ^ 32) × All MetaFits t.metadata_values)
    × ((length t.memory_index_map < 2 ^ 32)
        × All (λ e. RangeFits e.0 × (e.1 < 2 ^ 32)) t.memory_index_map
        × Distinct range_eq t.memory_index_map)
    × ((length t.register_index_map < 2 ^ 32)
        × All (Known registers) t.register_index_map
        × Distinct name_eq (map (reread registers) t.register_index_map))
    × ((length t.csr_index_map < 2 ^ 32)
        × All (Known csrs) t.csr_index_map
        × Distinct name_eq (map (reread csrs) t.csr_index_map))
    × (t.register_default < 2 ^ 31)
    × (t.csr_default < 2 ^ 31)
    × (t.env_default < 2 ^ 31)

abbrev pub loaded_indexes : NameMap → NameMap → TagIndexes → TagIndexes
loaded_indexes registers csrs t = record t {
  register_index_map = map (reread registers) t.register_index_map;
  csr_index_map = map (reread csrs) t.csr_index_map;
}

int32_number : (value : ℕ) → value < 2 ^ 31 → write_int32 value ≡ saved (write_number 32 value)
unfolding write_number
int32_number value l =
    let small : value % 2 ^ 32 ≡ value = omega arith in rw (small) (write_int32-write_uleb value l)

count_back :
    (n : ℕ)
    → n < 2 ^ 32
    → (more : List ℕ) → read_number 32 (write_number 32 n ++ more) ≡ some (n, more)
count_back n l more = read_number-write_number 32 n more l

flag_fits : (b : Bool) → (if b then 1 else 0) < 2 ^ 8
flag_fits true = omega arith
flag_fits false = omega arith

-- The parameters are `register_name_map` and `csr_name_map`.
module _ (registers csrs : NameMap) where
  -- The bytes of a tag file from each of its parts on.
  abbrev memory_bytes : TagIndexes → List ℕ
  memory_bytes t = write_all write_memory_index t.memory_index_map

  abbrev from_memory : TagIndexes → List ℕ
  from_memory t = write_number 32 (length t.memory_index_map) ++ memory_bytes t

  abbrev from_env : TagIndexes → List ℕ
  from_env t = write_number 32 t.env_default ++ from_memory t

  abbrev from_csr_entries : TagIndexes → List ℕ
  from_csr_entries t = write_all (write_entry csrs) t.csr_index_map ++ from_env t

  abbrev from_csr_default : TagIndexes → List ℕ
  from_csr_default t = write_number 32 t.csr_default ++ from_csr_entries t

  abbrev from_csrs : TagIndexes → List ℕ
  from_csrs t = write_number 32 (length t.csr_index_map) ++ from_csr_default t

  abbrev from_register_entries : TagIndexes → List ℕ
  from_register_entries t = write_all (write_entry registers) t.register_index_map ++ from_csrs t

  abbrev from_register_default : TagIndexes → List ℕ
  from_register_default t = write_number 32 t.register_default ++ from_register_entries t

  abbrev from_registers : TagIndexes → List ℕ
  from_registers t = write_number 32 (length t.register_index_map) ++ from_register_default t

  abbrev from_metadata : TagIndexes → List ℕ
  from_metadata t = write_all write_metadata t.metadata_values ++ from_registers t

  abbrev pub index_bytes : TagIndexes → List ℕ
  index_bytes t = write_number 32 (length t.metadata_values) ++ from_metadata t

  header_bytes :
      (code_ranges : List Range) (data_ranges : List (Range × ℕ)) (is_64_bit : Bool) (rest : List ℕ)
      → length code_ranges < 2 ^ 32
      → All RangeFits code_ranges
      → length data_ranges < 2 ^ 32
      → All DataFits data_ranges
      → read_headers registers csrs (write_headers code_ranges data_ranges is_64_bit ++ rest)
        ≡ some ((if is_64_bit then 1 else 0, code_ranges, map first data_ranges), rest)
  unfolding read_headers write_headers
  header_bytes code_ranges data_ranges is_64_bit rest cl cf dl df =
      let flag = if is_64_bit then 1 else 0 in
      let ranges = write_all write_data_range data_ranges in
      let from_data = write_number 32 (length data_ranges) ++ ranges in
      let from_ranges = write_all write_range code_ranges ++ from_data in
      next (read_number 8) _ (write_number 8 flag)
        (write_number 32 (length code_ranges) ++ from_ranges) rest
        (λ more. read_number-write_number 8 flag more (flag_fits is_64_bit))
        (next (read_number 32) _ (write_number 32 (length code_ranges)) from_ranges rest
          (count_back _ cl)
          (next (read_many read_range (length code_ranges)) _ (write_all write_range code_ranges)
            from_data rest
            (λ more.
              read_many-write_all read_range write_range (λ x. x) RangeFits range_back code_ranges
                more cf)
            (next (read_number 32) _ (write_number 32 (length data_ranges)) ranges rest
              (count_back _ dl)
              (next-last (read_many read_data_range (length data_ranges)) _ ranges rest
                (λ more.
                  read_many-write_all read_data_range write_data_range first DataFits data_back
                    data_ranges more df)
                (ap (λ l. some ((flag, l, map first data_ranges), rest)) (map_same code_ranges))))))

  save_bytes :
      (t : TagIndexes)
      → Holdable registers csrs t
      → save_tag_indexes registers csrs t ≡ saved (index_bytes t)
  unfolding save_tag_indexes
  save_bytes t (values, memory, (rl, rk, rd), (cl, ck, cd), r, c, e) =
      rw
        (
          int32_number t.register_default r,
          int32_number t.csr_default c,
          int32_number t.env_default e,
        )
        (rw (write-Known registers t.register_index_map rk, write-Known csrs t.csr_index_map ck)
          refl)

  load_bytes :
      (t : TagIndexes) (rest : List ℕ)
      → Holdable registers csrs t
      → read_tag_indexes registers csrs (index_bytes t ++ rest)
        ≡ some (loaded_indexes registers csrs t, rest)
  unfolding read_tag_indexes
  load_bytes t rest ((vl, vf), (ml, mf, md), (rl, rk, rd), (cl, ck, cd), r, c, e) =
      next (read_number 32) _ (write_number 32 (length t.metadata_values)) (from_metadata t) rest
        (count_back _ vl)
        (next (read_many read_metadata (length t.metadata_values)) _
          (write_all write_metadata t.metadata_values) (from_registers t) rest
          (λ more.
            read_many-write_all read_metadata write_metadata (λ x. x) MetaFits metadata_back
              t.metadata_values more vf)
          (next (read_number 32) _ (write_number 32 (length t.register_index_map))
            (from_register_default t) rest (count_back _ rl)
            (next (read_number 32) _ (write_number 32 t.register_default) (from_register_entries t)
              rest (count_back _ (omega arith))
              (next (read_many (read_index registers) (length t.register_index_map)) _
                (write_all (write_entry registers) t.register_index_map) (from_csrs t) rest
                (λ more.
                  read_many-write_all (read_index registers) (write_entry registers)
                    (reread registers) (Known registers) (index_back registers) t.register_index_map
                    more rk)
                (next (read_number 32) _ (write_number 32 (length t.csr_index_map))
                  (from_csr_default t) rest (count_back _ cl)
                  (next (read_number 32) _ (write_number 32 t.csr_default) (from_csr_entries t) rest
                    (count_back _ (omega arith))
                    (next (read_many (read_index csrs) (length t.csr_index_map)) _
                      (write_all (write_entry csrs) t.csr_index_map) (from_env t) rest
                      (λ more.
                        read_many-write_all (read_index csrs) (write_entry csrs) (reread csrs)
                          (Known csrs) (index_back csrs) t.csr_index_map more ck)
                      (next (read_number 32) _ (write_number 32 t.env_default) (from_memory t) rest
                        (count_back _ (omega arith))
                        (next (read_number 32) _ (write_number 32 (length t.memory_index_map))
                          (memory_bytes t) rest (count_back _ ml)
                          (next-last (read_many read_memory_index (length t.memory_index_map)) _
                            (write_all write_memory_index t.memory_index_map) rest
                            (λ more.
                              read_many-write_all read_memory_index write_memory_index (λ x. x)
                                (λ e. RangeFits e.0 × (e.1 < 2 ^ 32)) memory_back t.memory_index_map
                                more mf)
                            (rw
                              (
                                map_same t.metadata_values,
                                map_same t.memory_index_map,
                                insert_entries-Distinct range_eq t.memory_index_map md,
                                insert_entries-Distinct name_eq
                                    (map (reread registers) t.register_index_map) rd,
                                insert_entries-Distinct name_eq (map (reread csrs) t.csr_index_map)
                                    cd,
                              )
                              refl)))))))))))

  -- Headers and indexes that a tag file can hold are written, and loaded as they were, whatever follows
  -- them: but each register and CSR gets the first name of its code, and the granularities are dropped.
  pub load-save :
      (code_ranges : List Range) (data_ranges : List (Range × ℕ)) (is_64_bit : Bool)
      (t : TagIndexes) (rest : List ℕ)
      → length code_ranges < 2 ^ 32
      → All RangeFits code_ranges
      → length data_ranges < 2 ^ 32
      → All DataFits data_ranges
      → Holdable registers csrs t
      → (save_tag_indexes registers csrs t ≡ saved (index_bytes t))
        × (load_firmware_tag_file registers csrs
              (write_headers code_ranges data_ranges is_64_bit ++ (index_bytes t ++ rest))
            ≡ some (record {
              is_64_bit = if is_64_bit then 1 else 0;
              code_ranges = code_ranges;
              data_ranges = map first data_ranges;
              indexes = loaded_indexes registers csrs t;
            }))
  unfolding load_firmware_tag_file
  load-save code_ranges data_ranges is_64_bit t rest cl cf dl df h = (
    save_bytes t h,
    some-bind _ (header_bytes code_ranges data_ranges is_64_bit (index_bytes t ++ rest) cl cf dl df)
        ∙ some-bind _ (load_bytes t rest h),
  )
