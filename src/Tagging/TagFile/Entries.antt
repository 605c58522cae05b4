-- ===== src/Tagging/TagFile/Entries.antt =====
-- The entries of registers and CSRs of tagging_tools/tag_file.cc, saved and loaded.
use hope_policy_engine.Prelude.{
  ℕ, ◌^◌, ◌<◌, ◌≡◌, ◌∙◌, refl, sym, ap, ◌==◌, Bool-cases, inl, inr, List, [], ◌∷◌, ◌++◌, none, some,
  All, arith,
}
use hope_policy_engine.Tagging.TagFile.Write.{saved, write_number, write_all}
use hope_policy_engine.Tagging.TagFile.Read.{read_number}
use hope_policy_engine.Tagging.TagFile.Names.{Name, NameMap, after_last_dot, value_of, name_of}
use hope_policy_engine.Tagging.TagFile.Save.{write_indexes}
use hope_policy_engine.Tagging.TagFile.Load.{read_index}
use hope_policy_engine.Tagging.TagFile.Sequences.{some-bind, read_number-write_number}
use hope_policy_engine.Tagging.TagFile.Int32.{saved-bind}
use hope_policy_engine.Tagging.TagFile.RoundTrip.{next, next-last}

-- the code of a name, or 0
abbrev code : NameMap → Name → ℕ
code table name = elim (value_of (after_last_dot name) table) [ none ↦ 0 | some v ↦ v ]

-- The name that stands first in the table with a value.
abbrev first_name : NameMap → ℕ → Name
first_name table value = elim (name_of value table) [ none ↦ [] | some name ↦ name ]

-- An entry as it is loaded: the first name of its code stands for its name.
abbrev pub reread : NameMap → Name × ℕ → Name × ℕ
reread table (name, index) = (first_name table (code table name), index)

-- The part of the name after its last dot is in the table, and the numbers have 32 bits.
abbrev pub Known : NameMap → Name × ℕ → Type 0
Known table (name, index) =
    (value : ℕ) × (value_of (after_last_dot name) table ≡ some value)
    × (value < 2 ^ 32)
    × (index < 2 ^ 32)

abbrev pub write_entry : NameMap → Name × ℕ → List ℕ
write_entry table (name, index) = write_number 32 (code table name) ++ write_number 32 index

-- A value that a name has is found.
name_of-value_of :
    (name : Name) (table : NameMap) (value : ℕ)
    → value_of name table ≡ some value
    → name_of value table ≡ some (first_name table value)
unfolding value_of name_of
name_of-value_of name [] value e = absurd (ground arith)
name_of-value_of name ((key, v) ∷ table) value e = elim (Bool-cases (v == value)) [
  | inl same ↦ rw (same, first_name) refl
  | inr other ↦
      let tail : value_of name table ≡ some value = ground arith in
      rw (other, first_name) (name_of-value_of name table value tail)
]

pub index_back :
    (table : NameMap) (e : Name × ℕ) (rest : List ℕ)
    → Known table e
    → read_index table (write_entry table e ++ rest) ≡ some (reread table e, rest)
unfolding read_index
index_back table (name, index) rest (value, v, l, i) =
    let c : code table name ≡ value = rw (v, code) refl in
    next (read_number 32) _ (write_number 32 (code table name)) (write_number 32 index) rest
      (λ more. read_number-write_number 32 (code table name) more (rw (c) l))
      (next-last (read_number 32) _ (write_number 32 index) rest
        (λ more. read_number-write_number 32 index more i)
        (some-bind _ (
          ap (λ x. name_of x table) c
          ∙ name_of-value_of (after_last_dot name) table value v
          ∙ ap (λ x. some (first_name table x)) (sym c))))

write_one :
    (table : NameMap) (name : Name) (index : ℕ) (entries : List (Name × ℕ)) (value : ℕ)
    {rest : List ℕ}
    → value_of (after_last_dot name) table ≡ some value
    → write_indexes table entries ≡ saved rest
    → write_indexes table ((name, index) ∷ entries)
      ≡ saved (write_number 32 value ++ write_number 32 index ++ rest)
unfolding write_indexes
write_one table name index entries value v e = rw (v, write_indexes) (saved-bind _ e)

-- Known names are written.
pub write-Known :
    (table : NameMap) (entries : List (Name × ℕ))
    → All (Known table) entries
    → write_indexes table entries ≡ saved (write_all (write_entry table) entries)
unfolding write_indexes write_all
write-Known table [] k = refl
write-Known table ((name, index) ∷ entries) ((value, v, l, i), k) =
    let ih = write-Known table entries k in
    let same : code table name ≡ value = rw (v, code) refl in
    write_one table name index entries value v ih
    ∙ ap
        (λ c.
          saved
            (write_number 32 c ++ write_number 32 index ++ write_all (write_entry table) entries))
        (sym same)
