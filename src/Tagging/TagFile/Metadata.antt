-- ===== src/Tagging/TagFile/Metadata.antt =====
-- `metadata_t` of validator/include/metadata.h, without its hash: a set of numbers in increasing order.
use hope_policy_engine.Prelude.{ℕ, ◌==◌, ltb, if◌then◌else◌, List, [], ◌∷◌}

abbrev pub Metadata : Type 0
Metadata = List ℕ

unfoldable pub insert_meta : ℕ → Metadata → Metadata
insert_meta m [] = m ∷ []
insert_meta m (x ∷ xs) =
    let rest = insert_meta m xs in
    if ltb m x then m ∷ x ∷ xs else if m == x then x ∷ xs else x ∷ rest

-- the metadata with each of some tags inserted
unfoldable pub insert_all : List ℕ → Metadata → Metadata
insert_all [] md = md
insert_all (m ∷ ms) md = insert_all ms (insert_meta m md)
