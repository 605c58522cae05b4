-- ===== src/Tests/IndexMap.antt =====
-- A map from three keys, two of which have the same metadata.
use hope_policy_engine.Prelude.{ℕ, ◌≡◌, List, [], ◌∷◌}
use hope_policy_engine.Tagging.TagFile.Metadata.{Metadata}
use hope_policy_engine.Tagging.IndexMap.{index_map, looked_up, present, index_map_lem}

abbrev entries : List (ℕ × Metadata)
entries = (1, 5 ∷ []) ∷ (2, 6 ∷ 7 ∷ []) ∷ (3, 5 ∷ []) ∷ []

index_map_lem_example :
    looked_up (index_map entries ((6 ∷ 7 ∷ []) ∷ [])).1 (index_map entries ((6 ∷ 7 ∷ []) ∷ [])).0
    ≡ present entries
index_map_lem_example = index_map_lem entries ((6 ∷ 7 ∷ []) ∷ [])
