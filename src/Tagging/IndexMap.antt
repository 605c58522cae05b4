-- ===== src/Tagging/IndexMap.antt =====
-- `metadata_index_map_t` of tagging_tools/metadata_index_map.h: the constructors that give each key of a map
-- the index of its metadata in a list. A map is the list of its entries in the order of iteration.
use hope_policy_engine.Prelude.{
  ℕ, zero, suc, ◌≡◌, ◌∙◌, refl, ap, ◌==◌, Bool, true, false, ◌&&◌, Bool-cases, inl, inr,
  if◌then◌else◌, List, [], ◌∷◌, ◌++◌, Option, some, length, get_elem?, arith,
}
use hope_policy_engine.Tagging.TagFile.Metadata.{Metadata}

unfoldable pub metadata_eq : Metadata → Metadata → Bool
metadata_eq [] [] = true
metadata_eq [] (n ∷ b) = false
metadata_eq (m ∷ a) [] = false
metadata_eq (m ∷ a) (n ∷ b) = m == n && metadata_eq a b

-- `std::distance(metadata.begin(), it)`, which is the length if nothing was found
unfoldable pub index_of : Metadata → List Metadata → ℕ
index_of value [] = 0
index_of value (v ∷ metadata) = if metadata_eq v value then 0 else suc (index_of value metadata)

-- `metadata` after one turn of the loop
unfoldable pub with_value : Metadata → List Metadata → List Metadata
with_value value metadata =
    if index_of value metadata == length metadata then metadata ++ value ∷ [] else metadata

module _ {K : Type 0} where
  -- the map from keys to indexes, and `metadata`, from its initial contents on
  unfoldable pub index_map : List (K × Metadata) → List Metadata → List (K × ℕ) × List Metadata
  index_map [] metadata = ([], metadata)
  index_map ((key, value) ∷ entries) metadata =
      let rest = index_map entries (with_value value metadata) in
      ((key, index_of value metadata) ∷ rest.0, rest.1)

pub metadata_eq_lem : (a b : Metadata) → metadata_eq a b ≡ true → a ≡ b
unfolding metadata_eq
metadata_eq_lem [] [] e = refl
metadata_eq_lem [] (n ∷ b) e = absurd (ground arith)
metadata_eq_lem (m ∷ a) [] e = absurd (ground arith)
metadata_eq_lem (m ∷ a) (n ∷ b) e =
    let head : m ≡ n = ground arith in
    let tail : a ≡ b = metadata_eq_lem a b (ground arith) in rw (head, tail) refl

get_elem?-append :
    (xs : List Metadata) (y : Metadata) (i : ℕ) {x : Metadata}
    → get_elem? xs i ≡ some x
    → get_elem? (xs ++ y ∷ []) i ≡ some x
get_elem?-append [] y i e = absurd (ground arith)
get_elem?-append (x ∷ xs) y zero e = e
get_elem?-append (x ∷ xs) y (suc i) e = get_elem?-append xs y i e

get_elem?-last : (xs : List Metadata) (y : Metadata) → get_elem? (xs ++ y ∷ []) (length xs) ≡ some y
get_elem?-last [] y = refl
get_elem?-last (x ∷ xs) y = get_elem?-last xs y

index-found :
    (value : Metadata) (metadata : List Metadata)
    → (index_of value metadata == length metadata) ≡ false
    → get_elem? metadata (index_of value metadata) ≡ some value
unfolding index_of
index-found value [] e = absurd (ground arith)
index-found value (v ∷ metadata) e = elim (Bool-cases (metadata_eq v value)) [
  | inl same ↦ rw (same) (ap some (metadata_eq_lem v value same))
  | inr other ↦ rw (other) (index-found value metadata (ground arith))
]

with_value-at :
    (value : Metadata) (metadata : List Metadata)
    → get_elem? (with_value value metadata) (index_of value metadata) ≡ some value
unfolding with_value
with_value-at value metadata = elim (Bool-cases (index_of value metadata == length metadata)) [
  | inl new ↦
      let last : index_of value metadata ≡ length metadata = ground arith in
      rw (new) (ap (λ i. get_elem? (metadata ++ value ∷ []) i) last ∙ get_elem?-last metadata value)
  | inr old ↦ rw (old) (index-found value metadata old)
]

with_value-keeps :
    (value : Metadata) (metadata : List Metadata) (i : ℕ) {x : Metadata}
    → get_elem? metadata i ≡ some x
    → get_elem? (with_value value metadata) i ≡ some x
unfolding with_value
with_value-keeps value metadata i e =
    elim (Bool-cases (index_of value metadata == length metadata)) [
      | inl new ↦ rw (new) (get_elem?-append metadata value i e)
      | inr old ↦ rw (old) e
    ]

module _ {K : Type 0} where
  index_map-keeps :
      (entries : List (K × Metadata)) (metadata : List Metadata) (i : ℕ) {x : Metadata}
      → get_elem? metadata i ≡ some x
      → get_elem? (index_map entries metadata).1 i ≡ some x
  unfolding index_map
  index_map-keeps [] metadata i e = e
  index_map-keeps ((key, value) ∷ entries) metadata i e =
      index_map-keeps entries (with_value value metadata) i (with_value-keeps value metadata i e)

  -- The entries with the metadata at their indexes.
  unfoldable pub looked_up : List Metadata → List (K × ℕ) → List (K × Option Metadata)
  looked_up metadata [] = []
  looked_up metadata ((key, index) ∷ entries) =
      (key, get_elem? metadata index) ∷ looked_up metadata entries

  unfoldable pub present : List (K × Metadata) → List (K × Option Metadata)
  present [] = []
  present ((key, value) ∷ entries) = (key, some value) ∷ present entries

  -- Each key of the map has the index at which the resulting list has its metadata, whatever the list held
  -- before.
  pub index_map_lem :
      (entries : List (K × Metadata)) (metadata : List Metadata)
      → looked_up (index_map entries metadata).1 (index_map entries metadata).0 ≡ present entries
  unfolding index_map looked_up present
  index_map_lem [] metadata = refl
  index_map_lem ((key, value) ∷ entries) metadata =
      let kept =
        index_map-keeps entries (with_value value metadata) (index_of value metadata)
          (with_value-at value metadata) in
      rw (kept, index_map_lem entries (with_value value metadata)) refl
