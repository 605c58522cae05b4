-- ===== src/Factory/Lookup.antt =====
-- `lookup_metadata` of validator/src/metadata_factory.cc keeps what it finds in `path_map`; that is not
-- seen.
use Prim.Native.String.{String}
use text.Mathlib.TextEquality.{eq_iff}
use text.Mathlib.Text.{◌==◌ as str_eq}
use hope_policy_engine.Prelude.{
  ℕ, ◌≡◌, ◌∙◌, refl, sym, ap, List, [], ◌∷◌, Option, none, some, Option-cases, Bool-cases, inl, inr,
  arith,
}
use hope_policy_engine.RuleCache.Table.{Table, find, put, find-put}
use hope_policy_engine.Tagging.TagFile.Metadata.{Metadata, insert_meta, insert_all}
use hope_policy_engine.Factory.{name_key, EntityInit, Factory, encoding, encode, lookup_metadata}

-- the number of a name, 0 where it has none
unfoldable pub code_of : Table String ℕ → String → ℕ
code_of map name = elim (find name map) [ none ↦ 0 | some v ↦ v ]

unfoldable pub codes_of : Table String ℕ → List String → List ℕ
codes_of map [] = []
codes_of map (name ∷ names) = code_of map name ∷ codes_of map names

-- What a name stands for: the numbers of the names of its entity, if it is one.
unfoldable pub meaning : Factory → String → Option Metadata
meaning f path = elim (find path f.entity_initializers) [
  | none ↦ none
  | some init ↦ some (insert_all (codes_of f.encoding_map init.meta_names) [])
]

-- `path_map` has what the names stand for.
abbrev pub Agrees : Factory → Type 0
Agrees f =
    (path : String) (md : Metadata) → find path f.path_map ≡ some md → meaning f path ≡ some md

-- the same numbers for all names
abbrev pub SameCodes : Table String ℕ → Table String ℕ → Type 0
SameCodes map map' = (name : String) → code_of map' name ≡ code_of map name

pub encoding_lem :
    (name : String) (map : Table String ℕ)
    → ((encoding name map).0 ≡ code_of map name) × SameCodes map (encoding name map).1
unfolding encoding code_of
encoding_lem name map = elim (Option-cases (find name map)) [
  | inr (v, found) ↦ (ground arith, λ n. ground arith)
  | inl absent ↦ (ground arith, λ n. ground (arith, find-put name n 0 map, eq_iff n name))
]

codes_of-same :
    (map map' : Table String ℕ) (names : List String)
    → SameCodes map map'
    → codes_of map' names ≡ codes_of map names
unfolding codes_of
codes_of-same map map' [] same = refl
codes_of-same map map' (name ∷ names) same = cc (same name, codes_of-same map map' names same)

-- The numbers of an entity's names are gathered, and no name gets another number.
encode_lem :
    (names : List String) (map : Table String ℕ) (md : Metadata)
    → ((encode names map md).0 ≡ insert_all (codes_of map names) md)
      × SameCodes map (encode names map md).1
unfolding encode codes_of insert_all
encode_lem [] map md = (refl, λ n. refl)
encode_lem (name ∷ names) map md =
    let (value, same) = encoding_lem name map in
    let (numbers, same') =
      encode_lem names (encoding name map).1 (insert_meta (encoding name map).0 md) in
    (
      numbers
          ∙ ap (λ cs. insert_all cs (insert_meta (encoding name map).0 md))
              (codes_of-same map (encoding name map).1 names same)
          ∙ ap (λ v. insert_all (codes_of map names) (insert_meta v md)) value,
      λ n. same' n ∙ same n,
    )

-- Other numbers change no meaning where they are the same for all names.
meaning-same :
    (f : Factory) (map : Table String ℕ) (paths : Table String Metadata) (path : String)
    → SameCodes f.encoding_map map
    → meaning (record f { encoding_map = map; path_map = paths }) path ≡ meaning f path
unfolding meaning
meaning-same f map paths path same = elim (Option-cases (find path f.entity_initializers)) [
  | inl absent ↦ ground arith
  | inr (init, found) ↦ ground (arith, codes_of-same f.encoding_map map init.meta_names same)
]

-- A lookup gives what the name stands for, `path_map` still has what the names stand for, and no name
-- stands for anything else.
abbrev pub Faithful : Factory → String → Option Metadata × Factory → Type 0
Faithful f path r =
    (r.0 ≡ meaning f path) × Agrees r.1 × ((q : String) → meaning r.1 q ≡ meaning f q)

fresh_lem :
    (path : String) (init : EntityInit) (f : Factory)
    → Agrees f
    → find path f.entity_initializers ≡ some init
    → let r = encode init.meta_names f.encoding_map [] in
      Faithful f path
        (some r.0, record f { encoding_map = r.1; path_map = put path r.0 f.path_map })
fresh_lem path init f agrees found =
    let r = encode init.meta_names f.encoding_map [] in
    let (value, same) = encode_lem init.meta_names f.encoding_map [] in
    let f' : Factory = record f { encoding_map = r.1; path_map = put path r.0 f.path_map } in
    let kept : (q : String) → meaning f' q ≡ meaning f q =
      λ q. meaning-same f r.1 (put path r.0 f.path_map) q same in
    let here : meaning f path ≡ some r.0 = unfold meaning in ground arith in
    (
      sym here,
      λ q md e. elim (Bool-cases (str_eq q path)) [
        | inl named ↦
            let q≡path : q ≡ path = (eq_iff q path).0 named in
            let md_lem : r.0 ≡ md = ground (arith, find-put path q r.0 f.path_map) in
            kept q ∙ ap (meaning f) q≡path ∙ here ∙ ap some md_lem
        | inr other ↦ kept q ∙ agrees q md (ground (arith, find-put path q r.0 f.path_map))
      ],
      kept,
    )

-- With a `path_map` that has what the names stand for, as an empty one has, a lookup gives the numbers
-- that the name's entity has under the names of its metadata, and nothing for another name. Whatever it
-- enters into the maps, later lookups give the same as without it.
pub lookup_metadata-Faithful :
    (path : String) (f : Factory) → Agrees f → Faithful f path (lookup_metadata path f)
unfolding lookup_metadata
lookup_metadata-Faithful path f agrees = elim (Option-cases (find path f.path_map)) [
  | inr (md, known) ↦ rw (known, lookup_metadata) (sym (agrees path md known), agrees, λ q. refl)
  | inl unknown ↦ elim (Option-cases (find path f.entity_initializers)) [
    | inl absent ↦
        let nothing : meaning f path ≡ none = unfold meaning in ground arith in
        rw (unknown, lookup_metadata)
          (rw (absent, lookup_metadata) (sym nothing, agrees, λ q. refl))
    | inr (init, found) ↦
        rw (unknown, lookup_metadata)
          (rw (found, lookup_metadata) (fresh_lem path init f agrees found))
  ]
]
