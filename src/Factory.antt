-- ===== src/Factory.antt =====
-- `metadata_factory_t` of validator/src/metadata_factory.cc and validator/include/metadata_factory.h: the
-- tags of the policy under their names. Its maps are association lists; that of the entities is kept in
-- the order of the names, as `std::map` is.
pub mod Names
pub mod Lookup
pub mod Apply
pub mod Opcodes
pub mod MetaSets
pub mod Yaml
pub mod Load
use Prim.Native.String.{String, compare}
use Prim.Native.Nat.{Ordering}
use text.Mathlib.Text.{◌==◌ as str_eq}
use text.Mathlib.TextEquality.{eq_iff}
use hope_policy_engine.Prelude.{
  ℕ, ◌==◌, ==_iff, Bool, true, false, if◌then◌else◌, List, [], ◌∷◌, Option, none, some,
}
use hope_policy_engine.Isa.{DecodedInstruction}
use hope_policy_engine.RuleCache.Table.{Eq, Table, find, put}
use hope_policy_engine.Tagging.TagFile.Metadata.{Metadata, insert_meta}
use hope_policy_engine.Tagging.MemoryMap.{MemRegion, map_add_range}
use hope_policy_engine.Tagging.RangeMap.{TaggedRange, RangeMap}
use hope_policy_engine.Validator.Opgroup.{OperandRule, matches}
use Names.{last_occurrence}

instance abbrev pub name_key : Eq String
name_key = record { beq = str_eq; beq_iff = eq_iff }

instance abbrev pub meta_key : Eq ℕ
meta_key = record { beq = ◌==◌; beq_iff = ==_iff }

pub record EntityInit : Type 0 where
  pub entity_name : String
  pub meta_names : List String

pub record OpgroupRule : Type 0 where
  pub metadata : Metadata
  pub operand_rules : List OperandRule

pub record Factory : Type 0 where
  pub reverse_encoding_map : Table ℕ String
  pub abbrev_reverse_encoding_map : Table ℕ String
  pub encoding_map : Table String ℕ
  pub path_map : Table String Metadata
  pub group_map : Table String Metadata
  pub opgroup_rule_map : Table String OpgroupRule
  pub entity_initializers : Table String EntityInit

-- `entity_initializers[name] = init`
unfoldable pub put_sorted : {V : Type 0} → String → V → Table String V → Table String V
put_sorted k v [] = (k, v) ∷ []
put_sorted k v ((j, w) ∷ t) =
    let rest = put_sorted k v t in
    elim (compare k j) [
      | Ordering.lt ↦ (k, v) ∷ (j, w) ∷ t
      | Ordering.eq ↦ (j, v) ∷ t
      | Ordering.gt ↦ (j, w) ∷ rest
    ]

-- `encoding_map[name]`, which enters 0 under a name that is not there
unfoldable pub encoding : String → Table String ℕ → ℕ × Table String ℕ
encoding name map = elim (find name map) [ none ↦ (0, put name 0 map) | some v ↦ (v, map) ]

-- the loop over the names of an entity
unfoldable pub encode : List String → Table String ℕ → Metadata → Metadata × Table String ℕ
encode [] map md = (md, map)
encode (name ∷ names) map md = let r = encoding name map in encode names r.1 (insert_meta r.0 md)

unfoldable pub lookup_metadata : String → Factory → Option Metadata × Factory
lookup_metadata path f = elim (find path f.path_map) [
  | some md ↦ (some md, f)
  | none ↦ elim (find path f.entity_initializers) [
    | none ↦ (none, f)
    | some init ↦
        let r = encode init.meta_names f.encoding_map [] in
        (some r.0, record f { encoding_map = r.1; path_map = put path r.0 f.path_map })
  ]
]

-- `name.rfind(dotted_path) == 0`: the last occurrence is the one at the front.
unfoldable pub is_under : String → String → Bool
is_under path name = elim (last_occurrence path name) [ none ↦ false | some i ↦ i == 0 ]

-- the loop over the entities that are left
unfoldable pub lookup_under :
    String → Table String EntityInit → Factory → Table String (Option Metadata) × Factory
lookup_under path [] f = ([], f)
lookup_under path ((name, init) ∷ rest) f = elim (is_under path name) [
  | false ↦ lookup_under path rest f
  | true ↦
      let here = lookup_metadata name f in
      let after = lookup_under path rest here.1 in ((name, here.0) ∷ after.0, after.1)
]

unfoldable pub lookup_metadata_map : String → Factory → Table String (Option Metadata) × Factory
lookup_metadata_map path f = lookup_under path f.entity_initializers f

-- The outer `none` is a rule on a range without values, whose `front` has no meaning.
unfoldable pub lookup_group_metadata :
    String → DecodedInstruction → Factory → Option (Option Metadata)
lookup_group_metadata opgroup inst f = elim (find opgroup f.opgroup_rule_map) [
  | none ↦ some (find opgroup f.group_map)
  | some rule ↦ elim (matches inst rule.operand_rules) [
    | none ↦ none
    | some b ↦ some (if b then some rule.metadata else find opgroup f.group_map)
  ]
]

unfoldable pub names_of : Table String EntityInit → List String
names_of [] = []
names_of ((name, init) ∷ rest) = name ∷ names_of rest

unfoldable pub enumerate : Factory → List String
enumerate f = names_of f.entity_initializers

-- the text of a tag, or "<unknown: ...>" with its number
pub data Rendered : Type 0 where
  named : String → Rendered
  unknown : ℕ → Rendered

unfoldable pub render : ℕ → Bool → Factory → Rendered
render meta abbreviated f =
    elim (find meta
      (if abbreviated then f.abbrev_reverse_encoding_map else f.reverse_encoding_map)) [
        | none ↦ unknown meta
        | some name ↦ named name
      ]

-- What leaves a call of the factory early: `std::out_of_range` of `apply_tags` with the tag, a failed
-- assertion of the map, and `std::invalid_argument` of the decoder; then a read past the end of the code,
-- and a rule on a range without values. `unfinished` is a loop of the model that had too few turns.
pub data Stop : Type 0 where
  no_tag : String → Stop
  map_failed bad_xlen past_end no_values unfinished : Stop

pub data Result (A : Type 0) : Type 0 where
  ok : A → Result A
  stop : Stop → Result A

infixl 5 ◌>>=◌
abbrev pub ◌>>=◌ : {A B : Type 0} → Result A → (A → Result B) → Result B
ok a >>= f = f a
stop e >>= f = stop e

-- `map.add_range(start, end, md)`
unfoldable pub add_to_map : ℕ → ℕ → Metadata → List MemRegion → Result (List MemRegion)
add_to_map start end md map = elim (map_add_range start end md map) [
  | none ↦ stop map_failed
  | some map' ↦ ok map'
]

-- with the result of the call, and the map and the factory as it leaves them
unfoldable pub apply_tag :
    List MemRegion → ℕ → ℕ → String → Factory → Result (Bool × List MemRegion × Factory)
apply_tag map start end tag f =
    let r = lookup_metadata tag f in
    elim r.0 [
      | none ↦ ok (false, map, r.1)
      | some md ↦ do map' ← add_to_map start end md map; ok (true, map', r.1)
    ]

-- the tags of one range
unfoldable pub apply_names :
    List MemRegion → ℕ → ℕ → List String → Factory → Result (List MemRegion × Factory)
apply_names map start end [] f = ok (map, f)
apply_names map start end (tag ∷ tags) f = do
  r ← apply_tag map start end tag f
  if r.0 then apply_names r.1 start end tags r.2 else stop (no_tag tag)

unfoldable pub apply_tags : List MemRegion → RangeMap → Factory → Result (List MemRegion × Factory)
apply_tags map [] f = ok (map, f)
apply_tags map (tagged ∷ ranges) f = do
  r ← apply_names map tagged.range.start tagged.range.end tagged.tags f
  apply_tags r.0 ranges r.1
