-- ===== src/Factory/Load.antt =====
-- The constructor of `metadata_factory_t`, validator/src/metadata_factory.cc, from the three documents
-- policy_init.yml, policy_meta.yml and policy_group.yml. `none` is an exception.
pub mod Numbers
pub mod Groups
use Prim.Native.String.{String, ◌++◌ as append}
use text.Mathlib.Text.{◌==◌ as str_eq}
use hope_policy_engine.Prelude.{
  ℕ, Bool, true, false, if◌then◌else◌, List, [], ◌∷◌, ◌++◌, Option, none, some,
}
use hope_policy_engine.RuleCache.Table.{Table, find, put}
use hope_policy_engine.Tagging.TagFile.Metadata.{Metadata, insert_meta}
use hope_policy_engine.Validator.Opgroup.{
  OperandRule, OperandRuleMatch, any, equal, not_equal, range, not_range,
}
use hope_policy_engine.Factory.{
  name_key, meta_key, EntityInit, OpgroupRule, Factory, put_sorted, encoding,
}
use hope_policy_engine.Factory.Names.{abbreviate}
use hope_policy_engine.Factory.Yaml.{
  Node, Items, Pairs, null, scalar, sequence, mapping, no_items, item, no_pairs, pair, as_text,
  as_number, field, field_as, items, pairs_of, ◌>>=◌,
}

-- the names of a list of metadata
unfoldable pub name_list : Items → Option (List String)
name_list no_items = some []
name_list (item m xs) = do
  name ← field_as as_text "name" m
  names ← name_list xs
  some (name ∷ names)

unfoldable pub join : String → String → String
join prefix key = if str_eq prefix "" then key else append prefix (append "." key)

-- `init_entity_initializers`, on a node and on the pairs of a mapping that are left
unfoldable mutual
  pub init_entities : Node → String → Table String EntityInit → Option (Table String EntityInit)
  init_entities (mapping pairs) prefix t = init_pairs pairs prefix t
  init_entities (sequence no_items) prefix t = some t
  init_entities (sequence (item node xs)) prefix t = none
  init_entities (scalar text number truth) prefix t = some t
  init_entities null prefix t = some t

  pub init_pairs : Pairs → String → Table String EntityInit → Option (Table String EntityInit)
  init_pairs no_pairs prefix t = some t
  init_pairs (pair key node pairs) prefix t = elim (str_eq key "metadata") [
    | true ↦ do
      xs ← items (some node)
      names ← name_list xs
      init_pairs pairs prefix
          (put_sorted prefix (record { entity_name = prefix; meta_names = names }) t)
    | false ↦ do t' ← init_entities node (join prefix key) t; init_pairs pairs prefix t'
  ]

unfoldable pub update_entities : Items → Table String EntityInit → Option (Table String EntityInit)
update_entities no_items t = some t
update_entities (item node xs) t = do
  name ← field_as as_text "name" node
  update_entities xs (put_sorted name (record { entity_name = name; meta_names = name ∷ [] }) t)

unfoldable pub init_encoding_map : Items → Factory → Option Factory
init_encoding_map no_items f = some f
init_encoding_map (item node xs) f = do
  name ← field_as as_text "name" node
  id ← field_as as_number "id" node
  init_encoding_map xs (record f {
    encoding_map = put name id f.encoding_map;
    reverse_encoding_map = put id name f.reverse_encoding_map;
    abbrev_reverse_encoding_map = put id (abbreviate name) f.abbrev_reverse_encoding_map;
  })

-- `operand_match_yaml_ids`
unfoldable pub operand_match_yaml_id : String → Option OperandRuleMatch
operand_match_yaml_id id =
    if str_eq id "match_all"
    then some any
    else if str_eq id "match_equal"
    then some equal
    else if str_eq id "match_not_equal"
    then some not_equal
    else if str_eq id "match_in_range"
    then some range
    else if str_eq id "match_not_in_range"
    then some not_range
    else none

unfoldable pub numbers : Items → Option (List ℕ)
numbers no_items = some []
numbers (item node xs) = do n ← as_number node; ns ← numbers xs; some (n ∷ ns)

-- the last key of a rule, and the values of all of its lists
unfoldable pub rule_values : Pairs → String → List ℕ → Option (String × List ℕ)
rule_values no_pairs id values = some (id, values)
rule_values (pair key node pairs) id values = do
  xs ← items (some node)
  ns ← numbers xs
  rule_values pairs key (values ++ ns)

-- A rule that is neither a scalar nor a mapping is passed over.
unfoldable pub read_rules : Items → Option (List OperandRule)
read_rules no_items = some []
read_rules (item (scalar text number truth) xs) = do
  rules ← read_rules xs
  some (record { values = []; match_kind = any } ∷ rules)
read_rules (item (mapping pairs) xs) = do
  r ← rule_values pairs "" []
  kind ← operand_match_yaml_id r.0
  rules ← read_rules xs
  some (record { values = r.1; match_kind = kind } ∷ rules)
read_rules (item _ xs) = read_rules xs

-- the last pair of a mapping, from some on
unfoldable pub last_pair : Pairs → String → Option Node → String × Option Node
last_pair no_pairs name value = (name, value)
last_pair (pair key next pairs) name value = last_pair pairs key (some next)

unfoldable pub update_rule_map : String → Pairs → Factory → Option Factory
update_rule_map key pairs f =
    let rule = last_pair pairs "" none in
    let code = encoding rule.0 f.encoding_map in
    do
      xs ← items rule.1
      rules ← read_rules xs
      some (record f {
        encoding_map = code.1;
        opgroup_rule_map =
            put key (record { metadata = code.0 ∷ []; operand_rules = rules }) f.opgroup_rule_map;
      })

-- the members of one group, with the metadata so far
unfoldable pub init_group : String → Items → Metadata → Factory → Option (Metadata × Factory)
init_group key no_items md f = some (md, f)
init_group key (item (scalar name number truth) xs) md f =
    let code = encoding name f.encoding_map in
    init_group key xs (insert_meta code.0 md) (record f { encoding_map = code.1 })
init_group key (item (mapping pairs) xs) md f = do
  f' ← update_rule_map key pairs f
  init_group key xs md f'
init_group key (item _ xs) md f = init_group key xs md f

unfoldable pub init_groups : Pairs → Factory → Option Factory
init_groups no_pairs f = some f
init_groups (pair key node pairs) f = do
  xs ← items (some node)
  r ← init_group key xs [] f
  init_groups pairs (record (r.1) { group_map = put key r.0 r.1.group_map })

abbrev pub empty_factory : Factory
empty_factory = record {
  reverse_encoding_map = [];
  abbrev_reverse_encoding_map = [];
  encoding_map = [];
  path_map = [];
  group_map = [];
  opgroup_rule_map = [];
  entity_initializers = [];
}

-- the constructor, on the documents in the order in which it reads them
unfoldable pub load : Node → Node → Node → Option Factory
load reqs meta group = do
  require ← field "Require" reqs
  entities ← (elim require [ none ↦ some [] | some node ↦ init_entities node "" [] ])
  metadata ← field "Metadata" meta
  xs ← items metadata
  entities' ← update_entities xs entities
  f ← init_encoding_map xs (record empty_factory { entity_initializers = entities' })
  groups ← field "Groups" group
  pairs ← pairs_of groups
  init_groups pairs f
