-- ===== src/Tests/Factory.antt =====
-- A policy with a tag for the registers, one for the CSRs and one for the environment.
use hope_policy_engine.Prelude.{ℕ, ◌≡◌, none, some, ◌+◌, refl, inl, List, [], ◌∷◌, length, arith}
use hope_policy_engine.RuleCache.Table.{find, put}
use hope_policy_engine.Tagging.RangeMap.{RangeMap}
use hope_policy_engine.Factory.{
  name_key, meta_key, put_sorted, encoding, Factory, lookup_metadata, apply_tags,
}
use hope_policy_engine.Validator.Opgroup.{any, equal}
use hope_policy_engine.Factory.Yaml.{
  Node, Items, scalar, sequence, mapping, no_items, item, no_pairs, pair,
}
use hope_policy_engine.Factory.Load.{
  load, init_entities, name_list, update_entities, init_encoding_map, init_groups, init_group,
  update_rule_map, last_pair, read_rules, rule_values, numbers, operand_match_yaml_id, join,
  empty_factory,
}
use hope_policy_engine.Factory.Load.Numbers.{number_of}
use hope_policy_engine.Factory.Load.Groups.{lookup_metadata-load}
use Prim.Native.String.{String}
use hope_policy_engine.Factory.Lookup.{meaning, Agrees, Faithful, lookup_metadata-Faithful}
use hope_policy_engine.Factory.Apply.{SameNames, Follows, add_ranges, apply_tags-Follows}
use hope_policy_engine.Factory.Opcodes.{tag_opcodes}
use hope_policy_engine.Factory.Opcodes.Ranges.{Ends}
use hope_policy_engine.Factory.Opcodes.Loop.{Tags}
use hope_policy_engine.Factory.Opcodes.Tagged.{tagged_ranges, tag_opcodes-Tags}
use hope_policy_engine.Factory.MetaSets.{initial_tags, Named, initial_tags-Named}
use hope_policy_engine.Tests.Demo.{demo}

abbrev pub factory : Factory
factory = record {
  reverse_encoding_map = [];
  abbrev_reverse_encoding_map = [];
  encoding_map = ("osv.plain", 3) ∷ ("osv.csr", 4) ∷ [];
  path_map = [];
  group_map = ("add", 3 ∷ []) ∷ [];
  opgroup_rule_map = [];
  entity_initializers =
      (
        "ISA.RISCV.CSR.Default",
        record { entity_name = "ISA.RISCV.CSR.Default"; meta_names = "osv.csr" ∷ [] },
      )
      ∷ (
        "ISA.RISCV.Reg.Default",
        record { entity_name = "ISA.RISCV.Reg.Default"; meta_names = "osv.plain" ∷ [] },
      )
      ∷ (
        "ISA.RISCV.Reg.Env",
        record { entity_name = "ISA.RISCV.Reg.Env"; meta_names = "osv.plain" ∷ "osv.csr" ∷ [] },
      )
      ∷ [];
}

pub factory-Agrees : Agrees factory
unfolding find
factory-Agrees path md e = absurd (cc e)

lookup_metadata-Faithful_example :
    Faithful factory "ISA.RISCV.Reg.Env" (lookup_metadata "ISA.RISCV.Reg.Env" factory)
lookup_metadata-Faithful_example =
    lookup_metadata-Faithful "ISA.RISCV.Reg.Env" factory factory-Agrees

abbrev tagged : RangeMap
tagged =
    record {
      range = record { start = 16; end = 32 };
      tags = "ISA.RISCV.Reg.Default" ∷ "ISA.RISCV.CSR.Default" ∷ [];
    }
    ∷ []

apply_tags-Follows_example :
    Follows factory (apply_tags [] tagged factory) (add_ranges (meaning factory) tagged [])
apply_tags-Follows_example = apply_tags-Follows factory [] tagged factory-Agrees

-- `add x1, x2, x3`, twice
abbrev code : List ℕ
code = 0xb3 ∷ 0 ∷ 0x31 ∷ 0 ∷ 0xb3 ∷ 0 ∷ 0x31 ∷ 0 ∷ []

tag_opcodes-Tags_example :
    Ends (λ map'. Unit) (tag_opcodes [] 64 32 code factory)
    × Ends
        (Tags 64 (64 + length code) (λ m. tag_opcodes m 64 32 code factory))
        (tagged_ranges (length code) factory 64 32 0 code)
tag_opcodes-Tags_example = tag_opcodes-Tags [] 64 32 code factory (inl refl) (omega arith)

initial_tags-Named_example :
    Named demo ◌+◌ factory (initial_tags demo ◌+◌ factory []).2 (initial_tags demo ◌+◌ factory []).0
    × SameNames factory (initial_tags demo ◌+◌ factory []).1
initial_tags-Named_example = initial_tags-Named demo ◌+◌ factory [] factory-Agrees

-- documents with one entity, three names for metadata and two groups
abbrev text : String → Node
text t = scalar t none none

abbrev number : String → ℕ → Node
number t n = scalar t (some n) none

abbrev meta_of : String → String → ℕ → Node
meta_of name t id = mapping (pair "name" (text name) (pair "id" (number t id) no_pairs))

abbrev policy_init : Node
policy_init = mapping (
    pair "Require"
      (mapping (
        pair "ISA"
          (mapping (
            pair "metadata"
              (sequence (item (mapping (pair "name" (text "osv.csr") no_pairs)) no_items))
              no_pairs))
          no_pairs))
      no_pairs)

abbrev metadata : Items
metadata =
    item (meta_of "osv.plain" "3" 3)
      (item (meta_of "osv.csr" "4" 4) (item (meta_of "osv.plain" "5" 5) no_items))

abbrev policy_group : Node
policy_group = mapping (
    pair "Groups"
      (mapping (
        pair "add" (sequence (item (text "osv.plain") no_items)) (
          pair "jalr"
            (sequence (
              item
                (mapping (
                  pair "osv.call"
                    (sequence (
                      item (text "any") (
                        item
                          (mapping
                            (pair "match_equal" (sequence (item (number "1" 1) no_items)) no_pairs))
                          no_items)))
                    no_pairs))
                no_items))
            no_pairs)))
      no_pairs)

abbrev policy_meta : Node
policy_meta = mapping (pair "Metadata" (sequence metadata) no_pairs)

abbrev loaded : Factory
loaded = elim (load policy_init policy_meta policy_group) [ none ↦ empty_factory | some f ↦ f ]

loaded_lem : load policy_init policy_meta policy_group ≡ some loaded
unfolding load init_entities name_list update_entities init_encoding_map init_groups init_group
    update_rule_map last_pair read_rules rule_values numbers operand_match_yaml_id
loaded_lem = refl

numbered_lem : number_of "osv.plain" metadata ≡ some 5
unfolding number_of
numbered_lem = refl

lookup_metadata-load_example :
    ((lookup_metadata "osv.plain" loaded).0 ≡ some (5 ∷ [])) × Agrees loaded
lookup_metadata-load_example =
    lookup_metadata-load policy_init policy_meta policy_group loaded metadata "osv.plain" 5
      loaded_lem refl numbered_lem

-- `jalr` with 1 in its only operand is `osv.call`.
group_loaded :
    find "jalr" loaded.opgroup_rule_map
    ≡ some (record {
      metadata = 0 ∷ [];
      operand_rules =
          record { values = []; match_kind = any }
          ∷ record { values = 1 ∷ []; match_kind = equal }
          ∷ [];
    })
unfolding load init_entities name_list update_entities init_encoding_map init_groups init_group
    update_rule_map last_pair read_rules rule_values numbers operand_match_yaml_id find join put
    put_sorted encoding
group_loaded = refl
