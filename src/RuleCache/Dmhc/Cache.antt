-- ===== src/RuleCache/Dmhc/Cache.antt =====
-- `dmhc_rule_cache_t`, validator/rule_cache/dmhc_rule_cache/dmhc_rule_cache.h and dmhc_rule_cache.cc.
use hope_policy_engine.Prelude.{ℕ, true, not, ◌==◌, Option, none, some, List}
use hope_policy_engine.Isa.{Operands, Results, bad_tag_value}
use hope_policy_engine.RuleCache.Run.{Run, ok, ◌>>=◌}
use hope_policy_engine.RuleCache.Dmhc.State.{Dmhc, Consider, reset}
use hope_policy_engine.RuleCache.Dmhc.Lookup.{lookup}
use hope_policy_engine.RuleCache.Dmhc.Insert.{insert}

pub record DmhcRuleCache : Type 0 where
  pub ops_copy : Operands
  pub res_copy : Results
  pub consider : Consider
  pub the_rule_cache : Dmhc

-- The program counter and the code count always, the other operands where they have a tag.
unfoldable pub considered : Operands → Consider
considered ops = record {
  pc = true;
  ci = true;
  op1 = not (ops.op1 == bad_tag_value);
  op2 = not (ops.op2 == bad_tag_value);
  op3 = not (ops.op3 == bad_tag_value);
  mem = not (ops.mem == bad_tag_value);
}

unfoldable pub flush : DmhcRuleCache → DmhcRuleCache
flush cache = record cache { the_rule_cache = reset cache.the_rule_cache }

module _ (hasher : Operands → List ℕ) where
  -- `ops` is not used: the rule goes to the operands of the last `allow`.
  unfoldable pub install_rule : Operands → Results → DmhcRuleCache → Run DmhcRuleCache
  install_rule ops res cache = do
    d ← insert hasher cache.ops_copy res cache.consider cache.the_rule_cache
    ok (record cache { res_copy = res; the_rule_cache = d })

  unfoldable pub allow : Operands → DmhcRuleCache → Run (Option Results × DmhcRuleCache)
  allow ops cache = do
    let consider = considered ops
    r ← lookup hasher ops consider cache.the_rule_cache
    ok (
      r.0,
      record cache {
        ops_copy = ops;
        consider = consider;
        res_copy = elim r.0 [ none ↦ cache.res_copy | some res ↦ res ];
        the_rule_cache = r.1;
      },
    )
