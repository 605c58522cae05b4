-- ===== src/RuleCache/Finite.antt =====
-- The bounded cache, validator/rule_cache/finite_rule_cache: a table, and the ring of its keys that says
-- which rule is evicted. It inherits `flush` from the ideal cache.
pub mod Ring
pub mod Fifo
pub mod Offers
pub mod Laws
use hope_policy_engine.Prelude.{
  ℕ, ◌+◌, Bool, true, false, if◌then◌else◌, leb, List, [], Option, none, some, get_or, set,
  replicate,
}
use hope_policy_engine.Isa.{Operands, Results}
use hope_policy_engine.RuleCache.Table.{Table, find, put, erase}
use hope_policy_engine.RuleCache.Keys.{operands_key}
use hope_policy_engine.RuleCache.Ideal

-- `internal_errors` counts the printed "Internal error in rule cache" messages.
pub record Finite : Type 0 where
  pub capacity : ℕ
  pub cache_full : Bool
  pub entries : List Operands
  pub next_entry : ℕ
  pub rule_cache_table : Table Operands Results
  pub internal_errors : ℕ

-- what `std::vector<operands_t>(capacity)` fills with
abbrev pub zero_operands : Operands
zero_operands = record { pc = 0; ci = 0; op1 = 0; op2 = 0; op3 = 0; mem = 0 }

unfoldable pub init : ℕ → Finite
init capacity = record {
  capacity = capacity;
  cache_full = false;
  entries = replicate capacity zero_operands;
  next_entry = 0;
  rule_cache_table = [];
  internal_errors = 0;
}

-- the `if (cache_full)` block: drop the rule whose key is about to be overwritten
unfoldable pub evict : Finite → Finite
evict c =
    let key = get_or c.entries c.next_entry zero_operands in
    if c.cache_full
    then elim (find key c.rule_cache_table) [
      | none ↦ record c { internal_errors = c.internal_errors + 1 }
      | some _ ↦ record c { rule_cache_table = erase key c.rule_cache_table }
    ]
    else c

-- the rest of `install_rule`
unfoldable pub store : Operands → Results → Finite → Finite
store ops res c =
    let next = c.next_entry + 1 in
    let wraps = leb c.capacity next in
    record c {
      rule_cache_table = put ops res c.rule_cache_table;
      entries = set c.entries c.next_entry ops;
      next_entry = if wraps then 0 else next;
      cache_full = if wraps then true else c.cache_full;
    }

unfoldable pub install_rule : Operands → Results → Finite → Finite
install_rule ops res c = store ops res (evict c)

-- The code is that of the ideal cache.
unfoldable pub allow : Operands → Finite → Option Results
allow ops c = Ideal.allow ops c.rule_cache_table

-- `flush` of the base class clears the table and leaves the ring as it is.
unfoldable pub flush : Finite → Finite
flush c = record c { rule_cache_table = Ideal.flush c.rule_cache_table }
