-- ===== src/Validator/State.antt =====
-- The state of `rv_validator_t`, validator/riscv/rv_validator.h, how a call of it ends, and what it is
-- linked with: the generated policy code, the metadata sets of the policy and the simulator's address
-- translation.
use hope_policy_engine.Prelude.{ℕ, Bool, List, Option, none, some, get_elem?}
use hope_policy_engine.Isa.{Context, Operands, Results}
use hope_policy_engine.RuleCache.Table.{Eq}
use hope_policy_engine.Tags.Bus.{Bus}

-- `eval_policy` gives the verdict, and the context and the results as it leaves them. An `int` is its
-- 32-bit pattern.
pub record Platform : Type 1 where
  pub MetaSet : Type 0
  pub meta_set_eq : Eq MetaSet
  pub empty : MetaSet
  pub addr_fixer : ℕ → ℕ
  pub eval_policy : Context → Operands → Results → ℕ × Context × Results

-- `POLICY_SUCCESS`
abbrev pub policy_success : ℕ
policy_success = 1

-- What leaves a call early: the exceptions, an access outside an array, and the ends of a rule cache.
-- `unfinished` is a loop of the model that had too few turns.
pub data Fault : Type 0 where
  invalid_argument not_defined tmt_miss out_of_bounds cache_abort cache_out_of_bounds : Fault
  out_of_range null_pointer configuration unfinished : Fault
  cache_exit : ℕ → Fault

pub data Outcome (A : Type 0) : Type 0 where
  ok : A → Outcome A
  fault : Fault → Outcome A

infixl 5 ◌>>=◌
abbrev pub ◌>>=◌ : {A B : Type 0} → Outcome A → (A → Outcome B) → Outcome B
ok a >>= f = f a
fault e >>= f = fault e

-- an unchecked access to a `std::array`
abbrev pub at_index : List ℕ → ℕ → Outcome ℕ
at_index xs i = elim (get_elem? xs i) [ none ↦ fault out_of_bounds | some x ↦ ok x ]

-- `option::get`
abbrev pub get : Option ℕ → Outcome ℕ
get none = fault not_defined
get (some v) = ok v

pub record State (Cache MetaSet : Type 0) : Type 0 where
  pub xlen : ℕ
  pub tag_bus : Bus
  pub ms_cache : List MetaSet
  pub pending_rd : ℕ
  pub mem_addr : ℕ
  pub pending_csr : ℕ
  pub has_pending_rd : Bool
  pub has_pending_mem : Bool
  pub has_pending_csr : Bool
  pub has_insn_mem_addr : Bool
  pub rule_cache_hit : Bool
  pub ctx : Context
  pub ops : Operands
  pub res : Results
  pub pc_tag : ℕ
  pub ireg_tags : List ℕ
  pub csr_tags : List ℕ
  pub watch_pc : Bool
  pub watch_regs : List ℕ
  pub watch_csrs : List ℕ
  pub watch_addrs : List ℕ
  pub failed : Bool
  pub failed_ctx : Context
  pub failed_ops : Operands
  pub rule_cache : Option Cache
  pub rule_cache_hits : ℕ
  pub rule_cache_misses : ℕ
