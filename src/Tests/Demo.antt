-- ===== src/Tests/Demo.antt =====
-- A small machine: one memory of 64 bytes, whose words carry tag 7, and a policy that allows the
-- instructions tagged 7 and gives their destination tag 9.
use hope_policy_engine.Prelude.{
  ℕ, Bool, true, false, ◌==◌, ==_iff, if◌then◌else◌, [], ◌∷◌, replicate, some,
}
use hope_policy_engine.RuleCache.Ideal.Laws.{ideal_rule_cache}
use hope_policy_engine.Tags.Provider.{ram}
use hope_policy_engine.Validator.State.{Platform, Outcome, ok, fault}
use hope_policy_engine.Validator.Validate.{Validator, validate}
use hope_policy_engine.Validator.Commit.{commit}

abbrev pub demo : Platform
demo = record {
  MetaSet = ℕ;
  meta_set_eq = record { beq = ◌==◌; beq_iff = ==_iff };
  empty = 0;
  addr_fixer = λ addr. addr;
  eval_policy =
      λ ctx ops res. (if ops.ci == 7 then 1 else 0, ctx, record res { rd = 9; rd_result = true });
}

abbrev pub registers : ℕ → ℕ
registers r = 16

-- `add x1, x2, x3` and `sw x3, 4(x2)`
abbrev pub add_word : ℕ
add_word = 0x003100b3

abbrev pub store_word : ℕ
store_word = 0x00312223

abbrev pub start : Validator demo ideal_rule_cache
start = record {
  xlen = 32;
  tag_bus = record { start = 0; provider = ram 64 4 4 (replicate 17 7) } ∷ [];
  ms_cache = [];
  pending_rd = 0;
  mem_addr = 0;
  pending_csr = 0;
  has_pending_rd = false;
  has_pending_mem = false;
  has_pending_csr = false;
  has_insn_mem_addr = false;
  rule_cache_hit = false;
  ctx = record {
    epc = 0;
    bad_addr = 0;
    policy_result = 0;
    fail_msg = "";
    rule_str = "";
    cached = true;
  };
  ops = record { pc = 0; ci = 0; op1 = 0; op2 = 0; op3 = 0; mem = 0 };
  res = record {
    pc = 0;
    rd = 0;
    csr = 0;
    pc_result = false;
    rd_result = false;
    csr_result = false;
  };
  pc_tag = 2;
  ireg_tags = replicate 32 3;
  csr_tags = replicate 4096 4;
  watch_pc = false;
  watch_regs = [];
  watch_csrs = [];
  watch_addrs = [];
  failed = false;
  failed_ctx = record {
    epc = 0;
    bad_addr = 0;
    policy_result = 0;
    fail_msg = "";
    rule_str = "";
    cached = true;
  };
  failed_ops = record { pc = 0; ci = 0; op1 = 0; op2 = 0; op3 = 0; mem = 0 };
  rule_cache = some [];
  rule_cache_hits = 0;
  rule_cache_misses = 0;
}

-- the state that a call leaves
abbrev pub left : Outcome (Validator demo ideal_rule_cache × Bool) → Validator demo ideal_rule_cache
left (ok r) = r.0
left (fault e) = start

abbrev pub added : Validator demo ideal_rule_cache
added = left (validate demo ideal_rule_cache registers 0 add_word start)

abbrev pub committed : Validator demo ideal_rule_cache
committed = left (commit demo ideal_rule_cache added)

abbrev pub stored : Validator demo ideal_rule_cache
stored = left (validate demo ideal_rule_cache registers 4 store_word committed)
