-- ===== src/Validator/Validate.antt =====
-- `validate`, `handle_violation` and `flush_rule_cache` of validator/riscv/rv_validator.cc.
use hope_policy_engine.Prelude.{
  ℕ, ◌+◌, ◌%◌, ◌^◌, Bool, true, false, ◌==◌, if◌then◌else◌, Option, none, some,
}
use hope_policy_engine.Isa.{Context, Operands, Results}
use hope_policy_engine.RuleCache.Run.{Run}
use hope_policy_engine.RuleCache.Interface.{RuleCache}
use hope_policy_engine.Validator.State.{
  Platform, Outcome, ok, fault, cache_abort, cache_out_of_bounds, cache_exit, ◌>>=◌, State,
  policy_success,
}
use hope_policy_engine.Validator.Prepare.{setup_validation, prepare_eval}

-- A call of a rule cache that ends the program.
abbrev pub lift : {A : Type 0} → Run A → Outcome A
lift (Run.ok a) = ok a
lift (Run.stop n) = fault (cache_exit n)
lift Run.abort = fault cache_abort
lift Run.out_of_bounds = fault cache_out_of_bounds

-- a 64-bit counter
abbrev pub count : ℕ → ℕ
count n = (n + 1) % 2 ^ 64

module _ (p : Platform) (c : RuleCache) where
  abbrev pub Validator : Type 0
  Validator = State c.State p.MetaSet

  unfoldable pub handle_violation : Context → Operands → Validator → Validator
  handle_violation ctx ops s =
      if s.failed then s else record s { failed = true; failed_ctx = ctx; failed_ops = ops }

  -- The policy's verdict, once the rule cache has missed or there is none.
  unfoldable pub evaluate : Validator → Validator × Bool
  evaluate s =
      let r = p.eval_policy s.ctx s.ops s.res in
      let s' = record s { ctx = record (r.1) { policy_result = r.0 }; res = r.2 } in
      if r.0 == policy_success then (s', true) else (handle_violation s'.ctx s'.ops s', false)

  -- What follows the answer of the rule cache: on a hit the policy is not called.
  unfoldable pub judge : Validator → Option Results → c.State → Validator × Bool
  judge s (some res) cache = (
    record s {
      rule_cache = some cache;
      res = res;
      rule_cache_hits = count s.rule_cache_hits;
      rule_cache_hit = true;
    },
    true,
  )
  judge s none cache = evaluate (record s {
    rule_cache = some cache;
    rule_cache_misses = count s.rule_cache_misses;
    rule_cache_hit = false;
  })

  -- `if (rule_cache)`
  unfoldable pub consult : Validator → Option c.State → Outcome (Validator × Bool)
  consult s none = ok (evaluate s)
  consult s (some cache) = do r ← lift (c.allow s.ops cache); ok (judge s r.0 r.1)

  -- `validate(pc, insn)`
  unfoldable pub validate : (ℕ → ℕ) → ℕ → ℕ → Validator → Outcome (Validator × Bool)
  validate reg_reader pc insn s = do
    s' ← prepare_eval p reg_reader pc insn (setup_validation p s)
    consult s' s'.rule_cache

  -- the counting of `validate(pc, insn, memory_addr)`, on top of that of the inner call
  unfoldable pub count_again : Validator → Validator
  count_again s = elim s.rule_cache [
    | none ↦ s
    | some _ ↦
        if s.rule_cache_hit
        then record s { rule_cache_hits = count s.rule_cache_hits }
        else record s { rule_cache_misses = count s.rule_cache_misses }
  ]

  -- `validate(pc, insn, memory_addr)`, which also gives whether the rule cache hit
  unfoldable pub validate_cached :
      (ℕ → ℕ) → ℕ → ℕ → ℕ → Validator → Outcome (Validator × Bool × Bool)
  validate_cached reg_reader pc insn memory_addr s = do
    r ← validate reg_reader pc insn (record s { has_insn_mem_addr = true; mem_addr = memory_addr })
    ok (count_again r.0, r.1, (count_again r.0).rule_cache_hit)

  unfoldable pub flush_rule_cache : Validator → Validator
  flush_rule_cache s = elim s.rule_cache [
    | none ↦ s
    | some cache ↦ record s { rule_cache = some (c.flush cache) }
  ]
