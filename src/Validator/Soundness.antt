-- ===== src/Validator/Soundness.antt =====
-- The verdicts of `validate`, validator/riscv/rv_validator.cc, against those of the policy code.
use hope_policy_engine.Prelude.{
  ℕ, true, false, Bool, ◌==◌, ◌≡◌, ◌≢◌, refl, Option, none, some, arith, Bool-cases, ◌⊎◌, inl, inr,
}
use hope_policy_engine.Isa.{Context, Operands, Results}
use hope_policy_engine.RuleCache.Run.{Run}
use hope_policy_engine.RuleCache.Interface.{RuleCache}
use hope_policy_engine.Validator.State.{Platform, ok, Fault, tmt_miss, policy_success}
use hope_policy_engine.Validator.Outcomes.{Ends, Ends-bind, Ends-weaken}
use hope_policy_engine.Validator.Prepare.{setup_validation, prepare_eval}
use hope_policy_engine.Validator.Validate.{
  Validator, lift, count, handle_violation, evaluate, judge, consult, validate,
}
use hope_policy_engine.Validator.Safety.{
  IsReady, CanCommit, Keeps, Keeps-IsReady, prepare_eval-Ends,
}
use hope_policy_engine.Validator.CommitSafety.{IsCacheEnd}

-- The policy has allowed these operands, with these results.
abbrev pub Sanctioned : Platform → Operands → Results → Type 0
Sanctioned p q r =
    (ctx ctx' : Context) × (res : Results) × (p.eval_policy ctx q res ≡ (policy_success, ctx', r))

-- A call of a rule cache, with the equation of the value that it returns.
pub lift-equation : {A : Type 0} (r : Run A) → Ends IsCacheEnd (λ a. r ≡ Run.ok a) (lift r)
lift-equation (Run.ok a) = refl
lift-equation (Run.stop n) = tt
lift-equation Run.abort = tt
lift-equation Run.out_of_bounds = tt

-- The ends of a validation: a memory location without a tag, or the rule cache.
abbrev pub IsEnd : Fault → Type 0
IsEnd e = (e ≡ tmt_miss) ⊎ IsCacheEnd e

module _ (p : Platform) (c : RuleCache) where
  abbrev pub CacheSound : Option c.State → Type 0
  CacheSound none = Unit
  CacheSound (some cache) = c.Entries (Sanctioned p) cache

  -- An instruction that passes has the results of a rule that the policy has allowed and that the cache
  -- takes for its operands. One that does not pass has a verdict against it, and its operands are kept.
  abbrev pub Verdict : Validator p c × Bool → Type 0
  Verdict (s, true) = (stored : Operands) × c.Matches stored s.ops × Sanctioned p stored s.res
  Verdict (s, false) =
      (s.failed ≡ true)
      × (s.failed_ops ≡ s.ops)
      × (ctx : Context) × (res : Results) × ((p.eval_policy ctx s.ops res).0 ≢ policy_success)

  pub record Judged (r : Validator p c × Bool) : Type 0 where
    pub ready : IsReady p r.0
    pub can_commit : CanCommit p r.0
    pub cache_sound : CacheSound r.0.rule_cache
    pub verdict : Verdict r

  evaluate-Judged :
      (s : Validator p c)
      → IsReady p s
      → CanCommit p s
      → CacheSound s.rule_cache
      → s.failed ≡ false
      → Judged (evaluate p c s)
  unfolding evaluate handle_violation
  evaluate-Judged s ready can sound fresh =
      elim (Bool-cases ((p.eval_policy s.ctx s.ops s.res).0 == policy_success)) [
        | inl allowed ↦
            rw (allowed, evaluate)
              record {
                ready = record {
                  width = ready.width;
                  regs = ready.regs;
                  csrs = ready.csrs;
                  covers = ready.covers;
                };
                can_commit = record { rd_below = can.rd_below; csr_below = can.csr_below };
                cache_sound = sound;
                verdict = (
                  s.ops,
                  c.Matches-refl s.ops,
                  (s.ctx, (p.eval_policy s.ctx s.ops s.res).1, s.res, ground arith),
                );
              }
        | inr refused ↦
            rw (refused, evaluate)
              (rw (fresh, handle_violation)
                record {
                  ready = record {
                    width = ready.width;
                    regs = ready.regs;
                    csrs = ready.csrs;
                    covers = ready.covers;
                  };
                  can_commit = record { rd_below = can.rd_below; csr_below = can.csr_below };
                  cache_sound = sound;
                  verdict = (refl, refl, s.ctx, s.res, ground arith);
                })
      ]

  judge-Judged :
      (s : Validator p c) (cache : c.State) (answer : Option Results) (cache' : c.State)
      → IsReady p s
      → CanCommit p s
      → c.Entries (Sanctioned p) cache
      → s.failed ≡ false
      → c.allow s.ops cache ≡ Run.ok (answer, cache')
      → Judged (judge p c s answer cache')
  unfolding judge
  judge-Judged s cache (some res) cache' ready can sound fresh e =
      let (stored, matches, sanctioned, kept) = c.allow-hit (Sanctioned p) s.ops cache sound e in
      record {
        ready = record {
          width = ready.width;
          regs = ready.regs;
          csrs = ready.csrs;
          covers = ready.covers;
        };
        can_commit = record { rd_below = can.rd_below; csr_below = can.csr_below };
        cache_sound = kept;
        verdict = (stored, matches, sanctioned);
      }
  judge-Judged s cache none cache' ready can sound fresh e =
      evaluate-Judged
        (record s {
          rule_cache = some cache';
          rule_cache_misses = count s.rule_cache_misses;
          rule_cache_hit = false;
        })
        (record {
          width = ready.width;
          regs = ready.regs;
          csrs = ready.csrs;
          covers = ready.covers;
        })
        (record { rd_below = can.rd_below; csr_below = can.csr_below })
        (c.allow-miss (Sanctioned p) s.ops cache sound e) fresh

  consult-Ends :
      (s : Validator p c) (o : Option c.State)
      → s.rule_cache ≡ o
      → IsReady p s
      → CanCommit p s
      → CacheSound o
      → s.failed ≡ false
      → Ends IsCacheEnd Judged (consult p c s o)
  unfolding consult
  consult-Ends s none e ready can sound fresh = evaluate-Judged s ready can (rw (e) tt) fresh
  consult-Ends s (some cache) e ready can sound fresh =
      Ends-bind IsCacheEnd (λ r. c.allow s.ops cache ≡ Run.ok r) Judged (lift (c.allow s.ops cache))
        (λ r. ok (judge p c s r.0 r.1)) (lift-equation (c.allow s.ops cache))
        (λ r same. judge-Judged s cache r.0 r.1 ready can sound fresh same)

  -- A validation of any instruction word at any address, from a state that is ready, with a cache whose
  -- rules the policy has allowed, raises no fault but these two; and then it passes exactly what the
  -- policy allows, or a rule of the cache that matches, and the invariants hold again.
  pub validate-Ends :
      (reg_reader : ℕ → ℕ) (pc insn : ℕ) (s : Validator p c)
      → IsReady p s
      → CacheSound s.rule_cache
      → Ends IsEnd Judged (validate p c reg_reader pc insn s)
  unfolding validate setup_validation
  validate-Ends reg_reader pc insn s ready sound =
      let s0 = setup_validation p s in
      Ends-bind IsEnd (λ s'. Keeps p (record s0 { failed = false }) s' × CanCommit p s') Judged
        (prepare_eval p reg_reader pc insn s0) (λ s'. consult p c s' s'.rule_cache)
        (Ends-weaken (λ e. e ≡ tmt_miss) IsEnd
          (λ s'. Keeps p (record s0 { failed = false }) s' × CanCommit p s')
          (prepare_eval p reg_reader pc insn s0) (λ e f. inl f)
          (prepare_eval-Ends p reg_reader pc insn s0 (record {
            width = ready.width;
            regs = ready.regs;
            csrs = ready.csrs;
            covers = ready.covers;
          })))
        (λ s' (kept, can).
          Ends-weaken IsCacheEnd IsEnd Judged (consult p c s' s'.rule_cache) (λ e f. inr f)
            (consult-Ends s' s'.rule_cache refl
              (Keeps-IsReady p (record s0 { failed = false }) s' kept
                (record {
                  width = ready.width;
                  regs = ready.regs;
                  csrs = ready.csrs;
                  covers = ready.covers;
                }))
              can (rw (kept.rule_cache) sound) kept.failed))
