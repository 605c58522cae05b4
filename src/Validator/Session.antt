-- ===== src/Validator/Session.antt =====
-- A run of the validator as the simulator drives it: instructions that pass and are committed,
-- instructions that are rejected, and flushes of the rule cache.
use hope_policy_engine.Prelude.{
  ℕ, Bool, true, false, ◌≡◌, refl, Option, none, some, inl, inr, subst, Option-cases,
}
use hope_policy_engine.Isa.{Operands, Results}
use hope_policy_engine.RuleCache.Run
use hope_policy_engine.RuleCache.Interface.{RuleCache}
use hope_policy_engine.Validator.State.{Platform, Outcome, ok, Fault}
use hope_policy_engine.Validator.Outcomes.{Ends, Ends-bind, Ends-if}
use hope_policy_engine.Validator.Validate.{Validator, lift, validate, flush_rule_cache}
use hope_policy_engine.Validator.Commit.{answered, refresh, commit}
use hope_policy_engine.Validator.Safety.{IsReady, CanCommit}
use hope_policy_engine.Validator.CommitSafety.{
  IsCacheEnd, Committed, tagged, commit-parts, commit-Ends,
}
use hope_policy_engine.Validator.Soundness.{
  Sanctioned, CacheSound, Judged, Verdict, IsEnd, lift-equation, validate-Ends,
}

-- A cache whose hits have the very operands of the query.
abbrev pub IsExact : RuleCache → Type 0
IsExact c = (stored query : Operands) → c.Matches stored query → stored ≡ query

-- An outcome that is a value has what its ends promise.
Ends-value :
    {A : Type 0} (E : Fault → Type 0) (P : A → Type 0) (m : Outcome A) (a : A)
    → Ends E P m
    → m ≡ ok a
    → P a
Ends-value E P m a h e = subst (Ends E P) e h

module _ (p : Platform) (c : RuleCache) where
  answered-CacheSound :
      (s : Validator p c) (cache cache' : c.State) (answer : Option Results)
      → c.Entries (Sanctioned p) cache
      → Sanctioned p s.ops s.res
      → c.allow s.ops cache ≡ Run.ok (answer, cache')
      → Ends IsCacheEnd (λ s'. CacheSound p c s'.rule_cache) (answered p c s answer cache')
  unfolding answered
  answered-CacheSound s cache cache' (some r) sound sanctioned e =
      (c.allow-hit (Sanctioned p) s.ops cache sound e).3
  answered-CacheSound s cache cache' none sound sanctioned e =
      Ends-bind IsCacheEnd (λ cache''. c.install_rule s.ops s.res cache' ≡ Run.ok cache'')
        (λ s'. CacheSound p c s'.rule_cache) (lift (c.install_rule s.ops s.res cache'))
        (λ cache''. ok (record s { rule_cache = some cache'' }))
        (lift-equation (c.install_rule s.ops s.res cache'))
        (λ cache'' same. c.install-Entries (Sanctioned p) s.ops s.res cache sound e sanctioned same)

  refresh-CacheSound :
      (s : Validator p c) (o : Option c.State)
      → s.rule_cache ≡ o
      → CacheSound p c o
      → Sanctioned p s.ops s.res
      → Ends IsCacheEnd (λ s'. CacheSound p c s'.rule_cache) (refresh p c s o)
  unfolding refresh
  refresh-CacheSound s none e sound sanctioned = rw (e) tt
  refresh-CacheSound s (some cache) e sound sanctioned =
      Ends-if IsCacheEnd (λ s'. CacheSound p c s'.rule_cache) s.ctx.cached _ _
        (Ends-bind IsCacheEnd (λ r. c.allow s.ops cache ≡ Run.ok r)
          (λ s'. CacheSound p c s'.rule_cache) (lift (c.allow s.ops cache))
          (λ r. answered p c s r.0 r.1) (lift-equation (c.allow s.ops cache))
          (λ r same. answered-CacheSound s cache r.1 r.0 sound sanctioned same))
        (rw (e) sound)

  -- A commit of results that the policy has allowed for the operands puts no other rule into the cache.
  pub commit-CacheSound :
      (s : Validator p c)
      → IsReady p s
      → CanCommit p s
      → CacheSound p c s.rule_cache
      → Sanctioned p s.ops s.res
      → Ends IsCacheEnd (λ r. CacheSound p c r.0.rule_cache) (commit p c s)
  commit-CacheSound s ready can sound sanctioned =
      let (hit, bus, e, covers, after, _) = commit-parts p c s ready can in
      rw (e) (
        Ends-bind IsCacheEnd (λ s'. CacheSound p c s'.rule_cache)
          (λ r. CacheSound p c r.0.rule_cache) (refresh p c (tagged p c s bus) s.rule_cache)
          (λ s'. ok (s', hit))
          (refresh-CacheSound (tagged p c s bus) s.rule_cache refl sound sanctioned)
          (λ s' kept. kept))

  pub data Step : Validator p c → Validator p c → Type 0 where
    passed :
        {s s' s'' : Validator p c} (reg_reader : ℕ → ℕ) (pc insn : ℕ) (hit : Bool)
        → validate p c reg_reader pc insn s ≡ ok (s', true)
        → commit p c s' ≡ ok (s'', hit)
        → Step s s''
    rejected :
        {s s' : Validator p c} (reg_reader : ℕ → ℕ) (pc insn : ℕ)
        → validate p c reg_reader pc insn s ≡ ok (s', false)
        → Step s s'
    flushed : (s : Validator p c) → Step s (flush_rule_cache p c s)

  pub data Reachable (start : Validator p c) : Validator p c → Type 0 where
    begin : Reachable start start
    next : {s s' : Validator p c} → Reachable start s → Step s s' → Reachable start s'

  -- The invariant of a run.
  pub record Good (s : Validator p c) : Type 0 where
    pub ready : IsReady p s
    pub cache_sound : CacheSound p c s.rule_cache

  flush-Good : (s : Validator p c) → Good s → Good (flush_rule_cache p c s)
  unfolding flush_rule_cache
  flush-Good s g = elim (Option-cases s.rule_cache) [
    | inl without ↦ rw (without, flush_rule_cache) g
    | inr (cache, present) ↦
        rw (present, flush_rule_cache)
          (record {
            ready = record {
              width = g.ready.width;
              regs = g.ready.regs;
              csrs = g.ready.csrs;
              covers = g.ready.covers;
            };
            cache_sound =
                c.flush-Entries (Sanctioned p) cache (subst (CacheSound p c) present g.cache_sound);
          })
  ]

  exact-Sanctioned :
      IsExact c → (s : Validator p c) → Verdict p c (s, true) → Sanctioned p s.ops s.res
  exact-Sanctioned exact s (stored, matches, sanctioned) =
      rw (← exact stored s.ops matches) sanctioned

  Step-Good : IsExact c → {s s' : Validator p c} → Step s s' → Good s → Good s'
  Step-Good exact {s} (passed {s' = s'} {s'' = s''} reg_reader pc insn hit valid done) g =
      let judged =
        Ends-value IsEnd (Judged p c) (validate p c reg_reader pc insn s) (s', true)
          (validate-Ends p c reg_reader pc insn s g.ready g.cache_sound) valid in
      let (ready, _) =
        Ends-value IsCacheEnd (λ r. IsReady p r.0 × Committed p c s' r.0) (commit p c s') (s'', hit)
          (commit-Ends p c s' judged.ready judged.can_commit) done in
      let sound =
        Ends-value IsCacheEnd (λ r. CacheSound p c r.0.rule_cache) (commit p c s') (s'', hit)
          (commit-CacheSound s' judged.ready judged.can_commit judged.cache_sound
            (exact-Sanctioned exact s' judged.verdict))
          done in
      record { ready = ready; cache_sound = sound }
  Step-Good exact {s} (rejected {s' = s'} reg_reader pc insn valid) g =
      let judged =
        Ends-value IsEnd (Judged p c) (validate p c reg_reader pc insn s) (s', false)
          (validate-Ends p c reg_reader pc insn s g.ready g.cache_sound) valid in
      record { ready = judged.ready; cache_sound = judged.cache_sound }
  Step-Good exact (flushed s) g = flush-Good s g

  Reachable-Good : IsExact c → {start s : Validator p c} → Reachable start s → Good start → Good s
  Reachable-Good exact begin g = g
  Reachable-Good exact (next r step) g = Step-Good exact step (Reachable-Good exact r g)

  -- With a rule cache whose hits have the very operands of the query, from a good state, after any run of
  -- passed and committed instructions, rejected instructions and flushes: an instruction that passes
  -- has operands and results that the policy has allowed together.
  pub session-Sanctioned :
      {start s s' : Validator p c} (reg_reader : ℕ → ℕ) (pc insn : ℕ)
      → IsExact c
      → Good start
      → Reachable start s
      → validate p c reg_reader pc insn s ≡ ok (s', true)
      → Sanctioned p s'.ops s'.res
  session-Sanctioned {s = s} {s' = s'} reg_reader pc insn exact good r valid =
      let g = Reachable-Good exact r good in
      let judged =
        Ends-value IsEnd (Judged p c) (validate p c reg_reader pc insn s) (s', true)
          (validate-Ends p c reg_reader pc insn s g.ready g.cache_sound) valid in
      exact-Sanctioned exact s' judged.verdict
