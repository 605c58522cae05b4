-- ===== src/Validator/Live/Calls.antt =====
-- The calls of validator/riscv/rv_validator.cc from states in which no memory location lacks a tag.
use hope_policy_engine.Prelude.{
  ℕ, true, false, ◌≡◌, ◌∙◌, refl, subst, Option, none, some, inl, inr, Option-cases, Bool-cases,
}
use hope_policy_engine.Isa.{bad_tag_value, Results}
use hope_policy_engine.RuleCache.Run
use hope_policy_engine.RuleCache.Interface.{RuleCache}
use hope_policy_engine.Tags.Bus.{Bus}
use hope_policy_engine.Tags.Bus.NoMiss.{NoMiss, read_data-IsTag, write_data-NoMiss}
use hope_policy_engine.Validator.State.{Platform, ok, Fault}
use hope_policy_engine.Validator.Outcomes.{Ends, Ends-bind, Ends-if}
use hope_policy_engine.Validator.Prepare.{setup_validation, prepare_eval}
use hope_policy_engine.Validator.Validate.{
  Validator, lift, judge, consult, validate, count_again, validate_cached, flush_rule_cache,
}
use hope_policy_engine.Validator.Commit.{answered, refresh, commit}
use hope_policy_engine.Validator.CommitParts.{Written, rd_tags-length, csr_tags-length}
use hope_policy_engine.Validator.CommitSafety.{tagged, commit-parts}
use hope_policy_engine.Validator.Safety.{
  IsReady, CanCommit, Keeps, Keeps-IsReady, prepare_eval-Ends_at,
}
use hope_policy_engine.Validator.Live.{
  NamesTags, HasTag, Answers, CacheTagged, Live, live, Live-IsReady, Live-CanCommit,
  setup_validation-IsTag, evaluate-Live, recached, judge-Live,
}

module _ (p : Platform) (c : RuleCache) (E : Fault → Type 0) (answers : Answers E c) where
  consult-Live :
      NamesTags p
      → (s : Validator p c) (o : Option c.State) → s.rule_cache ≡ o
      → Live p c s
      → Ends E (λ r. Live p c r.0) (consult p c s o)
  unfolding consult
  consult-Live names s none e l = evaluate-Live p c names s l
  consult-Live names s (some cache) e l =
      Ends-bind E (λ r. c.allow s.ops cache ≡ Run.ok r) (λ r. Live p c r.0)
        (lift (c.allow s.ops cache)) (λ r. ok (judge p c s r.0 r.1)) (answers.allows s.ops cache)
        (λ r same.
          judge-Live p c names s cache r.0 r.1 l (subst (CacheTagged p c) e l.cache_tagged) same)

  -- From a ready state with tags everywhere in the memory, and in the rules of the cache, a validation
  -- returns, or leaves as the rule cache does; and then a commit and further calls can follow.
  pub validate-Live :
      NamesTags p
      → (reg_reader : ℕ → ℕ) (pc insn : ℕ) (s : Validator p c) → IsReady p s
      → NoMiss s.tag_bus
      → CacheTagged p c s.rule_cache
      → Ends E (λ r. Live p c r.0) (validate p c reg_reader pc insn s)
  unfolding validate setup_validation
  validate-Live names reg_reader pc insn s ready no_miss sound =
      let s0 = setup_validation p s in
      let ready0 : IsReady p s0 = record {
        width = ready.width;
        regs = ready.regs;
        csrs = ready.csrs;
        covers = ready.covers;
      } in
      Ends-bind E
        (λ s'.
          Keeps p (record s0 { failed = false }) s'
          × CanCommit p s'
          × (s'.res ≡ (setup_validation p s0).res))
        (λ r. Live p c r.0) (prepare_eval p reg_reader pc insn s0)
        (λ s'. consult p c s' s'.rule_cache)
        (prepare_eval-Ends_at p E reg_reader pc insn s0 ready0
          (λ addr e. absurd (read_data-IsTag addr s.tag_bus bad_tag_value no_miss e refl)))
        (λ s' (kept, can, res). consult-Live names s' s'.rule_cache refl (
          live p c s'
            (Keeps-IsReady p (record s0 { failed = false }) s' kept
              (record {
                width = ready.width;
                regs = ready.regs;
                csrs = ready.csrs;
                covers = ready.covers;
              }))
            can (rw (kept.tag_bus) no_miss) (rw (res) (setup_validation-IsTag p c s0))
            (rw (kept.rule_cache) sound)))

  count_again-Live : (s : Validator p c) → Live p c s → Live p c (count_again p c s)
  unfolding count_again
  count_again-Live s l = elim (Option-cases s.rule_cache) [
    | inl without ↦ rw (without, count_again) l
    | inr (cache, present) ↦ elim (Bool-cases s.rule_cache_hit) [
      | inl hit ↦ rw (present, count_again) (rw (hit, count_again) l)
      | inr miss ↦ rw (present, count_again) (rw (miss, count_again) l)
    ]
  ]

  pub validate_cached-Live :
      NamesTags p
      → (reg_reader : ℕ → ℕ) (pc insn addr : ℕ) (s : Validator p c) → Live p c s
      → Ends E (λ r. Live p c r.0) (validate_cached p c reg_reader pc insn addr s)
  unfolding validate_cached
  validate_cached-Live names reg_reader pc insn addr s l =
      let given = record s { has_insn_mem_addr = true; mem_addr = addr } in
      Ends-bind E (λ r. Live p c r.0) (λ r. Live p c r.0) (validate p c reg_reader pc insn given)
        (λ r. ok (count_again p c r.0, r.1, (count_again p c r.0).rule_cache_hit))
        (validate-Live names reg_reader pc insn given (Live-IsReady p c given l) l.no_miss
          l.cache_tagged)
        (λ r kept. count_again-Live r.0 kept)

  answered-Live :
      (s : Validator p c) (cache cache' : c.State) (answer : Option Results)
      → Live p c s
      → c.Entries HasTag cache
      → c.allow s.ops cache ≡ Run.ok (answer, cache')
      → Ends E (Live p c) (answered p c s answer cache')
  unfolding answered
  answered-Live s cache cache' (some r) l sound e =
      let (stored, matches, tag, kept) = c.allow-hit HasTag s.ops cache sound e in
      recached p c s (some cache') r l tag kept
  answered-Live s cache cache' none l sound e =
      Ends-bind E (λ cache''. c.install_rule s.ops s.res cache' ≡ Run.ok cache'') (Live p c)
        (lift (c.install_rule s.ops s.res cache'))
        (λ cache''. ok (record s { rule_cache = some cache'' }))
        (answers.installs s.ops s.res cache')
        (λ cache'' same.
          recached p c s (some cache'') s.res l l.res_tagged
            (c.install-Entries HasTag s.ops s.res cache sound e l.res_tagged same))

  refresh-Live :
      (s : Validator p c) (o : Option c.State)
      → s.rule_cache ≡ o
      → Live p c s
      → Ends E (Live p c) (refresh p c s o)
  unfolding refresh
  refresh-Live s none e l = l
  refresh-Live s (some cache) e l =
      let sound = subst (CacheTagged p c) e l.cache_tagged in
      Ends-if E (Live p c) s.ctx.cached _ _
        (Ends-bind E (λ r. c.allow s.ops cache ≡ Run.ok r) (Live p c) (lift (c.allow s.ops cache))
          (λ r. answered p c s r.0 r.1) (answers.allows s.ops cache)
          (λ r same. answered-Live s cache r.1 r.0 l sound same))
        l

  Written-NoMiss : (s : Validator p c) (bus : Bus) → Live p c s → Written p c s bus → NoMiss bus
  Written-NoMiss s bus l (inl same) = rw (same) l.no_miss
  Written-NoMiss s bus l (inr written) =
      write_data-NoMiss (p.addr_fixer s.mem_addr) s.res.rd s.tag_bus bus l.no_miss l.res_tagged
        written

  pub commit-Live : (s : Validator p c) → Live p c s → Ends E (λ r. Live p c r.0) (commit p c s)
  commit-Live s l =
      let ready = Live-IsReady p c s l in
      let (hit, bus, e, covers, after, written) =
        commit-parts p c s ready (Live-CanCommit p c s l) in
      rw (e) (
        Ends-bind E (Live p c) (λ r. Live p c r.0) (refresh p c (tagged p c s bus) s.rule_cache)
          (λ s'. ok (s', hit))
          (refresh-Live (tagged p c s bus) s.rule_cache refl (
            live p c (tagged p c s bus)
              (record {
                width = l.width;
                regs = rd_tags-length p c s ∙ l.regs_length;
                csrs = csr_tags-length p c s ∙ l.csrs_length;
                covers = covers;
              })
              (record { rd_below = l.rd_below; csr_below = l.csr_below })
              (Written-NoMiss s bus l written) l.res_tagged l.cache_tagged))
          (λ s' kept. kept))

  pub flush-Live : (s : Validator p c) → Live p c s → Live p c (flush_rule_cache p c s)
  unfolding flush_rule_cache
  flush-Live s l = elim (Option-cases s.rule_cache) [
    | inl without ↦ rw (without, flush_rule_cache) l
    | inr (cache, present) ↦
        rw (present, flush_rule_cache)
          (recached p c s (some (c.flush cache)) s.res l l.res_tagged
            (c.flush-Entries HasTag cache (subst (CacheTagged p c) present l.cache_tagged)))
  ]
