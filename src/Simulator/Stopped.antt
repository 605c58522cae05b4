-- ===== src/Simulator/Stopped.antt =====
-- The interface of validator/riscv/main.cc once DOA is set.
use hope_policy_engine.Prelude.{
  ℕ, ◌<◌, ltb, leb, ◌≡◌, ◌∙◌, refl, Bool, true, false, ◌||◌, if◌then◌else◌, List, [], ◌∷◌, ◌++◌,
  some, All, arith, Option-cases, inl, inr,
}
use hope_policy_engine.RuleCache.Interface.{RuleCache}
use hope_policy_engine.Tags.Bus.{Bus}
use hope_policy_engine.Validator.State.{Platform, ok}
use hope_policy_engine.Validator.Outcomes.{Ends, Ends-bind, Ends-if, Never}
use hope_policy_engine.Validator.Validate.{Validator, flush_rule_cache}
use hope_policy_engine.Simulator.{
  Simulator, address_max, deref, e_v_validate, e_v_validate_cached, e_v_commit, update,
  e_v_flush_rule_cache, e_v_set_pc_watch, e_v_set_reg_watch, e_v_set_csr_watch, e_v_set_mem_watch,
  Call, validates, validates_cached, commits, flushes, watches_pc, watches_reg, watches_csr,
  watches_mem, silent, call, calls,
}

module _ (p : Platform) (c : RuleCache) where
  abbrev pub stopped : Validator p c → Simulator p c
  stopped v = record { rv_validator = some v; doa = true }

  -- the tags of the program counter, the registers, the CSRs and the memory
  abbrev pub tags_of : Validator p c → ℕ × List ℕ × List ℕ × Bus
  tags_of v = (v.pc_tag, v.ireg_tags, v.csr_tags, v.tag_bus)

  -- still stopped, with the tags of `v`
  abbrev pub IsStopped : Validator p c → Simulator p c → Type 0
  IsStopped v s = (v' : Validator p c) × (s ≡ stopped v') × (tags_of v' ≡ tags_of v)

  abbrev Refused : Validator p c → Simulator p c × ℕ → Type 0
  Refused v r = IsStopped v r.0 × (r.1 ≡ 0)

  refused : (v : Validator p c) → Refused v (stopped v, 0)
  refused v = ((v, refl, refl), refl)

  tags_of-flush : (v : Validator p c) → tags_of (flush_rule_cache p c v) ≡ tags_of v
  unfolding flush_rule_cache
  tags_of-flush v = elim (Option-cases v.rule_cache) [
    | inl without ↦ rw (without, flush_rule_cache) refl
    | inr (cache, present) ↦ rw (present, flush_rule_cache) refl
  ]

  tags_of-if :
      (v v' : Validator p c) (b : Bool)
      → tags_of v' ≡ tags_of v
      → tags_of (if b then v' else v) ≡ tags_of v
  tags_of-if v v' true h = h
  tags_of-if v v' false h = refl

  call-Refused :
      (k : Call p c) (v : Validator p c) → Ends Never (Refused v) (call p c k (stopped v))
  unfolding call silent e_v_validate e_v_validate_cached e_v_commit update deref
      e_v_flush_rule_cache e_v_set_pc_watch e_v_set_reg_watch e_v_set_csr_watch e_v_set_mem_watch
  call-Refused (validates reg_reader pc instr) v =
      Ends-if Never (Refused v) (ltb (address_max p c v) pc) _ _ (refused v) (refused v)
  call-Refused (validates_cached reg_reader pc instr mem_addr) v =
      Ends-bind Never (λ r. Refused v (r.0, r.1)) (Refused v) _ (λ r. ok (r.0, r.1))
        (Ends-if Never (λ r. Refused v (r.0, r.1))
          (ltb (address_max p c v) pc || ltb (address_max p c v) mem_addr) _ _ (refused v)
          (refused v))
        (λ r h. h)
  call-Refused commits v = refused v
  call-Refused flushes v = ((flush_rule_cache p c v, refl, tags_of-flush v), refl)
  call-Refused (watches_pc watching) v = ((record v { watch_pc = watching }, refl, refl), refl)
  call-Refused (watches_reg addr) v = (
    (
      _,
      refl,
      tags_of-if v (record v { watch_regs = v.watch_regs ++ addr ∷ [] })
          (leb addr (address_max p c v)) refl,
    ),
    refl,
  )
  call-Refused (watches_csr addr) v = (
    (
      _,
      refl,
      tags_of-if v (record v { watch_csrs = v.watch_csrs ++ addr ∷ [] })
          (leb addr (address_max p c v)) refl,
    ),
    refl,
  )
  call-Refused (watches_mem addr) v = (
    (
      _,
      refl,
      tags_of-if v (record v { watch_addrs = v.watch_addrs ++ addr ∷ [] })
          (leb addr (address_max p c v)) refl,
    ),
    refl,
  )

  -- the results of a run that is refused throughout
  abbrev pub AllRefused : Validator p c → Simulator p c × List ℕ → Type 0
  AllRefused v r = IsStopped v r.0 × All (λ n. n ≡ 0) r.1

  pub calls-AllRefused :
      (ks : List (Call p c)) (v : Validator p c)
      → Ends Never (AllRefused v) (calls p c ks (stopped v))
  unfolding calls
  calls-AllRefused [] v = ((v, refl, refl), tt)
  calls-AllRefused (k ∷ ks) v =
      Ends-bind Never (Refused v) (AllRefused v) (call p c k (stopped v)) _ (call-Refused k v)
        (λ r ((v', same, kept), zeros). rw (same) (
          Ends-bind Never (AllRefused v') (AllRefused v) (calls p c ks (stopped v')) _
            (calls-AllRefused ks v')
            (λ rest ((w, last, kept'), all). ((w, last, kept' ∙ kept), (zeros, all)))))

  -- A validation with a program counter above the largest address stops the interface: with whatever
  -- calls of `e_v_validate`, `e_v_validate_cached`, `e_v_commit`, `e_v_flush_rule_cache` and the four
  -- functions that set watches follow, every one returns, each result is 0, where a function without a
  -- result counts as 0, and no tag of the program counter, of a register, of a CSR or of the memory
  -- changes.
  pub out_of_range-stops :
      (reg_reader : ℕ → ℕ) (pc instr : ℕ) (ks : List (Call p c)) (v : Validator p c) (doa : Bool)
      → address_max p c v < pc
      → Ends Never (AllRefused v) (
          calls p c
            (validates reg_reader pc instr ∷ ks)
            (record { rv_validator = some v; doa = doa }))
  unfolding calls call e_v_validate deref
  out_of_range-stops reg_reader pc instr ks v doa above =
      let test : ltb (address_max p c v) pc ≡ true = ground arith in
      rw (test) (
        Ends-bind Never (AllRefused v) (AllRefused v) (calls p c ks (stopped v)) _
          (calls-AllRefused ks v) (λ r (kept, all). (kept, (refl, all))))
