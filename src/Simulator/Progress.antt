-- ===== src/Simulator/Progress.antt =====
-- The calls of validator/riscv/main.cc return.
use hope_policy_engine.Prelude.{
  ℕ, suc, ltb, leb, ◌≡◌, refl, ap, Bool, true, false, ◌||◌, if◌then◌else◌, List, [], ◌∷◌, ◌++◌,
  Option, none, some, length,
}
use hope_policy_engine.RuleCache.Interface.{RuleCache}
use hope_policy_engine.Validator.State.{Platform, Outcome, ok, fault}
use hope_policy_engine.Validator.Outcomes.{Ends, Ends-bind, Ends-if, Ends-Never, Never}
use hope_policy_engine.Validator.Validate.{Validator, validate, validate_cached}
use hope_policy_engine.Validator.Commit.{commit}
use hope_policy_engine.Validator.Live.{NamesTags, Answers, Live, Live-IsReady}
use hope_policy_engine.Validator.Live.Calls.{
  validate-Live, validate_cached-Live, commit-Live, flush-Live,
}
use hope_policy_engine.Simulator.{
  Simulator, caught, address_max, deref, e_v_validate, e_v_validate_cached, e_v_commit, update,
  e_v_flush_rule_cache, e_v_set_pc_watch, e_v_set_reg_watch, e_v_set_csr_watch, e_v_set_mem_watch,
  Call, validates, validates_cached, commits, flushes, watches_pc, watches_reg, watches_csr,
  watches_mem, silent, call, calls,
}

module _ (p : Platform) (c : RuleCache) where
  abbrev pub IsLiveValidator : Option (Validator p c) → Type 0
  IsLiveValidator none = ⊥
  IsLiveValidator (some v) = Live p c v

  abbrev pub IsLive : Simulator p c → Type 0
  IsLive s = IsLiveValidator s.rv_validator

  if-Live :
      (v v' : Validator p c) (b : Bool) → Live p c v' → Live p c v → Live p c (if b then v' else v)
  if-Live v v' true h k = h
  if-Live v v' false h k = k

  module _ (answers : Answers Never c) (names : NamesTags p) where
    caught-IsLive :
        (s : Simulator p c) (m : Outcome (Validator p c × Bool))
        → Ends Never (λ r. Live p c r.0) m
        → Ends Never (λ r. IsLive r.0) (caught p c s m)
    unfolding caught
    caught-IsLive s (ok r) h = h
    caught-IsLive s (fault e) h = absurd h

    call-IsLive :
        (k : Call p c) (v : Validator p c) (doa : Bool)
        → Live p c v
        → Ends Never (λ r. IsLive r.0) (call p c k (record { rv_validator = some v; doa = doa }))
    unfolding call silent e_v_validate e_v_validate_cached e_v_commit update deref
        e_v_flush_rule_cache e_v_set_pc_watch e_v_set_reg_watch e_v_set_csr_watch e_v_set_mem_watch
    call-IsLive (validates reg_reader pc instr) v doa l =
        Ends-if Never (λ r. IsLive r.0) (ltb (address_max p c v) pc) _ _ l
          (Ends-if Never (λ r. IsLive r.0) doa _ _ l
            (Ends-bind Never (λ r. Live p c r.0) (λ r. IsLive r.0)
              (validate p c reg_reader pc instr v) _
              (validate-Live p c Never answers names reg_reader pc instr v (Live-IsReady p c v l)
                l.no_miss l.cache_tagged)
              (λ r kept. kept)))
    call-IsLive (validates_cached reg_reader pc instr mem_addr) v doa l =
        Ends-bind {A = Simulator p c × ℕ × Option Bool} Never (λ r. IsLive r.0) (λ r. IsLive r.0) _
          (λ r. ok (r.0, r.1))
          (Ends-if Never (λ r. IsLive r.0)
            (ltb (address_max p c v) pc || ltb (address_max p c v) mem_addr) _ _ l
            (Ends-if Never (λ r. IsLive r.0) doa _ _ l
              (Ends-bind Never (λ r. Live p c r.0) (λ r. IsLive r.0)
                (validate_cached p c reg_reader pc instr mem_addr v) _
                (validate_cached-Live p c Never answers names reg_reader pc instr mem_addr v l)
                (λ r kept. kept))))
          (λ r kept. kept)
    call-IsLive commits v doa l =
        Ends-if Never (λ r. IsLive r.0) doa _ _ l
          (caught-IsLive (record { rv_validator = some v; doa = doa }) (commit p c v)
            (commit-Live p c Never answers v l))
    call-IsLive flushes v doa l = flush-Live p c Never answers v l
    call-IsLive (watches_pc watching) v doa l = l
    call-IsLive (watches_reg addr) v doa l =
        if-Live v (record v { watch_regs = v.watch_regs ++ addr ∷ [] })
          (leb addr (address_max p c v)) l l
    call-IsLive (watches_csr addr) v doa l =
        if-Live v (record v { watch_csrs = v.watch_csrs ++ addr ∷ [] })
          (leb addr (address_max p c v)) l l
    call-IsLive (watches_mem addr) v doa l =
        if-Live v (record v { watch_addrs = v.watch_addrs ++ addr ∷ [] })
          (leb addr (address_max p c v)) l l

    any_call-IsLive :
        (k : Call p c) (o : Option (Validator p c)) (doa : Bool)
        → IsLiveValidator o
        → Ends Never (λ r. IsLive r.0) (call p c k (record { rv_validator = o; doa = doa }))
    any_call-IsLive k none doa l = absurd l
    any_call-IsLive k (some v) doa l = call-IsLive k v doa l

    -- Where every call of the rule cache answers, no memory location lacks a tag and the policy code
    -- names a tag for the destination: any calls of `e_v_validate`, `e_v_validate_cached`,
    -- `e_v_commit`, `e_v_flush_rule_cache` and the four functions that set watches, in any order, all
    -- return, each with its result, and leave such a state again. The queries of tags are not among
    -- these calls.
    pub calls-return :
        (ks : List (Call p c)) (s : Simulator p c)
        → IsLive s
        → (s' : Simulator p c) × (results : List ℕ) × (calls p c ks s ≡ ok (s', results))
          × (length results ≡ length ks)
          × IsLive s'
    unfolding calls
    calls-return [] s l = (s, [], refl, refl, l)
    calls-return (k ∷ ks) s l =
        let (r, e, kept) =
          Ends-Never (λ r. IsLive r.0) (call p c k s) (any_call-IsLive k s.rv_validator s.doa l) in
        let (s', results, e', same, kept') = calls-return ks r.0 kept in
        (s', r.1 ∷ results, cc (e, e'), ap suc same, kept')
