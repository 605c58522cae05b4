-- ===== src/Validator/CommitSafety.antt =====
-- The ends of `commit`, validator/riscv/rv_validator.cc, and the tags that it leaves.
use hope_policy_engine.Prelude.{
  ℕ, not, ◌&&◌, ◌||◌, Bool, ◌==◌, if◌then◌else◌, ◌≡◌, refl, ◌∙◌, Option, none, some, get_or,
}
use hope_policy_engine.Isa.{Results}
use hope_policy_engine.RuleCache.Run.{Run}
use hope_policy_engine.RuleCache.Interface.{RuleCache}
use hope_policy_engine.Tags.Bus.{Bus, read_data}
use hope_policy_engine.Tags.Bus.Lookup.{AllCover}
use hope_policy_engine.Validator.State.{
  Platform, ok, Fault, cache_abort, cache_out_of_bounds, cache_exit, ◌>>=◌,
}
use hope_policy_engine.Validator.Outcomes.{Ends, Ends-bind, Ends-if}
use hope_policy_engine.Validator.Validate.{Validator, lift}
use hope_policy_engine.Validator.Commit.{answered, refresh, commit}
use hope_policy_engine.Validator.CommitParts.{
  overwritten, Written, rd_tags, csr_tags, commit_pc-ok, commit_rd-ok, commit_csr-ok, commit_mem-ok,
  rd_tags_lem, csr_tags_lem, rd_tags-length, csr_tags-length,
}
use hope_policy_engine.Validator.Safety.{IsReady, CanCommit}

-- The rule cache has ended the program.
abbrev pub IsCacheEnd : Fault → Type 0
IsCacheEnd cache_abort = Unit
IsCacheEnd cache_out_of_bounds = Unit
IsCacheEnd (cache_exit n) = Unit
IsCacheEnd _ = ⊥

lift-Ends : {A : Type 0} (r : Run A) → Ends IsCacheEnd (λ a. Unit) (lift r)
lift-Ends (Run.ok a) = tt
lift-Ends (Run.stop n) = tt
lift-Ends Run.abort = tt
lift-Ends Run.out_of_bounds = tt

module _ (p : Platform) (c : RuleCache) where
  -- The tags after a commit, by those before it and the results of the policy.
  pub record Committed (s s' : Validator p c) : Type 0 where
    pub pc_tag : s'.pc_tag ≡ (if s.res.pc_result then s.res.pc else s.pc_tag)
    pub ireg_tags :
        (i : ℕ)
        → get_or s'.ireg_tags i 0 ≡ (
            if s.has_pending_rd && s.res.rd_result && not (i == 0) && s.pending_rd == i
            then s.res.rd
            else get_or s.ireg_tags i 0)
    pub csr_tags :
        (i : ℕ)
        → get_or s'.csr_tags i 0 ≡ (
            if s.has_pending_csr && s.res.csr_result && s.pending_csr == i
            then s.res.csr
            else get_or s.csr_tags i 0)
    pub memory : read_data (p.addr_fixer s.mem_addr) s'.tag_bus ≡ (
        if s.has_pending_mem && s.res.rd_result
        then overwritten s.res.rd (read_data (p.addr_fixer s.mem_addr) s.tag_bus)
        else read_data (p.addr_fixer s.mem_addr) s.tag_bus)

  -- Only the cache and the results change.
  abbrev Refreshed : Validator p c → Validator p c → Type 0
  Refreshed s s' =
      (rest : Option c.State) × (r : Results) × (s' ≡ record s { rule_cache = rest; res = r })

  answered-Ends :
      (s : Validator p c) (answer : Option Results) (cache : c.State)
      → Ends IsCacheEnd (Refreshed s) (answered p c s answer cache)
  unfolding answered
  answered-Ends s (some r) cache = (some cache, r, refl)
  answered-Ends s none cache =
      Ends-bind IsCacheEnd (λ _. Unit) (Refreshed s) (lift (c.install_rule s.ops s.res cache))
        (λ cache'. ok (record s { rule_cache = some cache' }))
        (lift-Ends (c.install_rule s.ops s.res cache)) (λ cache' _. (some cache', s.res, refl))

  refresh-Ends :
      (s : Validator p c) (o : Option c.State) → Ends IsCacheEnd (Refreshed s) (refresh p c s o)
  unfolding refresh
  refresh-Ends s none = (s.rule_cache, s.res, refl)
  refresh-Ends s (some cache) =
      Ends-if IsCacheEnd (Refreshed s) s.ctx.cached _ _
        (Ends-bind IsCacheEnd (λ _. Unit) (Refreshed s) (lift (c.allow s.ops cache))
          (λ r. answered p c s r.0 r.1) (lift-Ends (c.allow s.ops cache))
          (λ r _. answered-Ends s r.0 r.1))
        (s.rule_cache, s.res, refl)

  -- The state after the tags are written, on the bus given.
  abbrev pub tagged : Validator p c → Bus → Validator p c
  tagged s bus = record s {
    pc_tag = if s.res.pc_result then s.res.pc else s.pc_tag;
    ireg_tags = rd_tags p c s;
    csr_tags = csr_tags p c s;
    tag_bus = bus;
  }

  -- The tags are written without a fault, and what is left of the commit is the rule cache.
  pub commit-parts :
      (s : Validator p c)
      → IsReady p s
      → CanCommit p s
      → (hit : Bool) × (bus : Bus) × (commit p c s
          ≡ (do s' ← refresh p c (tagged s bus) s.rule_cache; ok (s', hit)))
        × AllCover bus
        × (read_data (p.addr_fixer s.mem_addr) bus ≡ (
            if s.has_pending_mem && s.res.rd_result
            then overwritten s.res.rd (read_data (p.addr_fixer s.mem_addr) s.tag_bus)
            else read_data (p.addr_fixer s.mem_addr) s.tag_bus))
        × Written p c s bus
  unfolding commit
  commit-parts s ready can =
      let (hit1, e1) = commit_pc-ok p c s in
      let s1 = record s { pc_tag = if s.res.pc_result then s.res.pc else s.pc_tag } in
      let can1 : CanCommit p s1 = record { rd_below = can.rd_below; csr_below = can.csr_below } in
      let (hit2, e2) = commit_rd-ok p c s1 ready.regs can1 in
      let s2 = record s1 { ireg_tags = rd_tags p c s } in
      let (hit3, bus, e3, covers, after, written) = commit_mem-ok p c s2 ready.covers in
      let s3 = record s2 { tag_bus = bus } in
      let can3 : CanCommit p s3 = record { rd_below = can.rd_below; csr_below = can.csr_below } in
      let (hit4, e4) = commit_csr-ok p c s3 ready.csrs can3 in
      (
        hit1 || hit2 || hit3 || hit4,
        bus,
        rw (e1, commit) (rw (e2, commit) (rw (e3, commit) (rw (e4, commit) refl))),
        covers,
        after,
        written,
      )

  -- A commit after a preparation leaves only where the rule cache ends the program. Otherwise the tag of
  -- the program counter, of every register and CSR, and of the memory location are those that the results
  -- name, where they apply; register 0 keeps its tag; and the validator stays ready.
  pub commit-Ends :
      (s : Validator p c)
      → IsReady p s
      → CanCommit p s
      → Ends IsCacheEnd (λ r. IsReady p r.0 × Committed s r.0) (commit p c s)
  commit-Ends s ready can =
      let (hit, bus, e, covers, after, _) = commit-parts s ready can in
      rw (e) (
        Ends-bind IsCacheEnd (Refreshed (tagged s bus)) (λ r. IsReady p r.0 × Committed s r.0)
          (refresh p c (tagged s bus) s.rule_cache) (λ s'. ok (s', hit))
          (refresh-Ends (tagged s bus) s.rule_cache)
          (λ s' (rest, r, same). rw (same) (
            record {
              width = ready.width;
              regs = rd_tags-length p c s ∙ ready.regs;
              csrs = csr_tags-length p c s ∙ ready.csrs;
              covers = covers;
            },
            record {
              pc_tag = refl;
              ireg_tags = λ i. rd_tags_lem p c s i ready.regs can;
              csr_tags = λ i. csr_tags_lem p c s i ready.csrs can;
              memory = after;
            },
          )))
