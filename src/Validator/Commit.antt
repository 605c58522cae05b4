-- ===== src/Validator/Commit.antt =====
-- `commit` of validator/riscv/rv_validator.cc: the results become tags, and the rule goes to the cache.
use hope_policy_engine.Prelude.{
  ℕ, Bool, true, false, not, ◌&&◌, ◌||◌, ◌==◌, if◌then◌else◌, List, [], ◌∷◌, Option, none, some,
  set,
}
use hope_policy_engine.Isa.{Results}
use hope_policy_engine.RuleCache.Interface.{RuleCache}
use hope_policy_engine.Tags.Bus.{read_data, write_data}
use hope_policy_engine.Validator.State.{Platform, Outcome, ok, ◌>>=◌, at_index}
use hope_policy_engine.Validator.Validate.{Validator, lift}

abbrev pub any_eq : ℕ → List ℕ → Bool
any_eq x [] = false
any_eq x (w ∷ ws) = x == w || any_eq x ws

module _ (p : Platform) (c : RuleCache) where
  -- Each part gives the state and whether a watched tag changed.
  unfoldable pub commit_pc : Validator p c → Validator p c × Bool
  commit_pc s =
      if s.res.pc_result
      then (record s { pc_tag = s.res.pc }, s.watch_pc && not (s.pc_tag == s.res.pc))
      else (s, false)

  -- a watched entry of a tag array that is about to change
  unfoldable pub watch_entry : List ℕ → List ℕ → ℕ → ℕ → Outcome Bool
  watch_entry watched tags i tag =
      if any_eq i watched then (do old ← at_index tags i; ok (not (old == tag))) else ok false

  -- Register 0 keeps its tag.
  unfoldable pub commit_rd : Validator p c → Outcome (Validator p c × Bool)
  commit_rd s =
      if s.has_pending_rd && s.res.rd_result
      then (do
        hit ← watch_entry s.watch_regs s.ireg_tags s.pending_rd s.res.rd
        if s.pending_rd == 0 then ok (s, hit) else (do
          _ ← at_index s.ireg_tags s.pending_rd
          ok (record s { ireg_tags = set s.ireg_tags s.pending_rd s.res.rd }, hit)))
      else ok (s, false)

  -- A tag that cannot be loaded or stored counts as a hit of a watch.
  unfoldable pub commit_mem : Validator p c → Validator p c × Bool
  commit_mem s =
      let addr = p.addr_fixer s.mem_addr in
      if s.has_pending_mem && s.res.rd_result
      then elim (read_data addr s.tag_bus) [
        | none ↦ (
          elim (write_data addr s.res.rd s.tag_bus) [
            | none ↦ s
            | some bus ↦ record s { tag_bus = bus }
          ],
          true,
        )
        | some old ↦ elim (write_data addr s.res.rd s.tag_bus) [
          | none ↦ (s, true)
          | some bus ↦
              (record s { tag_bus = bus }, any_eq s.mem_addr s.watch_addrs && not (old == s.res.rd))
        ]
      ]
      else (s, false)

  unfoldable pub commit_csr : Validator p c → Outcome (Validator p c × Bool)
  commit_csr s =
      if s.has_pending_csr && s.res.csr_result
      then (do
        hit ← watch_entry s.watch_csrs s.csr_tags s.pending_csr s.res.csr
        _ ← at_index s.csr_tags s.pending_csr
        ok (record s { csr_tags = set s.csr_tags s.pending_csr s.res.csr }, hit))
      else ok (s, false)

  -- `allow` overwrites the results on a hit; on a miss the rule is installed.
  unfoldable pub answered : Validator p c → Option Results → c.State → Outcome (Validator p c)
  answered s (some res) cache = ok (record s { rule_cache = some cache; res = res })
  answered s none cache = do
    cache' ← lift (c.install_rule s.ops s.res cache)
    ok (record s { rule_cache = some cache' })

  unfoldable pub refresh : Validator p c → Option c.State → Outcome (Validator p c)
  refresh s none = ok s
  refresh s (some cache) =
      if s.ctx.cached then (do r ← lift (c.allow s.ops cache); answered s r.0 r.1) else ok s

  unfoldable pub commit : Validator p c → Outcome (Validator p c × Bool)
  commit s = do
    let r1 = commit_pc s
    r2 ← commit_rd r1.0
    let r3 = commit_mem r2.0
    r4 ← commit_csr r3.0
    s5 ← refresh r4.0 r4.0.rule_cache
    ok (s5, r1.1 || r2.1 || r3.1 || r4.1)
