-- ===== src/Validator/CommitParts.antt =====
-- The parts of `commit`, validator/riscv/rv_validator.cc, each as an update of the tags.
use hope_policy_engine.Prelude.{
  ℕ, ◌<◌, true, false, not, ◌&&◌, Bool, ◌==◌, if◌then◌else◌, ◌≡◌, refl, ◌⊎◌, inl, inr, List, Option,
  none, some, length, get_or, get_or-set, length-set, set, arith, Bool-cases,
}
use hope_policy_engine.RuleCache.Interface.{RuleCache}
use hope_policy_engine.Tags.Bus.{Bus, read_data, write_data}
use hope_policy_engine.Tags.Bus.Lookup.{AllCover}
use hope_policy_engine.Tags.Bus.Writes.{read_data-write_data}
use hope_policy_engine.Validator.State.{Platform, ok}
use hope_policy_engine.Validator.Outcomes.{at_index-below}
use hope_policy_engine.Validator.Validate.{Validator}
use hope_policy_engine.Validator.Commit.{
  any_eq, commit_pc, watch_entry, commit_rd, commit_mem, commit_csr,
}
use hope_policy_engine.Validator.Safety.{CanCommit}

-- A tag that is there is overwritten.
abbrev pub overwritten : ℕ → Option ℕ → Option ℕ
overwritten tag none = none
overwritten tag (some old) = some tag

module _ (p : Platform) (c : RuleCache) where
  abbrev pub rd_tags : Validator p c → List ℕ
  rd_tags s =
      if s.has_pending_rd && s.res.rd_result && not (s.pending_rd == 0)
      then set s.ireg_tags s.pending_rd s.res.rd
      else s.ireg_tags

  abbrev pub csr_tags : Validator p c → List ℕ
  csr_tags s =
      if s.has_pending_csr && s.res.csr_result
      then set s.csr_tags s.pending_csr s.res.csr
      else s.csr_tags

  pub watch_entry-ok :
      (watched tags : List ℕ) (i tag : ℕ)
      → i < length tags
      → (b : Bool) × (watch_entry p c watched tags i tag ≡ ok b)
  unfolding watch_entry
  watch_entry-ok watched tags i tag h = elim (Bool-cases (any_eq i watched)) [
    | inl is_watched ↦
        let (old, e) = at_index-below tags i h in
        (not (old == tag), rw (is_watched, watch_entry) (rw (e, watch_entry) refl))
    | inr other ↦ (false, rw (other, watch_entry) refl)
  ]

  pub commit_rd-ok :
      (s : Validator p c)
      → length s.ireg_tags ≡ 32
      → CanCommit p s
      → (hit : Bool) × (commit_rd p c s ≡ ok (record s { ireg_tags = rd_tags s }, hit))
  unfolding commit_rd
  commit_rd-ok s e h = elim (Bool-cases (s.has_pending_rd && s.res.rd_result)) [
    | inl writes ↦
        let below : s.pending_rd < 32 = h.rd_below (ground arith) in
        let (hit, w) =
          watch_entry-ok s.watch_regs s.ireg_tags s.pending_rd s.res.rd (omega arith) in
        let (old, there) = at_index-below s.ireg_tags s.pending_rd (omega arith) in
        (hit, ground arith)
    | inr other ↦ (false, ground arith)
  ]

  pub commit_csr-ok :
      (s : Validator p c)
      → length s.csr_tags ≡ 4096
      → CanCommit p s
      → (hit : Bool) × (commit_csr p c s ≡ ok (record s { csr_tags = csr_tags s }, hit))
  unfolding commit_csr
  commit_csr-ok s e h = elim (Bool-cases (s.has_pending_csr && s.res.csr_result)) [
    | inl writes ↦
        let below : s.pending_csr < 4096 = h.csr_below (ground arith) in
        let (hit, w) =
          watch_entry-ok s.watch_csrs s.csr_tags s.pending_csr s.res.csr (omega arith) in
        let (old, there) = at_index-below s.csr_tags s.pending_csr (omega arith) in
        (hit, ground arith)
    | inr other ↦ (false, ground arith)
  ]

  -- The bus is left alone, or the tag of the result is written to it.
  abbrev pub Written : Validator p c → Bus → Type 0
  Written s bus =
      (bus ≡ s.tag_bus) ⊎ (write_data (p.addr_fixer s.mem_addr) s.res.rd s.tag_bus ≡ some bus)

  -- The bus after the commit of a store.
  pub commit_mem-ok :
      (s : Validator p c)
      → AllCover s.tag_bus
      → (hit : Bool) × (bus : Bus) × (commit_mem p c s ≡ (record s { tag_bus = bus }, hit))
        × AllCover bus
        × (read_data (p.addr_fixer s.mem_addr) bus ≡ (
            if s.has_pending_mem && s.res.rd_result
            then overwritten s.res.rd (read_data (p.addr_fixer s.mem_addr) s.tag_bus)
            else read_data (p.addr_fixer s.mem_addr) s.tag_bus))
        × Written s bus
  unfolding commit_mem
  commit_mem-ok s h = elim (Bool-cases (s.has_pending_mem && s.res.rd_result)) [
    | inl writes ↦ elim (read_data-write_data (p.addr_fixer s.mem_addr) s.res.rd s.tag_bus h) [
      | inl (out, full) ↦ (true, s.tag_bus, ground arith, h, ground arith, inl refl)
      | inr (old, bus, before, written, after, covers) ↦ (
        any_eq s.mem_addr s.watch_addrs && not (old == s.res.rd),
        bus,
        rw (writes, commit_mem) (rw (before, commit_mem) (rw (written, commit_mem) refl)),
        covers,
        ground arith,
        inr written,
      )
    ]
    | inr other ↦ (false, s.tag_bus, ground arith, h, ground arith, inl refl)
  ]

  pub commit_pc-ok :
      (s : Validator p c)
      → (hit : Bool) × (commit_pc p c s
          ≡ (record s { pc_tag = if s.res.pc_result then s.res.pc else s.pc_tag }, hit))
  unfolding commit_pc
  commit_pc-ok s = elim (Bool-cases s.res.pc_result) [
    | inl writes ↦ (s.watch_pc && not (s.pc_tag == s.res.pc), ground arith)
    | inr other ↦ (false, ground arith)
  ]

  pub rd_tags_lem :
      (s : Validator p c) (i : ℕ)
      → length s.ireg_tags ≡ 32
      → CanCommit p s
      → get_or (rd_tags s) i 0 ≡ (
          if s.has_pending_rd && s.res.rd_result && not (i == 0) && s.pending_rd == i
          then s.res.rd
          else get_or s.ireg_tags i 0)
  rd_tags_lem s i e can = elim (Bool-cases s.has_pending_rd) [
    | inl has ↦
        let below = can.rd_below has in
        let written = get_or-set s.ireg_tags s.pending_rd i s.res.rd 0 (omega arith) in ground arith
    | inr other ↦ ground arith
  ]

  pub csr_tags_lem :
      (s : Validator p c) (i : ℕ)
      → length s.csr_tags ≡ 4096
      → CanCommit p s
      → get_or (csr_tags s) i 0 ≡ (
          if s.has_pending_csr && s.res.csr_result && s.pending_csr == i
          then s.res.csr
          else get_or s.csr_tags i 0)
  csr_tags_lem s i e can = elim (Bool-cases s.has_pending_csr) [
    | inl has ↦
        let below = can.csr_below has in
        let written = get_or-set s.csr_tags s.pending_csr i s.res.csr 0 (omega arith) in
        ground arith
    | inr other ↦ ground arith
  ]

  pub rd_tags-length : (s : Validator p c) → length (rd_tags s) ≡ length s.ireg_tags
  rd_tags-length s = ground (arith, length-set s.ireg_tags s.pending_rd s.res.rd)

  pub csr_tags-length : (s : Validator p c) → length (csr_tags s) ≡ length s.csr_tags
  csr_tags-length s = ground (arith, length-set s.csr_tags s.pending_csr s.res.csr)
