-- ===== src/Validator/Live.antt =====
-- When the calls of validator/riscv/rv_validator.cc return: a bus without `BAD_TAG_VALUE` keeps every
-- memory operand, and then only the rule cache can end the program.
pub mod Calls
use hope_policy_engine.Prelude.{
  ℕ, true, false, ◌==◌, ◌≡◌, refl, subst, length, ◌<◌, Bool, ◌⊎◌, List, Option, none, some, arith,
  Bool-cases, Option-cases, inl, inr, ◌≢◌,
}
use hope_policy_engine.Isa.{Context, Operands, Results}
use hope_policy_engine.RuleCache.Run
use hope_policy_engine.RuleCache.Run.{Run}
use hope_policy_engine.RuleCache.Interface.{RuleCache}
use hope_policy_engine.Tags.Bus.{Bus}
use hope_policy_engine.Tags.Bus.Lookup.{AllCover}
use hope_policy_engine.Tags.Bus.NoMiss.{IsTag, NoMiss, read_data-IsTag, write_data-NoMiss}
use hope_policy_engine.Tags.MetaCache.{at-canonize, canonize}
use hope_policy_engine.Validator.State.{Platform, ok, Fault, policy_success}
use hope_policy_engine.Validator.Outcomes.{Ends, Ends-bind, Ends-if}
use hope_policy_engine.Validator.Prepare.{setup_validation, prepare_eval}
use hope_policy_engine.Validator.Validate.{
  Validator, lift, count, handle_violation, evaluate, judge, consult, validate, count_again,
  validate_cached, flush_rule_cache,
}
use hope_policy_engine.Validator.Commit.{answered, refresh, commit}
use hope_policy_engine.Validator.CommitParts.{Written, rd_tags-length, csr_tags-length}
use hope_policy_engine.Validator.CommitSafety.{tagged, commit-parts}
use hope_policy_engine.Validator.Safety.{
  IsReady, CanCommit, Keeps, Keeps-IsReady, prepare_eval-Ends_at,
}

-- From results with a tag for the destination, the policy code leaves results with one.
abbrev pub NamesTags : Platform → Type 0
NamesTags p =
    (ctx : Context) (q : Operands) (r : Results) → IsTag r.rd → IsTag (p.eval_policy ctx q r).2.rd

abbrev pub HasTag : Operands → Results → Type 0
HasTag q r = IsTag r.rd

-- Every call of the cache answers, or ends the program in one of the ways of `E`.
pub record Answers (E : Fault → Type 0) (c : RuleCache) : Type 0 where
  pub allows :
      (q : Operands) (s : c.State) → Ends E (λ r. c.allow q s ≡ Run.ok r) (lift (c.allow q s))
  pub installs :
      (q : Operands) (r : Results) (s : c.State)
      → Ends E (λ s'. c.install_rule q r s ≡ Run.ok s') (lift (c.install_rule q r s))

module _ (p : Platform) (c : RuleCache) where
  abbrev pub CacheTagged : Option c.State → Type 0
  CacheTagged none = Unit
  CacheTagged (some cache) = c.Entries HasTag cache

  -- What holds between the calls, of the parts of the state that it is about: the register width, the tags
  -- of the registers, CSRs and memory, the pending writes, the tag for the destination and the cache.
  pub record LiveAt (xlen : ℕ) (regs csrs : List ℕ) (bus : Bus) (has_rd : Bool) (rd : ℕ)
      (has_csr : Bool) (csr tag : ℕ) (cache : Option c.State) : Type 0 where
    pub width : (xlen ≡ 32) ⊎ (xlen ≡ 64)
    pub regs_length : length regs ≡ 32
    pub csrs_length : length csrs ≡ 4096
    pub covers : AllCover bus
    pub rd_below : has_rd ≡ true → rd < 32
    pub csr_below : has_csr ≡ true → csr < 4096
    pub no_miss : NoMiss bus
    pub res_tagged : IsTag tag
    pub cache_tagged : CacheTagged cache

  abbrev pub Live : Validator p c → Type 0
  Live s =
      LiveAt s.xlen s.ireg_tags s.csr_tags s.tag_bus s.has_pending_rd s.pending_rd s.has_pending_csr
        s.pending_csr s.res.rd s.rule_cache

  pub live :
      (s : Validator p c)
      → IsReady p s
      → CanCommit p s
      → NoMiss s.tag_bus
      → IsTag s.res.rd
      → CacheTagged s.rule_cache
      → Live s
  live s ready can no_miss tag cache = record {
    width = ready.width;
    regs_length = ready.regs;
    csrs_length = ready.csrs;
    covers = ready.covers;
    rd_below = can.rd_below;
    csr_below = can.csr_below;
    no_miss = no_miss;
    res_tagged = tag;
    cache_tagged = cache;
  }

  pub Live-IsReady : (s : Validator p c) → Live s → IsReady p s
  Live-IsReady s l = record {
    width = l.width;
    regs = l.regs_length;
    csrs = l.csrs_length;
    covers = l.covers;
  }

  pub Live-CanCommit : (s : Validator p c) → Live s → CanCommit p s
  Live-CanCommit s l = record { rd_below = l.rd_below; csr_below = l.csr_below }

  canonize-IsTag :
      (m : p.MetaSet) (sets : List p.MetaSet) → IsTag (canonize ⦃eq = p.meta_set_eq⦄ m sets).0
  canonize-IsTag m sets = ground (arith, (at-canonize ⦃eq = p.meta_set_eq⦄ m sets).0)

  pub setup_validation-IsTag : (s : Validator p c) → IsTag (setup_validation p s).res.rd
  unfolding setup_validation
  setup_validation-IsTag s = canonize-IsTag p.empty _

  pub evaluate-Live : NamesTags p → (s : Validator p c) → Live s → Live (evaluate p c s).0
  unfolding evaluate handle_violation
  evaluate-Live names s l =
      elim (Bool-cases ((p.eval_policy s.ctx s.ops s.res).0 == policy_success)) [
        | inl allowed ↦ rw (allowed, evaluate) named
        | inr refused ↦
            rw (refused, evaluate)
              (elim (Bool-cases s.failed) [
                | inl again ↦ rw (again, handle_violation) named
                | inr first ↦ rw (first, handle_violation) named
              ])
      ]
    where
      named : Live (record s { res = (p.eval_policy s.ctx s.ops s.res).2 })
      named = record {
        width = l.width;
        regs_length = l.regs_length;
        csrs_length = l.csrs_length;
        covers = l.covers;
        rd_below = l.rd_below;
        csr_below = l.csr_below;
        no_miss = l.no_miss;
        res_tagged = names s.ctx s.ops s.res l.res_tagged;
        cache_tagged = l.cache_tagged;
      }

  -- Another cache, and results with a tag.
  pub recached :
      (s : Validator p c) (cache : Option c.State) (r : Results)
      → Live s
      → IsTag r.rd
      → CacheTagged cache
      → Live (record s { rule_cache = cache; res = r })
  recached s cache r l tag sound = record {
    width = l.width;
    regs_length = l.regs_length;
    csrs_length = l.csrs_length;
    covers = l.covers;
    rd_below = l.rd_below;
    csr_below = l.csr_below;
    no_miss = l.no_miss;
    res_tagged = tag;
    cache_tagged = sound;
  }

  pub judge-Live :
      NamesTags p
      → (s : Validator p c) (cache : c.State) (answer : Option Results) (cache' : c.State) → Live s
      → c.Entries HasTag cache
      → c.allow s.ops cache ≡ Run.ok (answer, cache')
      → Live (judge p c s answer cache').0
  unfolding judge
  judge-Live names s cache (some res) cache' l sound e =
      let (stored, matches, tag, kept) = c.allow-hit HasTag s.ops cache sound e in
      recached s (some cache') res l tag kept
  judge-Live names s cache none cache' l sound e =
      evaluate-Live names
        (record s {
          rule_cache = some cache';
          rule_cache_misses = count s.rule_cache_misses;
          rule_cache_hit = false;
        })
        (recached s (some cache') s.res l l.res_tagged (c.allow-miss HasTag s.ops cache sound e))
