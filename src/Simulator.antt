-- ===== src/Simulator.antt =====
-- The interface that a simulator links with, validator/riscv/main.cc: the validator behind it and the
-- flag DOA. The 32-bit results are numbers; `bool*` is written where the result has a flag.
pub mod Stopped
pub mod Progress
use hope_policy_engine.Prelude.{
  ℕ, ◌-◌, ◌^◌, ltb, leb, ◌==◌, Bool, true, false, ◌||◌, if◌then◌else◌, List, [], ◌∷◌, ◌++◌, Option,
  none, some,
}
use hope_policy_engine.Isa.{bad_tag_value}
use hope_policy_engine.RuleCache.Interface.{RuleCache}
use hope_policy_engine.Tags.Bus.{read_data}
use hope_policy_engine.Tags.MetaCache.{canonize, at}
use hope_policy_engine.Validator.State.{
  Platform, Outcome, ok, fault, Fault, invalid_argument, not_defined, tmt_miss, out_of_range,
  null_pointer, configuration, ◌>>=◌, at_index,
}
use hope_policy_engine.Validator.Validate.{Validator, validate, validate_cached, flush_rule_cache}
use hope_policy_engine.Validator.Commit.{commit}

-- a `bool` as a `uint32_t`
abbrev pub as_word : Bool → ℕ
as_word true = 1
as_word false = 0

-- The faults that are C++ exceptions, which `catch (...)` takes.
abbrev pub is_exception : Fault → Bool
is_exception invalid_argument = true
is_exception not_defined = true
is_exception tmt_miss = true
is_exception out_of_range = true
is_exception configuration = true
is_exception _ = false

-- what a tag query writes: the words "Out of range", or the text of a metadata set
pub data Shown (M : Type 0) : Type 0 where
  not_shown : Shown M
  shown : M → Shown M

module _ (p : Platform) (c : RuleCache) where
  pub record Simulator : Type 0 where
    pub rv_validator : Option (Validator p c)
    pub doa : Bool

  -- `rv_validator->`
  unfoldable pub deref : Simulator → Outcome (Validator p c)
  deref s = elim s.rv_validator [ none ↦ fault null_pointer | some v ↦ ok v ]

  abbrev pub address_max : Validator p c → ℕ
  address_max v = if ltb v.xlen 64 then 2 ^ v.xlen - 1 else 2 ^ 64 - 1

  unfoldable pub e_v_validate : (ℕ → ℕ) → ℕ → ℕ → Simulator → Outcome (Simulator × ℕ)
  e_v_validate reg_reader pc instr s = do
    v ← deref s
    if ltb (address_max v) pc
        then ok (record s { doa = true }, 0)
        else if s.doa
        then ok (s, 0)
        else (do
          r ← validate p c reg_reader pc instr v
          ok (record s { rv_validator = some r.0 }, as_word r.1))

  -- with `*hit`, where the call writes it
  unfoldable pub e_v_validate_cached :
      (ℕ → ℕ) → ℕ → ℕ → ℕ → Simulator → Outcome (Simulator × ℕ × Option Bool)
  e_v_validate_cached reg_reader pc instr mem_addr s = do
    v ← deref s
    if ltb (address_max v) pc || ltb (address_max v) mem_addr
        then ok (record s { doa = true }, 0, none)
        else if s.doa
        then ok (s, 0, none)
        else (do
          r ← validate_cached p c reg_reader pc instr mem_addr v
          ok (record s { rv_validator = some r.0 }, as_word r.1, some r.2))

  -- `catch (...)`: the model has no exception from `commit`, so the state there is the one before.
  unfoldable pub caught : Simulator → Outcome (Validator p c × Bool) → Outcome (Simulator × ℕ)
  caught s (ok r) = ok (record s { rv_validator = some r.0 }, as_word r.1)
  caught s (fault e) = if is_exception e then ok (record s { doa = true }, 0) else fault e

  unfoldable pub e_v_commit : Simulator → Outcome (Simulator × ℕ)
  e_v_commit s = if s.doa then ok (s, 0) else (do v ← deref s; caught s (commit p c v))

  -- a call that only changes the validator
  unfoldable pub update : (Validator p c → Validator p c) → Simulator → Outcome Simulator
  update f s = do v ← deref s; ok (record s { rv_validator = some (f v) })

  unfoldable pub e_v_flush_rule_cache : Simulator → Outcome Simulator
  e_v_flush_rule_cache s = update (flush_rule_cache p c) s

  unfoldable pub e_v_set_pc_watch : Bool → Simulator → Outcome Simulator
  e_v_set_pc_watch watching s = update (λ v. record v { watch_pc = watching }) s

  -- An address out of range is reported, and not watched.
  unfoldable pub e_v_set_reg_watch : ℕ → Simulator → Outcome Simulator
  e_v_set_reg_watch addr s =
      update
        (λ v.
          if leb addr (address_max v)
          then record v { watch_regs = v.watch_regs ++ addr ∷ [] }
          else v)
        s

  unfoldable pub e_v_set_csr_watch : ℕ → Simulator → Outcome Simulator
  e_v_set_csr_watch addr s =
      update
        (λ v.
          if leb addr (address_max v)
          then record v { watch_csrs = v.watch_csrs ++ addr ∷ [] }
          else v)
        s

  unfoldable pub e_v_set_mem_watch : ℕ → Simulator → Outcome Simulator
  e_v_set_mem_watch addr s =
      update
        (λ v.
          if leb addr (address_max v)
          then record v { watch_addrs = v.watch_addrs ++ addr ∷ [] }
          else v)
        s

  -- `ms_cache[tag]`
  unfoldable pub meta_set_of : Validator p c → ℕ → Outcome (Shown p.MetaSet)
  meta_set_of v tag = elim (at ⦃eq = p.meta_set_eq⦄ v.ms_cache tag) [
    | none ↦ fault out_of_range
    | some m ↦ ok (shown m)
  ]

  unfoldable pub e_v_pc_tag : Simulator → Outcome (Shown p.MetaSet)
  e_v_pc_tag s = do v ← deref s; meta_set_of v v.pc_tag

  unfoldable pub e_v_csr_tag : ℕ → Simulator → Outcome (Shown p.MetaSet)
  e_v_csr_tag addr s =
      if ltb addr 0x1000
      then (do v ← deref s; tag ← at_index v.csr_tags addr; meta_set_of v tag)
      else ok not_shown

  unfoldable pub e_v_reg_tag : ℕ → Simulator → Outcome (Shown p.MetaSet)
  e_v_reg_tag addr s =
      if ltb addr 32
      then (do v ← deref s; tag ← at_index v.ireg_tags addr; meta_set_of v tag)
      else ok not_shown

  unfoldable pub e_v_mem_tag : ℕ → Simulator → Outcome (Shown p.MetaSet)
  e_v_mem_tag addr s = do
    v ← deref s
    if leb addr (address_max v)
        then elim (read_data addr v.tag_bus) [
          | none ↦ fault out_of_range
          | some tag ↦ meta_set_of v tag
        ]
        else ok not_shown

  -- The tag, or `BAD_TAG_VALUE` without a validator.
  unfoldable pub canonize_set : p.MetaSet → Simulator → Simulator × ℕ
  canonize_set ts s = elim s.rv_validator [
    | none ↦ (s, bad_tag_value)
    | some v ↦
        let r = canonize ⦃eq = p.meta_set_eq⦄ ts v.ms_cache in
        (record s { rv_validator = some (record v { ms_cache = r.1 }) }, r.0)
  ]

  -- `not_shown` is the null pointer.
  unfoldable pub get_ms : ℕ → Simulator → Outcome (Shown p.MetaSet)
  get_ms tag s = if tag == bad_tag_value then ok not_shown else (do v ← deref s; meta_set_of v tag)

  -- The calls of a simulation, each with the registers that it finds.
  pub data Call : Type 0 where
    validates : (ℕ → ℕ) → ℕ → ℕ → Call
    validates_cached : (ℕ → ℕ) → ℕ → ℕ → ℕ → Call
    commits flushes : Call
    watches_pc : Bool → Call
    watches_reg watches_csr watches_mem : ℕ → Call

  -- a call without a result
  unfoldable pub silent : Outcome Simulator → Outcome (Simulator × ℕ)
  silent m = do s ← m; ok (s, 0)

  unfoldable pub call : Call → Simulator → Outcome (Simulator × ℕ)
  call (validates reg_reader pc instr) s = e_v_validate reg_reader pc instr s
  call (validates_cached reg_reader pc instr mem_addr) s = do
    r ← e_v_validate_cached reg_reader pc instr mem_addr s
    ok (r.0, r.1)
  call commits s = e_v_commit s
  call flushes s = silent (e_v_flush_rule_cache s)
  call (watches_pc watching) s = silent (e_v_set_pc_watch watching s)
  call (watches_reg addr) s = silent (e_v_set_reg_watch addr s)
  call (watches_csr addr) s = silent (e_v_set_csr_watch addr s)
  call (watches_mem addr) s = silent (e_v_set_mem_watch addr s)

  -- the results of the calls, in order
  unfoldable pub calls : List Call → Simulator → Outcome (Simulator × List ℕ)
  calls [] s = ok (s, [])
  calls (k ∷ ks) s = do r ← call k s; rest ← calls ks r.0; ok (rest.0, r.1 ∷ rest.1)
