-- ===== src/Validator/Safety.antt =====
-- The ends of `prepare_eval`, validator/riscv/rv_validator.cc, and the part of the state that it keeps.
use hope_policy_engine.Prelude.{
  ℕ, ◌<◌, true, false, ◌||◌, ◌==◌, ◌≡◌, ◌∙◌, refl, ◌⊎◌, inl, inr, List, Option, none, some, length,
  arith, Bool-cases, Option-cases,
}
use hope_policy_engine.Isa.{DecodedInstruction, bad_tag_value}
use hope_policy_engine.Decoder.Range.{InRange, Below, IsSomeBelow}
use hope_policy_engine.Decoder.Range.Decode.{decode-InRange}
use hope_policy_engine.Tags.Bus.{read_data}
use hope_policy_engine.Tags.Bus.Lookup.{AllCover}
use hope_policy_engine.Validator.State.{Platform, Fault, ok, tmt_miss, ◌>>=◌, at_index, get, State}
use hope_policy_engine.Validator.Outcomes.{
  Ends, Ends-bind, Ends-map, Ends-weaken, Never, at_index-below,
}
use hope_policy_engine.Validator.Prepare.{
  get_or_else, no_register, setup_validation, reg_operand, csr_operand, fetch, memory_address,
  memory_operand, memory, code_operands, prepare_eval,
}

read_csr :
    (xs : List ℕ) (imm : Option ℕ)
    → length xs ≡ 4096
    → IsSomeBelow 4096 imm
    → (t : ℕ) × ((get imm >>= at_index xs) ≡ ok t)
read_csr xs none e h = absurd h
read_csr xs (some i) e h = at_index-below xs i (omega arith)

get-ok : (o : Option ℕ) → IsSomeBelow 32 o → (t : ℕ) × (get o ≡ ok t)
get-ok none h = absurd h
get-ok (some v) h = (v, refl)

pending_rd-Below :
    (rd : Option ℕ)
    → Below 32 rd
    → elim rd [ none ↦ false | some _ ↦ true ] ≡ true
    → get_or_else rd no_register < 32
pending_rd-Below none h e = absurd (cc e)
pending_rd-Below (some v) h e = h

pending_csr-Below : (imm : Option ℕ) → IsSomeBelow 4096 imm → get_or_else imm no_register < 4096
pending_csr-Below none h = absurd h
pending_csr-Below (some v) h = h

module _ (p : Platform) {Cache : Type 0} where
  -- What the constructor sets up: the arrays have their sizes and the vectors cover their providers.
  pub record IsReady (s : State Cache p.MetaSet) : Type 0 where
    pub width : (s.xlen ≡ 32) ⊎ (s.xlen ≡ 64)
    pub regs : length s.ireg_tags ≡ 32
    pub csrs : length s.csr_tags ≡ 4096
    pub covers : AllCover s.tag_bus

  -- What `commit` will write lies within the arrays.
  pub record CanCommit (s : State Cache p.MetaSet) : Type 0 where
    pub rd_below : s.has_pending_rd ≡ true → s.pending_rd < 32
    pub csr_below : s.has_pending_csr ≡ true → s.pending_csr < 4096

  -- The tags of the machine and the rule cache are left alone.
  pub record Keeps (s s' : State Cache p.MetaSet) : Type 0 where
    pub xlen : s'.xlen ≡ s.xlen
    pub tag_bus : s'.tag_bus ≡ s.tag_bus
    pub pc_tag : s'.pc_tag ≡ s.pc_tag
    pub ireg_tags : s'.ireg_tags ≡ s.ireg_tags
    pub csr_tags : s'.csr_tags ≡ s.csr_tags
    pub rule_cache : s'.rule_cache ≡ s.rule_cache
    pub failed : s'.failed ≡ s.failed

  pub Keeps-IsReady : (s s' : State Cache p.MetaSet) → Keeps s s' → IsReady s → IsReady s'
  Keeps-IsReady s s' k r = record {
    width = rw (k.xlen) r.width;
    regs = rw (k.ireg_tags) r.regs;
    csrs = rw (k.csr_tags) r.csrs;
    covers = rw (k.tag_bus) r.covers;
  }

  -- The pending writes are left alone too.
  pub record KeepsPending (s s' : State Cache p.MetaSet) : Type 0 where
    pub has_rd : s'.has_pending_rd ≡ s.has_pending_rd
    pub rd : s'.pending_rd ≡ s.pending_rd
    pub has_csr : s'.has_pending_csr ≡ s.has_pending_csr
    pub csr : s'.pending_csr ≡ s.pending_csr
    pub res : s'.res ≡ s.res

  reg_operand-ok :
      (s : State Cache p.MetaSet) (r : Option ℕ) (op : ℕ)
      → length s.ireg_tags ≡ 32
      → Below 32 r
      → (t : ℕ) × (reg_operand p s r op ≡ ok t)
  unfolding reg_operand
  reg_operand-ok s none op e h = (op, refl)
  reg_operand-ok s (some r) op e h = at_index-below s.ireg_tags r (omega arith)

  csr_operand-ok :
      (s : State Cache p.MetaSet) (inst : DecodedInstruction) (op : ℕ)
      → length s.csr_tags ≡ 4096
      → InRange inst
      → (t : ℕ) × (csr_operand p s inst op ≡ ok t)
  unfolding csr_operand
  csr_operand-ok s inst op e h =
      elim (Bool-cases (inst.flags.has_csr_load || inst.flags.has_csr_store)) [
        | inl is_csr ↦
            let (t, found) = read_csr s.csr_tags inst.imm e (h.csr_below is_csr) in
            (t, rw (is_csr, csr_operand) found)
        | inr other ↦ (op, rw (other, csr_operand) refl)
      ]

  fetch-Ends :
      (s : State Cache p.MetaSet) (inst : DecodedInstruction)
      → IsReady s
      → InRange inst
      → Ends Never (λ s'. Keeps s s' × CanCommit s' × (s'.res ≡ s.res)) (fetch p s inst)
  unfolding fetch
  fetch-Ends s inst r h =
      let (op1, e1) = reg_operand-ok s inst.rs1 s.ops.op1 r.regs h.rs1_below in
      let (csr, e2) = csr_operand-ok s inst s.ops.op2 r.csrs h in
      let (op2, e3) = reg_operand-ok s inst.rs2 csr r.regs h.rs2_below in
      let (op3, e4) = reg_operand-ok s inst.rs3 s.ops.op3 r.regs h.rs3_below in
      rw (e1, fetch)
        (rw (e2, fetch)
          (rw (e3, fetch)
            (rw (e4, fetch)
              (
                ground arith,
                record {
                  rd_below = pending_rd-Below inst.rd h.rd_below;
                  csr_below = λ f. pending_csr-Below inst.imm (h.csr_below (ground arith));
                },
                refl,
              ))))

  memory_address-Ends :
      (reg_reader : ℕ → ℕ) (s : State Cache p.MetaSet) (inst : DecodedInstruction)
      → IsSomeBelow 32 inst.rs1
      → Ends Never (λ s'. Keeps s s' × KeepsPending s s') (memory_address p reg_reader s inst)
  unfolding memory_address
  memory_address-Ends reg_reader s inst h = elim (Bool-cases s.has_insn_mem_addr) [
    | inl given ↦ rw (given, memory_address) (ground arith, ground arith)
    | inr other ↦
        let (rs1, e) = get-ok inst.rs1 h in
        rw (other, memory_address) (rw (e, memory_address) (ground arith, ground arith))
  ]

  -- Where a location without a tag is the end `E`.
  memory_operand-Ends :
      (E : Fault → Type 0) (s : State Cache p.MetaSet)
      → (read_data (p.addr_fixer s.mem_addr) s.tag_bus ≡ some bad_tag_value → E tmt_miss)
      → Ends E (λ s'. Keeps s s' × KeepsPending s s') (memory_operand p s)
  unfolding memory_operand
  memory_operand-Ends E s miss =
      elim (Option-cases (read_data (p.addr_fixer s.mem_addr) s.tag_bus)) [
        | inl out ↦ rw (out, memory_operand) (ground arith, ground arith)
        | inr (t, found) ↦ elim (Bool-cases (t == bad_tag_value)) [
          | inl bad ↦ rw (found, memory_operand) (rw (bad, memory_operand) (miss (ground arith)))
          | inr good ↦
              rw (found, memory_operand) (rw (good, memory_operand) (ground arith, ground arith))
        ]
      ]

  memory-Ends :
      (E : Fault → Type 0) (reg_reader : ℕ → ℕ) (s : State Cache p.MetaSet)
      (inst : DecodedInstruction)
      → InRange inst
      → ((addr : ℕ) → read_data addr s.tag_bus ≡ some bad_tag_value → E tmt_miss)
      → Ends E (λ s'. Keeps s s' × KeepsPending s s') (memory p reg_reader s inst)
  unfolding memory
  memory-Ends E reg_reader s inst h miss =
      elim (Bool-cases (inst.flags.has_load || inst.flags.has_store)) [
        | inl access ↦
            rw (access, memory)
              (Ends-bind E (λ s'. Keeps s s' × KeepsPending s s')
                (λ s'. Keeps s s' × KeepsPending s s') (memory_address p reg_reader s inst)
                (memory_operand p)
                (Ends-weaken Never E (λ s'. Keeps s s' × KeepsPending s s')
                  (memory_address p reg_reader s inst) (λ e f. absurd f)
                  (memory_address-Ends reg_reader s inst (h.base_below access)))
                (λ s1 k1.
                  Ends-map E (λ s'. Keeps s1 s' × KeepsPending s1 s')
                    (λ s'. Keeps s s' × KeepsPending s s') (memory_operand p s1)
                    (λ s2 k2. (ground arith, ground arith))
                    (memory_operand-Ends E s1
                      (λ e. miss (p.addr_fixer s1.mem_addr) (rw (← k1.0.tag_bus) e)))))
        | inr other ↦ rw (other, memory) (ground arith, ground arith)
      ]

  -- The results before the policy has set any are those of `setup_validation`.
  pub prepare_eval-Ends_at :
      (E : Fault → Type 0) (reg_reader : ℕ → ℕ) (pc insn : ℕ) (s : State Cache p.MetaSet)
      → IsReady s
      → ((addr : ℕ) → read_data addr s.tag_bus ≡ some bad_tag_value → E tmt_miss)
      → Ends E
          (λ s'.
            Keeps (record s { failed = false }) s'
            × CanCommit s'
            × (s'.res ≡ (setup_validation p s).res))
          (prepare_eval p reg_reader pc insn s)
  unfolding prepare_eval setup_validation code_operands
  prepare_eval-Ends_at E reg_reader pc insn s r miss =
      let (inst, decoded, h) = decode-InRange insn s.xlen r.width in
      let s0 = setup_validation p (record s { failed = false }) in
      rw (decoded, prepare_eval)
        (Ends-bind E (λ s1. Keeps s0 s1 × CanCommit s1 × (s1.res ≡ s0.res))
          (λ s'.
            Keeps (record s { failed = false }) s'
            × CanCommit s'
            × (s'.res ≡ (setup_validation p s).res))
          (fetch p s0 inst) (λ s1. do s2 ← memory p reg_reader s1 inst; ok (code_operands p pc s2))
          (Ends-weaken Never E (λ s1. Keeps s0 s1 × CanCommit s1 × (s1.res ≡ s0.res))
            (fetch p s0 inst) (λ e f. absurd f)
            (fetch-Ends s0 inst
              (record { width = r.width; regs = r.regs; csrs = r.csrs; covers = r.covers }) h))
          (λ s1 k1.
            Ends-bind E (λ s2. Keeps s1 s2 × KeepsPending s1 s2)
              (λ s'.
                Keeps (record s { failed = false }) s'
                × CanCommit s'
                × (s'.res ≡ (setup_validation p s).res))
              (memory p reg_reader s1 inst) (λ s2. ok (code_operands p pc s2))
              (memory-Ends E reg_reader s1 inst h (λ addr e. miss addr (rw (← k1.0.tag_bus) e)))
              (λ s2 k2. (ground arith, ground arith, k2.1.res ∙ k1.2))))

  -- Preparing an instruction leaves only through a memory location without a tag. Otherwise the tags of
  -- the machine and the rule cache are unchanged, and what `commit` will write lies within the arrays.
  pub prepare_eval-Ends :
      (reg_reader : ℕ → ℕ) (pc insn : ℕ) (s : State Cache p.MetaSet)
      → IsReady s
      → Ends
          (λ e. e ≡ tmt_miss)
          (λ s'. Keeps (record s { failed = false }) s' × CanCommit s')
          (prepare_eval p reg_reader pc insn s)
  prepare_eval-Ends reg_reader pc insn s r =
      Ends-map (λ e. e ≡ tmt_miss)
        (λ s'.
          Keeps (record s { failed = false }) s'
          × CanCommit s'
          × (s'.res ≡ (setup_validation p s).res))
        (λ s'. Keeps (record s { failed = false }) s' × CanCommit s')
        (prepare_eval p reg_reader pc insn s) (λ s' k. (k.0, k.1))
        (prepare_eval-Ends_at (λ e. e ≡ tmt_miss) reg_reader pc insn s r (λ addr e. refl))
