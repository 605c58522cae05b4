-- ===== src/Validator/Prepare.antt =====
-- `setup_validation` and `prepare_eval` of validator/riscv/rv_validator.cc: the operands of an
-- instruction.
use hope_policy_engine.Prelude.{
  ℕ, ◌+◌, ◌-◌, ◌%◌, ◌^◌, true, false, ◌||◌, ltb, ◌==◌, if◌then◌else◌, Option, none, some,
}
use hope_policy_engine.Isa.{DecodedInstruction, bad_tag_value}
use hope_policy_engine.Decoder.Decode.{decode}
use hope_policy_engine.Tags.Bus.{read_data, read_insn}
use hope_policy_engine.Tags.MetaCache.{canonize}
use hope_policy_engine.Validator.State.{
  Platform, Outcome, ok, fault, invalid_argument, tmt_miss, ◌>>=◌, at_index, get, State,
}

-- -1 as a `uint32_t`
abbrev pub no_register : ℕ
no_register = 0xffffffff

abbrev pub get_or_else : Option ℕ → ℕ → ℕ
get_or_else none d = d
get_or_else (some v) d = v

-- an `int` pattern added to a 64-bit address
unfoldable pub add_offset : ℕ → ℕ → ℕ
add_offset addr imm = (addr + (if ltb imm (2 ^ 31) then imm else imm + (2 ^ 64 - 2 ^ 32))) % 2 ^ 64

module _ (p : Platform) {Cache : Type 0} where
  -- Three calls of `canonize` with the empty set.
  unfoldable pub setup_validation : State Cache p.MetaSet → State Cache p.MetaSet
  setup_validation s =
      let r0 = canonize ⦃eq = p.meta_set_eq⦄ p.empty s.ms_cache in
      let r1 = canonize ⦃eq = p.meta_set_eq⦄ p.empty r0.1 in
      let r2 = canonize ⦃eq = p.meta_set_eq⦄ p.empty r1.1 in
      record s {
        ms_cache = r2.1;
        ctx = record {
          epc = 0;
          bad_addr = 0;
          policy_result = 0;
          fail_msg = "";
          rule_str = "";
          cached = true;
        };
        ops = record {
          pc = bad_tag_value;
          ci = bad_tag_value;
          op1 = bad_tag_value;
          op2 = bad_tag_value;
          op3 = bad_tag_value;
          mem = bad_tag_value;
        };
        res = record {
          pc = r0.0;
          rd = r1.0;
          csr = r2.0;
          pc_result = false;
          rd_result = false;
          csr_result = false;
        };
      }

  -- `if (reg) op = ireg_tags[reg];`
  unfoldable pub reg_operand : State Cache p.MetaSet → Option ℕ → ℕ → Outcome ℕ
  reg_operand s none op = ok op
  reg_operand s (some r) op = at_index s.ireg_tags r

  -- `if (has_csr_load || has_csr_store) op = csr_tags[inst.imm];`
  unfoldable pub csr_operand : State Cache p.MetaSet → DecodedInstruction → ℕ → Outcome ℕ
  csr_operand s inst op =
      if inst.flags.has_csr_load || inst.flags.has_csr_store
      then get inst.imm >>= at_index s.csr_tags
      else ok op

  -- the register operands, and what `commit` will write
  unfoldable pub fetch :
      State Cache p.MetaSet → DecodedInstruction → Outcome (State Cache p.MetaSet)
  fetch s inst = do
    op1 ← reg_operand s inst.rs1 s.ops.op1
    csr ← csr_operand s inst s.ops.op2
    op2 ← reg_operand s inst.rs2 csr
    op3 ← reg_operand s inst.rs3 s.ops.op3
    ok (record s {
      ops = record {
        pc = s.ops.pc;
        ci = s.ops.ci;
        op1 = op1;
        op2 = op2;
        op3 = op3;
        mem = s.ops.mem;
      };
      pending_rd = get_or_else inst.rd no_register;
      has_pending_csr = inst.flags.has_csr_store;
      has_pending_rd = elim inst.rd [ none ↦ false | some _ ↦ true ];
      has_pending_mem = inst.flags.has_store;
      pending_csr = get_or_else inst.imm no_register;
    })

  -- the address of a load or store: handed in by the simulator, or from the base register
  unfoldable pub memory_address :
      (ℕ → ℕ) → State Cache p.MetaSet → DecodedInstruction → Outcome (State Cache p.MetaSet)
  memory_address reg_reader s inst =
      if s.has_insn_mem_addr then ok (record s { has_insn_mem_addr = false }) else do
        rs1 ← get inst.rs1
        let base = reg_reader rs1 % 2 ^ 64
        ok (record s { mem_addr = elim inst.imm [ none ↦ base | some imm ↦ add_offset base imm ] })

  -- the memory operand; the exception out of range is caught, the TMT miss is not
  unfoldable pub memory_operand : State Cache p.MetaSet → Outcome (State Cache p.MetaSet)
  memory_operand s =
      let s' = record s { ctx = record s.ctx { bad_addr = s.mem_addr } } in
      elim (read_data (p.addr_fixer s.mem_addr) s.tag_bus) [
        | none ↦ ok s'
        | some t ↦
            if t == bad_tag_value
            then fault tmt_miss
            else ok (record s' { ops = record s.ops { mem = t } })
      ]

  unfoldable pub memory :
      (ℕ → ℕ) → State Cache p.MetaSet → DecodedInstruction → Outcome (State Cache p.MetaSet)
  memory reg_reader s inst =
      if inst.flags.has_load || inst.flags.has_store
      then memory_address reg_reader s inst >>= memory_operand
      else ok s

  -- the tags of the code and of the environment
  unfoldable pub code_operands : ℕ → State Cache p.MetaSet → State Cache p.MetaSet
  code_operands pc s = record s {
    ctx = record s.ctx { epc = pc };
    ops = record s.ops {
      pc = s.pc_tag;
      ci = get_or_else (read_insn (p.addr_fixer pc) s.tag_bus) bad_tag_value;
    };
  }

  -- An instruction that cannot be decoded is reported, and evaluated without operands.
  unfoldable pub prepare_eval :
      (ℕ → ℕ) → ℕ → ℕ → State Cache p.MetaSet → Outcome (State Cache p.MetaSet)
  prepare_eval reg_reader pc insn s =
      let s0 = setup_validation (record s { failed = false }) in
      elim (decode insn s.xlen) [
        | none ↦ fault invalid_argument
        | some inst ↦ do
          s1 ← fetch s0 inst
          s2 ← memory reg_reader s1 inst
          ok (code_operands pc s2)
      ]
