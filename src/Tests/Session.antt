-- ===== src/Tests/Session.antt =====
-- The validator on the small machine.
use hope_policy_engine.Prelude.{refl, ◌≡◌, true, false, inl, get_or, arith}
use hope_policy_engine.RuleCache.Ideal.Laws.{ideal_rule_cache}
use hope_policy_engine.Validator.State.{ok, tmt_miss}
use hope_policy_engine.Decoder.Builders.{
  invalid_inst, r_type_inst, r4_type_inst, fp_conv_inst, lr_inst, i_type_inst, csr_inst,
  s_type_inst, u_type_inst, system_inst, sfence_vma,
}
use hope_policy_engine.Decoder.Switch.{switch}
use hope_policy_engine.Decoder.CompressedControl.{
  decode_cj_type, decode_cr_type, decode_cb_type, decode_ciw_type, decode_ca_type,
}
use hope_policy_engine.Decoder.CompressedMemory.{decode_cl_type, decode_cs_type}
use hope_policy_engine.Decoder.CompressedStack.{decode_ci_type, decode_css_type}
use hope_policy_engine.Decoder.Decode.{
  first_valid, decode_full, cj_imm, cb_imm, ciw_imm, decode_compressed, decode,
}
use hope_policy_engine.Decoder.FloatConvert.{decode_fp_conv}
use hope_policy_engine.Decoder.Float.{decode_fp_op, decode_fp}
use hope_policy_engine.Decoder.Immediate.{
  decode_i_type, branch_imm, decode_s_type, jump_imm, decode_u_type,
}
use hope_policy_engine.Decoder.Register.{decode_op, decode_op_32, decode_amo, decode_r_type}
use hope_policy_engine.Decoder.System.{decode_system}
use hope_policy_engine.Tags.Provider.{new_ram, align, data_cell, insn_cell, load, store}
use hope_policy_engine.Tags.Bus.{
  add_provider, get_provider, data_tag_at, insn_tag_at, read_data, read_insn, put_provider,
  write_data, write_insn,
}
use hope_policy_engine.Tags.MetaCache.{index_from, canonize, at}
use hope_policy_engine.RuleCache.Table.{find, put, erase}
use hope_policy_engine.RuleCache.Ideal.{allow, install_rule}
use hope_policy_engine.RuleCache.Keys.{operands_eq, results_eq}
use hope_policy_engine.Validator.Prepare.{
  add_offset, setup_validation, reg_operand, csr_operand, fetch, memory_address, memory_operand,
  memory, code_operands, prepare_eval,
}
use hope_policy_engine.Validator.Validate.{
  Validator, handle_violation, evaluate, judge, consult, validate, count_again, validate_cached,
  flush_rule_cache,
}
use hope_policy_engine.Validator.Commit.{
  commit_pc, watch_entry, commit_rd, commit_mem, commit_csr, answered, refresh, commit,
}
use hope_policy_engine.Validator.Safety.{IsReady, CanCommit, Keeps, prepare_eval-Ends}
use hope_policy_engine.Validator.Soundness.{Sanctioned, CacheSound, Judged, IsEnd, validate-Ends}
use hope_policy_engine.Validator.Session.{
  Good, begin, next, passed, session-Sanctioned, commit-CacheSound,
}
use hope_policy_engine.Validator.Outcomes.{Ends}
use hope_policy_engine.Validator.CommitSafety.{IsCacheEnd, Committed, commit-Ends}
use hope_policy_engine.Tests.Demo.{
  demo, registers, add_word, store_word, start, added, committed, stored,
}

start-IsReady : IsReady demo start
start-IsReady = record { width = inl refl; regs = refl; csrs = refl; covers = (omega arith, tt) }

start-Good : Good demo ideal_rule_cache start
unfolding find
start-Good = record { ready = start-IsReady; cache_sound = λ q r e. absurd (cc e) }

-- The addition passes, its commit succeeds, and then the store passes.
trace :
    (validate demo ideal_rule_cache registers 0 add_word start ≡ ok (added, true))
    × (commit demo ideal_rule_cache added ≡ ok (committed, false))
    × (validate demo ideal_rule_cache registers 4 store_word committed ≡ ok (stored, true))
unfolding invalid_inst r_type_inst r4_type_inst fp_conv_inst lr_inst i_type_inst csr_inst
    s_type_inst u_type_inst system_inst sfence_vma switch decode_cj_type decode_cr_type
    decode_cb_type decode_ciw_type decode_ca_type decode_cl_type decode_cs_type decode_ci_type
    decode_css_type first_valid decode_full cj_imm cb_imm ciw_imm decode_compressed decode
    decode_fp_conv decode_fp_op decode_fp decode_i_type branch_imm decode_s_type jump_imm
    decode_u_type decode_op decode_op_32 decode_amo decode_r_type decode_system new_ram align
    data_cell insn_cell load store add_provider get_provider data_tag_at insn_tag_at read_data
    read_insn put_provider write_data write_insn index_from canonize at find put erase allow
    install_rule operands_eq results_eq add_offset setup_validation reg_operand csr_operand fetch
    memory_address memory_operand memory code_operands prepare_eval handle_violation evaluate judge
    consult validate count_again validate_cached flush_rule_cache commit_pc watch_entry commit_rd
    commit_mem commit_csr answered refresh commit
trace = (refl, refl, refl)

-- Register 1 has the tag of the result, and the store reads the tag of its memory word.
tags : (get_or committed.ireg_tags 1 0 ≡ 9) × (stored.mem_addr ≡ 20) × (stored.ops.mem ≡ 7)
unfolding invalid_inst r_type_inst r4_type_inst fp_conv_inst lr_inst i_type_inst csr_inst
    s_type_inst u_type_inst system_inst sfence_vma switch decode_cj_type decode_cr_type
    decode_cb_type decode_ciw_type decode_ca_type decode_cl_type decode_cs_type decode_ci_type
    decode_css_type first_valid decode_full cj_imm cb_imm ciw_imm decode_compressed decode
    decode_fp_conv decode_fp_op decode_fp decode_i_type branch_imm decode_s_type jump_imm
    decode_u_type decode_op decode_op_32 decode_amo decode_r_type decode_system new_ram align
    data_cell insn_cell load store add_provider get_provider data_tag_at insn_tag_at read_data
    read_insn put_provider write_data write_insn index_from canonize at find put erase allow
    install_rule operands_eq results_eq add_offset setup_validation reg_operand csr_operand fetch
    memory_address memory_operand memory code_operands prepare_eval handle_violation evaluate judge
    consult validate count_again validate_cached flush_rule_cache commit_pc watch_entry commit_rd
    commit_mem commit_csr answered refresh commit
tags = (refl, refl, refl)

session-Sanctioned_example : Sanctioned demo stored.ops stored.res
session-Sanctioned_example =
    session-Sanctioned demo ideal_rule_cache registers 4 store_word (λ a b e. e) start-Good
      (next begin (passed registers 0 add_word false trace.0 trace.1)) trace.2

prepare_eval-Ends_example :
    Ends
      (λ e. e ≡ tmt_miss)
      (λ s'. Keeps demo (record start { failed = false }) s' × CanCommit demo s')
      (prepare_eval demo registers 4 store_word start)
prepare_eval-Ends_example = prepare_eval-Ends demo registers 4 store_word start start-IsReady

validate-Ends_example :
    Ends IsEnd
      (Judged demo ideal_rule_cache)
      (validate demo ideal_rule_cache registers 0 add_word start)
validate-Ends_example =
    validate-Ends demo ideal_rule_cache registers 0 add_word start start-IsReady
      start-Good.cache_sound

-- Results that write register 1.
abbrev writing : Validator demo ideal_rule_cache
writing = record start {
  has_pending_rd = true;
  pending_rd = 1;
  res = record start.res { rd = 9; rd_result = true };
  ops = record start.ops { ci = 7 };
}

writing-CanCommit : CanCommit demo writing
writing-CanCommit = record { rd_below = λ e. omega arith; csr_below = λ e. absurd (cc e) }

writing-IsReady : IsReady demo writing
writing-IsReady = record { width = inl refl; regs = refl; csrs = refl; covers = (omega arith, tt) }

writing-CacheSound : CacheSound demo ideal_rule_cache writing.rule_cache
writing-CacheSound = start-Good.cache_sound

writing-Sanctioned : Sanctioned demo writing.ops writing.res
writing-Sanctioned = (start.ctx, start.ctx, start.res, refl)

commit-Ends_example :
    Ends IsCacheEnd
      (λ r. IsReady demo r.0 × Committed demo ideal_rule_cache writing r.0)
      (commit demo ideal_rule_cache writing)
commit-Ends_example = commit-Ends demo ideal_rule_cache writing writing-IsReady writing-CanCommit

commit-CacheSound_example :
    Ends IsCacheEnd
      (λ r. CacheSound demo ideal_rule_cache r.0.rule_cache)
      (commit demo ideal_rule_cache writing)
commit-CacheSound_example =
    commit-CacheSound demo ideal_rule_cache writing writing-IsReady writing-CanCommit
      writing-CacheSound writing-Sanctioned
