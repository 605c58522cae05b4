-- ===== src/Isa/Opcode.antt =====
-- Operation codes of decoded instructions, `op_t` of validator/riscv/inst_decoder.h.

pub data Op : Type 0 where
  invalid beq bne blt bge bltu bgeu jalr jal lui auipc addi slli slti sltiu xori srli srai : Op
  ori andi add sub sll slt sltu xor srl sra or and addiw slliw srliw sraiw addw subw sllw : Op
  srlw sraw lb lh lw ld lbu lhu lwu sb sh sw sd fence fence_i mul mulh mulhsu mulhu div : Op
  divu rem remu amoadd_w amoxor_w amoor_w amoand_w amomin_w amomax_w amominu_w amomaxu_w : Op
  amoswap_w lr_w sc_w amoadd_d amoxor_d amoor_d amoand_d amomin_d amomax_d amominu_d : Op
  amomaxu_d amoswap_d lr_d sc_d ecall ebreak uret sret mret dret sfence_vma wfi csrrw csrrs : Op
  csrrc csrrwi csrrsi csrrci fadd_s fsub_s fmul_s fdiv_s fsgnj_s fsgnjn_s fsgnjx_s fmin_s : Op
  fmax_s fsqrt_s fadd_d fsub_d fmul_d fdiv_d fsgnj_d fsgnjn_d fsgnjx_d fmin_d fmax_d : Op
  fcvt_s_d fcvt_d_s fsqrt_d fadd_q fsub_q fmul_q fdiv_q fsgnj_q fsgnjn_q fsgnjx_q fmin_q : Op
  fmax_q fcvt_s_q fcvt_q_s fcvt_d_q fcvt_q_d fsqrt_q fle_s flt_s feq_s fle_d flt_d feq_d : Op
  fle_q flt_q feq_q fcvt_w_s fcvt_wu_s fcvt_l_s fcvt_lu_s fmv_x_w fclass_s fcvt_w_d : Op
  fcvt_wu_d fcvt_l_d fcvt_lu_d fmv_x_d fclass_d fcvt_w_q fcvt_wu_q fcvt_l_q fcvt_lu_q : Op
  fmv_x_q fclass_q fcvt_s_w fcvt_s_wu fcvt_s_l fcvt_s_lu fmv_w_x fcvt_d_w fcvt_d_wu : Op
  fcvt_d_l fcvt_d_lu fmv_d_x fcvt_q_w fcvt_q_wu fcvt_q_l fcvt_q_lu fmv_q_x flw fld flq fsw : Op
  fsd fsq fmadd_s fmsub_s fnmsub_s fnmadd_s fmadd_d fmsub_d fnmsub_d fnmadd_d fmadd_q : Op
  fmsub_q fnmsub_q fnmadd_q mulw remw divw divuw remuw : Op
