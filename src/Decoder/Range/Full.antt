-- ===== src/Decoder/Range/Full.antt =====
-- The ranges of the 32-bit instructions of validator/riscv/inst_decoder.cc.
use hope_policy_engine.Prelude.{ℕ, ◌/◌, ◌%◌, ◌^◌, ◌<◌, ◌≤◌, arith, bit_and, bit_and-le}
use hope_policy_engine.Decoder.Range.{InRange, in_range}
use hope_policy_engine.Decoder.Register.{decode_r_type, decode_op, decode_op_32, decode_amo}
use hope_policy_engine.Decoder.Immediate.{decode_i_type, decode_s_type, decode_u_type}
use hope_policy_engine.Decoder.Float.{decode_fp, decode_fp_op}
use hope_policy_engine.Decoder.FloatConvert.{decode_fp_conv}
use hope_policy_engine.Decoder.System.{decode_system}

module _ (f3 f7 : ℕ) {rd rs1 rs2 : ℕ} (hd : rd < 32) (h1 : rs1 < 32) (h2 : rs2 < 32) where
  decode_op-InRange : InRange (decode_op f3 f7 rd rs1 rs2)
  unfolding decode_op
  decode_op-InRange = search in_range depth 40

  decode_op_32-InRange : InRange (decode_op_32 f3 f7 rd rs1 rs2)
  unfolding decode_op_32
  decode_op_32-InRange = search in_range depth 40

  decode_amo-InRange : InRange (decode_amo f7 f3 rd rs1 rs2)
  unfolding decode_amo
  decode_amo-InRange = search in_range depth 40

pub decode_r_type-InRange :
    (code f3 f7 : ℕ) {rd rs1 rs2 : ℕ}
    → rd < 32
    → rs1 < 32
    → rs2 < 32
    → InRange (decode_r_type code f3 f7 rd rs1 rs2)
unfolding decode_r_type
decode_r_type-InRange code f3 f7 hd h1 h2 =
    search (in_range, decode_op-InRange, decode_op_32-InRange, decode_amo-InRange) depth 40

csr-le : (imm : ℕ) → bit_and (imm % 2 ^ 16) 0xfff ≤ 0xfff
csr-le imm = bit_and-le _ _

pub decode_i_type-InRange :
    (code f3 imm : ℕ) {rd rs1 : ℕ} → rd < 32 → rs1 < 32 → InRange (decode_i_type code f3 rd rs1 imm)
unfolding decode_i_type
decode_i_type-InRange code f3 imm hd h1 = search (in_range, csr-le) depth 40

pub decode_s_type-InRange :
    (code f3 imm : ℕ) {rs1 rs2 : ℕ}
    → rs1 < 32
    → rs2 < 32
    → InRange (decode_s_type code f3 rs1 rs2 imm)
unfolding decode_s_type
decode_s_type-InRange code f3 imm h1 h2 = search in_range depth 40

pub decode_u_type-InRange : (code imm : ℕ) {rd : ℕ} → rd < 32 → InRange (decode_u_type code rd imm)
unfolding decode_u_type
decode_u_type-InRange code imm hd = search in_range depth 40

module _ (f7 f5 f3 fmt : ℕ) {rd rs1 rs2 : ℕ} (hd : rd < 32) (h1 : rs1 < 32) (h2 : rs2 < 32) where
  decode_fp_conv-InRange : InRange (decode_fp_conv f5 f3 fmt rd rs1 rs2)
  unfolding decode_fp_conv
  decode_fp_conv-InRange = search in_range depth 40

  decode_fp_op-InRange : InRange (decode_fp_op f7 f5 f3 fmt rd rs1 rs2)
  unfolding decode_fp_op
  decode_fp_op-InRange = search (in_range, decode_fp_conv-InRange) depth 60 fits 9000

pub decode_fp-InRange :
    (code f7 f3 : ℕ) {rd rs1 rs2 : ℕ}
    → f7 < 128
    → rd < 32
    → rs1 < 32
    → rs2 < 32
    → InRange (decode_fp code f7 f3 rd rs1 rs2)
unfolding decode_fp
decode_fp-InRange code f7 f3 h7 hd h1 h2 =
    let h3 : f7 / 2 ^ 2 < 32 = omega arith in search (in_range, h3, decode_fp_op-InRange) depth 40

pub decode_system-InRange :
    (code f7 f3 : ℕ) {rs1 rs2 : ℕ}
    → rs1 < 32
    → rs2 < 32
    → InRange (decode_system code f7 f3 rs1 rs2)
unfolding decode_system
decode_system-InRange code f7 f3 h1 h2 = search in_range depth 40
