-- ===== src/Decoder/Range/Compressed.antt =====
-- The ranges of the compressed instructions of validator/riscv/inst_decoder.cc.
use hope_policy_engine.Prelude.{ℕ, ◌<◌}
use hope_policy_engine.Decoder.Range.{InRange, in_range}
use hope_policy_engine.Decoder.CompressedStack.{decode_ci_type, decode_css_type}
use hope_policy_engine.Decoder.CompressedMemory.{decode_cl_type, decode_cs_type}
use hope_policy_engine.Decoder.CompressedControl.{
  decode_cj_type, decode_cr_type, decode_cb_type, decode_ciw_type, decode_ca_type,
}

module _ (xlen quad : ℕ) where
  pub decode_ci_type-InRange :
      (f3 imm : ℕ) {rds1 : ℕ} → rds1 < 32 → InRange (decode_ci_type xlen quad f3 rds1 imm)
  unfolding decode_ci_type
  decode_ci_type-InRange f3 imm h = search in_range depth 40

  pub decode_css_type-InRange :
      (f3 imm : ℕ) {rs2 : ℕ} → rs2 < 32 → InRange (decode_css_type xlen quad f3 rs2 imm)
  unfolding decode_css_type
  decode_css_type-InRange f3 imm h = search in_range depth 40

  pub decode_cl_type-InRange :
      (f3 imm : ℕ) {rd rs1 : ℕ}
      → rd < 32
      → rs1 < 32
      → InRange (decode_cl_type xlen quad f3 rd rs1 imm)
  unfolding decode_cl_type
  decode_cl_type-InRange f3 imm hd h1 = search in_range depth 40

  pub decode_cs_type-InRange :
      (f3 imm : ℕ) {rs1 rs2 : ℕ}
      → rs1 < 32
      → rs2 < 32
      → InRange (decode_cs_type xlen quad f3 rs1 rs2 imm)
  unfolding decode_cs_type
  decode_cs_type-InRange f3 imm h1 h2 = search in_range depth 40

  pub decode_cj_type-InRange : (f3 imm : ℕ) → InRange (decode_cj_type xlen quad f3 imm)
  unfolding decode_cj_type
  decode_cj_type-InRange f3 imm = search in_range depth 40

  pub decode_cr_type-InRange :
      (f4 : ℕ) {rs1 rs2 : ℕ} → rs1 < 32 → rs2 < 32 → InRange (decode_cr_type xlen quad f4 rs1 rs2)
  unfolding decode_cr_type
  decode_cr_type-InRange f4 h1 h2 = search in_range depth 40

  pub decode_cb_type-InRange :
      (f3 imm : ℕ) {rs1 : ℕ} → rs1 < 32 → InRange (decode_cb_type xlen quad f3 rs1 imm)
  unfolding decode_cb_type
  decode_cb_type-InRange f3 imm h = search in_range depth 40

  pub decode_ciw_type-InRange : (f3 rd imm : ℕ) → InRange (decode_ciw_type xlen quad f3 rd imm)
  unfolding decode_ciw_type
  decode_ciw_type-InRange f3 rd imm = search in_range depth 40

  pub decode_ca_type-InRange :
      (f6 f2 : ℕ) {rd rs2 : ℕ}
      → rd < 32
      → rs2 < 32
      → InRange (decode_ca_type xlen quad f6 f2 rd rs2)
  unfolding decode_ca_type
  decode_ca_type-InRange f6 f2 hd h2 = search in_range depth 40
