-- ===== src/Decoder/Decode.antt =====
-- `decode` of validator/riscv/inst_decoder.cc: the fields of the instruction word, and the attempts in
-- their order. The exception for other widths than 32 and 64 is `none`.
use hope_policy_engine.Prelude.{
  ℕ, ◌*◌, ◌/◌, ◌^◌, List, [], ◌∷◌, ◌++◌, Option, none, some, bit_and, bit_or, ◌==◌, ◌&&◌,
  if◌then◌else◌,
}
use hope_policy_engine.Isa.{DecodedInstruction, exists}
use hope_policy_engine.Decoder.Builders.{invalid_inst, ne, sar32}
use hope_policy_engine.Decoder.Register.{decode_r_type}
use hope_policy_engine.Decoder.Immediate.{decode_i_type, decode_s_type, decode_u_type}
use hope_policy_engine.Decoder.Float.{decode_fp}
use hope_policy_engine.Decoder.System.{decode_system}
use hope_policy_engine.Decoder.CompressedStack.{decode_ci_type, decode_css_type}
use hope_policy_engine.Decoder.CompressedMemory.{decode_cl_type, decode_cs_type}
use hope_policy_engine.Decoder.CompressedControl.{
  decode_cj_type, decode_cr_type, decode_cb_type, decode_ciw_type, decode_ca_type,
}

-- `if (r) return r;` for each attempt in turn
unfoldable pub first_valid : List DecodedInstruction → DecodedInstruction
first_valid [] = invalid_inst
first_valid (d ∷ ds) = if exists d then d else first_valid ds

-- the attempts at a 32-bit instruction
unfoldable pub decode_full : ℕ → List DecodedInstruction
decode_full bits =
    let opcode = bit_and bits 0x7f in
    let f3 = bit_and bits 0x7000 / 2 ^ 12 in
    let f7 = bit_and bits 0xfe000000 / 2 ^ 25 in
    let rd = bit_and bits 0xf80 / 2 ^ 7 in
    let rs1 = bit_and bits 0xf8000 / 2 ^ 15 in
    let rs2 = bit_and bits 0x1f00000 / 2 ^ 20 in
    let i_imm = sar32 bits 20 in
    let s_imm = bit_or (sar32 (bit_and bits 0xfe000000) 20) rd in
    let u_imm = bit_and bits 0xfffff000 in
    decode_r_type opcode f3 f7 rd rs1 rs2
    ∷ decode_i_type opcode f3 rd rs1 i_imm
    ∷ decode_s_type opcode f3 rs1 rs2 s_imm
    ∷ decode_u_type opcode rd u_imm
    ∷ decode_fp opcode f7 f3 rd rs1 rs2
    ∷ decode_system opcode f7 f3 rs1 rs2
    ∷ []

-- `cond ? mask : 0` on a bit of the word
abbrev fill : ℕ → ℕ → ℕ
fill bit mask = if bit == 0 then 0 else mask

unfoldable pub cj_imm : ℕ → ℕ
cj_imm bits = bit_or (bit_and bits 0x4 * 2 ^ 3) (
    bit_or (bit_and bits 0x38 / 2 ^ 2) (
      bit_or (bit_and bits 0x40 * 2 ^ 1) (
        bit_or (bit_and bits 0x80 / 2 ^ 1) (
          bit_or (bit_and bits 0x100 * 2 ^ 2) (
            bit_or (bit_and bits 0x600 / 2 ^ 1)
              (bit_or (bit_and bits 0x800 / 2 ^ 7) (fill (bit_and bits 0x1000) 0xfffff800)))))))

unfoldable pub cb_imm : ℕ → ℕ
cb_imm bits = bit_or (bit_and bits 0x4 * 2 ^ 3) (
    bit_or (bit_and bits 0x18 / 2 ^ 2) (
      bit_or (bit_and bits 0x60 * 2 ^ 1)
        (bit_or (bit_and bits 0xc00 / 2 ^ 7) (fill (bit_and bits 0x1000) 0xfffff800))))

unfoldable pub ciw_imm : ℕ → ℕ
ciw_imm bits = bit_or (bit_and bits 0x20 / 2 ^ 2) (
    bit_or (bit_and bits 0x40 / 2 ^ 4)
      (bit_or (bit_and bits 0x78 / 2 ^ 1) (bit_and bits 0x1800 / 2 ^ 7)))

-- the attempts at a compressed instruction
unfoldable pub decode_compressed : ℕ → ℕ → List DecodedInstruction
decode_compressed xlen bits =
    let rd = bit_and bits 0xf80 / 2 ^ 7 in
    let quad = bit_and bits 0x3 in
    let c_f2 = bit_and bits 0x60 / 2 ^ 5 in
    let c_f3 = bit_and bits 0xe000 / 2 ^ 13 in
    let c_f4 = bit_and bits 0xf000 / 2 ^ 12 in
    let c_f6 = bit_and bits 0xfc00 / 2 ^ 10 in
    let c_rs2 = bit_and bits 0x7c / 2 ^ 2 in
    let rdp = bit_or (bit_and bits 0x1c / 2 ^ 2) 0x8 in
    let rs1p = bit_or (bit_and bits 0x380 / 2 ^ 7) 0x8 in
    let ci_imm = bit_or c_rs2 (fill (bit_and bits 0x1000) 0xffffffe0) in
    let cls_imm = bit_or (bit_and bits 0x1c00 / 2 ^ 8) (bit_and bits 0x60 / 2 ^ 5) in
    decode_ci_type xlen quad c_f3 rd ci_imm
    ∷ decode_css_type xlen quad c_f3 c_rs2 rd
    ∷ decode_cl_type xlen quad c_f3 rdp rs1p cls_imm
    ∷ decode_cs_type xlen quad c_f3 rs1p rdp cls_imm
    ∷ decode_cj_type xlen quad c_f3 (cj_imm bits)
    ∷ decode_cr_type xlen quad c_f4 rd c_rs2
    ∷ decode_cb_type xlen quad c_f3 rs1p (cb_imm bits)
    ∷ decode_ciw_type xlen quad c_f3 rdp (ciw_imm bits)
    ∷ decode_ca_type xlen quad c_f6 c_f2 rs1p rdp
    ∷ []

unfoldable pub decode : ℕ → ℕ → Option DecodedInstruction
decode bits xlen =
    if ne xlen 32 && ne xlen 64
    then none
    else some (first_valid (decode_full bits ++ decode_compressed xlen bits))
