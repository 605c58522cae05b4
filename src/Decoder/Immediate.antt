-- ===== src/Decoder/Immediate.antt =====
-- The immediate, store, branch and upper-immediate instructions: `decode_i_type`, `decode_s_type`
-- and `decode_u_type` of validator/riscv/inst_decoder.cc. An `int` is its 32-bit pattern.
use hope_policy_engine.Prelude.{ℕ, ◌/◌, ◌%◌, ◌^◌, [], ◌∷◌, bit_and, bit_or, ◌==◌, if◌then◌else◌}
use hope_policy_engine.Isa.Opcode.{Op}
use hope_policy_engine.Isa.{DecodedInstruction, no_flags, has_load, has_store}
use hope_policy_engine.Decoder.Switch.{switch}
use hope_policy_engine.Decoder.Builders.{
  i_type_inst, csr_inst, s_type_inst, u_type_inst, invalid_inst, minus_one, shl32, sar32,
}

-- `f6` is cut to a byte, `csr` to 16 bits before the mask
unfoldable pub decode_i_type : ℕ → ℕ → ℕ → ℕ → ℕ → DecodedInstruction
decode_i_type code f3 rd rs1 imm =
    let shamt = bit_and imm 0x3f in
    let f6 = imm / 2 ^ 6 % 2 ^ 8 in
    let csr = bit_and (imm % 2 ^ 16) 0xfff in
    switch code
      ((
        0x03,
        switch f3
            ((0x0, i_type_inst "lb" Op.lb rd rs1 imm has_load)
              ∷ (0x1, i_type_inst "lh" Op.lh rd rs1 imm has_load)
              ∷ (0x2, i_type_inst "lw" Op.lw rd rs1 imm has_load)
              ∷ (0x3, i_type_inst "ld" Op.ld rd rs1 imm has_load)
              ∷ (0x4, i_type_inst "lbu" Op.lbu rd rs1 imm has_load)
              ∷ (0x5, i_type_inst "lhu" Op.lhu rd rs1 imm has_load)
              ∷ (0x6, i_type_inst "lwu" Op.lwu rd rs1 imm has_load)
              ∷ [])
            invalid_inst,
      )
        ∷ (
          0x07,
          switch f3
              ((0x2, i_type_inst "flw" Op.flw rd rs1 imm has_load)
                ∷ (0x3, i_type_inst "fld" Op.fld rd rs1 imm has_load)
                ∷ (0x4, i_type_inst "flq" Op.flq rd rs1 imm has_load)
                ∷ [])
              invalid_inst,
        )
        ∷ (
          0x13,
          switch f3
              ((0x0, i_type_inst "addi" Op.addi rd rs1 imm no_flags)
                ∷ (0x1, i_type_inst "slli" Op.slli rd rs1 shamt no_flags)
                ∷ (0x2, i_type_inst "slti" Op.slti rd rs1 imm no_flags)
                ∷ (0x3, i_type_inst "sltiu" Op.sltiu rd rs1 imm no_flags)
                ∷ (0x4, i_type_inst "xori" Op.xori rd rs1 imm no_flags)
                ∷ (
                  0x5,
                  switch f6
                      ((0x00, i_type_inst "srli" Op.srli rd rs1 shamt no_flags)
                        ∷ (0x10, i_type_inst "srai" Op.srai rd rs1 shamt no_flags)
                        ∷ [])
                      invalid_inst,
                )
                ∷ (0x6, i_type_inst "ori" Op.ori rd rs1 imm no_flags)
                ∷ (0x7, i_type_inst "andi" Op.andi rd rs1 imm no_flags)
                ∷ [])
              invalid_inst,
        )
        ∷ (
          0x1b,
          switch f3
              ((0x0, i_type_inst "addiw" Op.addiw rd rs1 imm no_flags)
                ∷ (0x1, i_type_inst "slliw" Op.slliw rd rs1 shamt no_flags)
                ∷ (
                  0x5,
                  switch f6
                      ((0x00, i_type_inst "srliw" Op.srliw rd rs1 shamt no_flags)
                        ∷ (0x10, i_type_inst "sraiw" Op.sraiw rd rs1 shamt no_flags)
                        ∷ [])
                      invalid_inst,
                )
                ∷ [])
              invalid_inst,
        )
        ∷ (0x67, i_type_inst "jalr" Op.jalr rd rs1 imm no_flags)
        ∷ (
          0x73,
          switch f3
              ((0x1, csr_inst "csrrw" Op.csrrw rd rs1 csr)
                ∷ (0x2, csr_inst "csrrs" Op.csrrs rd rs1 csr)
                ∷ (0x3, csr_inst "csrrc" Op.csrrc rd rs1 csr)
                ∷ (0x5, csr_inst "csrrwi" Op.csrrwi rd minus_one csr)
                ∷ (0x6, csr_inst "csrrsi" Op.csrrsi rd minus_one csr)
                ∷ (0x7, csr_inst "csrrci" Op.csrrci rd minus_one csr)
                ∷ [])
              invalid_inst,
        )
        ∷ [])
      invalid_inst

-- The branch offset from the store offset: bit 0 goes to bit 11, and a set bit 11 sets the bits from
-- 11 up.
unfoldable pub branch_imm : ℕ → ℕ
branch_imm s_imm =
    bit_or (shl32 (bit_and s_imm 0x1) 11)
      (bit_or (bit_and s_imm 0x7fe) (if bit_and s_imm 0x800 == 0 then 0 else 0xfffff800))

unfoldable pub decode_s_type : ℕ → ℕ → ℕ → ℕ → ℕ → DecodedInstruction
decode_s_type code f3 rs1 rs2 s_imm =
    let b_imm = branch_imm s_imm in
    switch code
      ((
        0x23,
        switch f3
            ((0x0, s_type_inst "sb" Op.sb rs1 rs2 s_imm has_store)
              ∷ (0x1, s_type_inst "sh" Op.sh rs1 rs2 s_imm has_store)
              ∷ (0x2, s_type_inst "sw" Op.sw rs1 rs2 s_imm has_store)
              ∷ (0x3, s_type_inst "sd" Op.sd rs1 rs2 s_imm has_store)
              ∷ [])
            invalid_inst,
      )
        ∷ (
          0x27,
          switch f3
              ((0x2, s_type_inst "fsw" Op.fsw rs1 rs2 s_imm has_store)
                ∷ (0x3, s_type_inst "fsd" Op.fsd rs1 rs2 s_imm has_store)
                ∷ (0x4, s_type_inst "fsq" Op.fsq rs1 rs2 s_imm has_store)
                ∷ [])
              invalid_inst,
        )
        ∷ (
          0x63,
          switch f3
              ((0x0, s_type_inst "beq" Op.beq rs1 rs2 b_imm no_flags)
                ∷ (0x1, s_type_inst "bne" Op.bne rs1 rs2 b_imm no_flags)
                ∷ (0x4, s_type_inst "blt" Op.blt rs1 rs2 b_imm no_flags)
                ∷ (0x5, s_type_inst "bge" Op.bge rs1 rs2 b_imm no_flags)
                ∷ (0x6, s_type_inst "bltu" Op.bltu rs1 rs2 b_imm no_flags)
                ∷ (0x7, s_type_inst "bgeu" Op.bgeu rs1 rs2 b_imm no_flags)
                ∷ [])
              invalid_inst,
        )
        ∷ [])
      invalid_inst

-- The jump offset from the upper immediate; `u_imm >> 30` is an arithmetic shift.
unfoldable pub jump_imm : ℕ → ℕ
jump_imm u_imm = bit_or (bit_and u_imm 0xff000) (
    bit_or (bit_and u_imm 0x100000 / 2 ^ 9)
      (bit_or (bit_and u_imm 0x7fe00000 / 2 ^ 20) (if sar32 u_imm 30 == 0 then 0 else 0xfff00000)))

unfoldable pub decode_u_type : ℕ → ℕ → ℕ → DecodedInstruction
decode_u_type code rd u_imm =
    let j_imm = jump_imm u_imm in
    switch code
      ((0x17, u_type_inst "auipc" Op.auipc rd u_imm no_flags)
        ∷ (0x37, u_type_inst "lui" Op.lui rd u_imm no_flags)
        ∷ (0x6f, u_type_inst "jal" Op.jal rd j_imm no_flags)
        ∷ [])
      invalid_inst
