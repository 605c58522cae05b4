-- ===== src/Decoder/CompressedControl.antt =====
-- The compressed jumps, branches and register operations: `decode_cj_type` to `decode_ca_type` of
-- validator/riscv/inst_decoder.cc.
use hope_policy_engine.Prelude.{ℕ, ◌*◌, ◌/◌, ◌^◌, [], ◌∷◌, bit_and, bit_or, ◌==◌, if◌then◌else◌}
use hope_policy_engine.Isa.Opcode.{Op}
use hope_policy_engine.Isa.{DecodedInstruction, is_compressed}
use hope_policy_engine.Decoder.Switch.{switch}
use hope_policy_engine.Decoder.Builders.{
  r_type_inst, i_type_inst, s_type_inst, u_type_inst, invalid_inst, ne, x0, x1,
}

unfoldable pub decode_cj_type : ℕ → ℕ → ℕ → ℕ → DecodedInstruction
decode_cj_type xlen quad f3 imm =
    switch quad
      ((
        0x1,
        switch f3
            ((
              0x1,
              switch xlen ((32, u_type_inst "c.jal" Op.jal x1 imm is_compressed) ∷ []) invalid_inst,
            )
              ∷ (0x5, u_type_inst "c.j" Op.jal x0 imm is_compressed)
              ∷ [])
            invalid_inst,
      )
        ∷ [])
      invalid_inst

unfoldable pub decode_cr_type : ℕ → ℕ → ℕ → ℕ → ℕ → DecodedInstruction
decode_cr_type xlen quad f4 rs1 rs2 =
    switch quad
      ((
        0x2,
        switch f4
            ((
              0x8,
              switch rs2
                  ((
                    0,
                    if ne rs1 0
                        then i_type_inst "c.jr" Op.jalr x0 rs1 0 is_compressed
                        else invalid_inst,
                  )
                    ∷ [])
                  (if ne rs1 0
                    then r_type_inst "c.mv" Op.add rs1 x0 rs2 is_compressed
                    else invalid_inst),
            )
              ∷ (
                0x9,
                switch rs2
                    ((
                      0,
                      if ne rs1 0
                          then i_type_inst "c.jalr" Op.jalr x1 rs1 0 is_compressed
                          else invalid_inst,
                    )
                      ∷ [])
                    (if ne rs1 0
                      then r_type_inst "c.add" Op.add rs1 rs1 rs2 is_compressed
                      else invalid_inst),
              )
              ∷ [])
            invalid_inst,
      )
        ∷ [])
      invalid_inst

unfoldable pub decode_cb_type : ℕ → ℕ → ℕ → ℕ → ℕ → DecodedInstruction
decode_cb_type xlen quad f3 rs1p imm =
    switch quad
      ((
        0x1,
        switch f3
            ((0x6, s_type_inst "c.beqz" Op.beq rs1p x0 imm is_compressed)
              ∷ (0x7, s_type_inst "c.bnez" Op.bne rs1p x0 imm is_compressed)
              ∷ [])
            invalid_inst,
      )
        ∷ [])
      invalid_inst

-- Case 0 of `f3` computes an instruction and does not return it, so it falls to the default.
unfoldable pub decode_ciw_type : ℕ → ℕ → ℕ → ℕ → ℕ → DecodedInstruction
decode_ciw_type xlen quad f3 rdp imm =
    switch quad ((0x0, switch f3 ((0x0, invalid_inst) ∷ []) invalid_inst) ∷ []) invalid_inst

-- In `f6 & 0x4 << 2` the shift binds tighter. The last cases belong to the switch on `quad`.
unfoldable pub decode_ca_type : ℕ → ℕ → ℕ → ℕ → ℕ → ℕ → DecodedInstruction
decode_ca_type xlen quad f6 f2 rds1p rs2p =
    let shamt = bit_or (bit_and f6 (0x4 * 2 ^ 2)) (bit_or (f2 * 2 ^ 3) (bit_and rs2p 0x7)) in
    switch quad
      ((
        0x1,
        switch f6
            ((
              0x23,
              switch f2
                  ((0x0, r_type_inst "c.sub" Op.sub rds1p rds1p rs2p is_compressed)
                    ∷ (0x1, r_type_inst "c.xor" Op.xor rds1p rds1p rs2p is_compressed)
                    ∷ (0x2, r_type_inst "c.or" Op.or rds1p rds1p rs2p is_compressed)
                    ∷ (0x3, r_type_inst "c.and" Op.and rds1p rds1p rs2p is_compressed)
                    ∷ [])
                  invalid_inst,
            )
              ∷ (
                0x27,
                switch f2
                    ((0x0, r_type_inst "c.subw" Op.subw rds1p rds1p rs2p is_compressed)
                      ∷ (0x1, r_type_inst "c.addw" Op.addw rds1p rds1p rs2p is_compressed)
                      ∷ [])
                    invalid_inst,
              )
              ∷ [])
            invalid_inst,
      )
        ∷ (
          0x20,
          if ne shamt 0
              then i_type_inst "c.srli" Op.srli rds1p rds1p shamt is_compressed
              else invalid_inst,
        )
        ∷ (
          0x24,
          if ne shamt 0
              then i_type_inst "c.srli" Op.srli rds1p rds1p shamt is_compressed
              else invalid_inst,
        )
        ∷ (
          0x21,
          if ne shamt 0
              then i_type_inst "c.srai" Op.srai rds1p rds1p shamt is_compressed
              else invalid_inst,
        )
        ∷ (
          0x25,
          if ne shamt 0
              then i_type_inst "c.srai" Op.srai rds1p rds1p shamt is_compressed
              else invalid_inst,
        )
        ∷ (
          0x22,
          i_type_inst "c.andi" Op.andi rds1p rds1p
              (if shamt / 2 ^ 5 == 0 then shamt else bit_or shamt 0xffffffc0) is_compressed,
        )
        ∷ (
          0x26,
          i_type_inst "c.andi" Op.andi rds1p rds1p
              (if shamt / 2 ^ 5 == 0 then shamt else bit_or shamt 0xffffffc0) is_compressed,
        )
        ∷ [])
      invalid_inst
