-- ===== src/Decoder/Register.antt =====
-- The register-register instructions: `decode_r_type` of validator/riscv/inst_decoder.cc, with a
-- function for each of its three opcodes.
use hope_policy_engine.Prelude.{ℕ, ◌/◌, ◌^◌, [], ◌∷◌}
use hope_policy_engine.Isa.Opcode.{Op}
use hope_policy_engine.Isa.{DecodedInstruction, no_flags}
use hope_policy_engine.Decoder.Switch.{switch}
use hope_policy_engine.Decoder.Builders.{r_type_inst, lr_inst, invalid_inst}

-- opcode 0x33
unfoldable pub decode_op : ℕ → ℕ → ℕ → ℕ → ℕ → DecodedInstruction
decode_op f3 f7 rd rs1 rs2 =
    switch f3
      ((
        0x0,
        switch f7
            ((0x00, r_type_inst "add" Op.add rd rs1 rs2 no_flags)
              ∷ (0x01, r_type_inst "mul" Op.mul rd rs1 rs2 no_flags)
              ∷ (0x20, r_type_inst "sub" Op.sub rd rs1 rs2 no_flags)
              ∷ [])
            invalid_inst,
      )
        ∷ (
          0x1,
          switch f7
              ((0x00, r_type_inst "sll" Op.sll rd rs1 rs2 no_flags)
                ∷ (0x01, r_type_inst "mulh" Op.mulh rd rs1 rs2 no_flags)
                ∷ [])
              invalid_inst,
        )
        ∷ (
          0x2,
          switch f7
              ((0x00, r_type_inst "slt" Op.slt rd rs1 rs2 no_flags)
                ∷ (0x01, r_type_inst "mulhsu" Op.mulhsu rd rs1 rs2 no_flags)
                ∷ [])
              invalid_inst,
        )
        ∷ (
          0x3,
          switch f7
              ((0x00, r_type_inst "sltu" Op.sltu rd rs1 rs2 no_flags)
                ∷ (0x01, r_type_inst "mulhu" Op.mulhu rd rs1 rs2 no_flags)
                ∷ [])
              invalid_inst,
        )
        ∷ (
          0x4,
          switch f7
              ((0x00, r_type_inst "xor" Op.xor rd rs1 rs2 no_flags)
                ∷ (0x01, r_type_inst "div" Op.div rd rs1 rs2 no_flags)
                ∷ [])
              invalid_inst,
        )
        ∷ (
          0x5,
          switch f7
              ((0x00, r_type_inst "srl" Op.srl rd rs1 rs2 no_flags)
                ∷ (0x01, r_type_inst "divu" Op.divu rd rs1 rs2 no_flags)
                ∷ (0x20, r_type_inst "sra" Op.sra rd rs1 rs2 no_flags)
                ∷ [])
              invalid_inst,
        )
        ∷ (
          0x6,
          switch f7
              ((0x00, r_type_inst "or" Op.or rd rs1 rs2 no_flags)
                ∷ (0x01, r_type_inst "rem" Op.rem rd rs1 rs2 no_flags)
                ∷ [])
              invalid_inst,
        )
        ∷ (
          0x7,
          switch f7
              ((0x00, r_type_inst "and" Op.and rd rs1 rs2 no_flags)
                ∷ (0x01, r_type_inst "remu" Op.remu rd rs1 rs2 no_flags)
                ∷ [])
              invalid_inst,
        )
        ∷ [])
      invalid_inst

-- opcode 0x3b
unfoldable pub decode_op_32 : ℕ → ℕ → ℕ → ℕ → ℕ → DecodedInstruction
decode_op_32 f3 f7 rd rs1 rs2 =
    switch f3
      ((
        0x0,
        switch f7
            ((0x00, r_type_inst "addw" Op.addw rd rs1 rs2 no_flags)
              ∷ (0x01, r_type_inst "mulw" Op.mulw rd rs1 rs2 no_flags)
              ∷ (0x20, r_type_inst "subw" Op.subw rd rs1 rs2 no_flags)
              ∷ [])
            invalid_inst,
      )
        ∷ (0x1, r_type_inst "sllw" Op.sllw rd rs1 rs2 no_flags)
        ∷ (
          0x4,
          switch f7 ((0x01, r_type_inst "divw" Op.divw rd rs1 rs2 no_flags) ∷ []) invalid_inst,
        )
        ∷ (
          0x5,
          switch f7
              ((0x00, r_type_inst "srlw" Op.addw rd rs1 rs2 no_flags)
                ∷ (0x01, r_type_inst "divuw" Op.divuw rd rs1 rs2 no_flags)
                ∷ (0x20, r_type_inst "sraw" Op.sraw rd rs1 rs2 no_flags)
                ∷ [])
              invalid_inst,
        )
        ∷ (
          0x6,
          switch f7 ((0x01, r_type_inst "remw" Op.remw rd rs1 rs2 no_flags) ∷ []) invalid_inst,
        )
        ∷ [])
      invalid_inst

-- opcode 0x2f; a load-reserved is not quite of R type, but grouped with the other atomics
unfoldable pub decode_amo : ℕ → ℕ → ℕ → ℕ → ℕ → DecodedInstruction
decode_amo f5 f3 rd rs1 rs2 =
    switch f5
      ((
        0x00,
        switch f3
            ((0x2, r_type_inst "amoadd.w" Op.amoadd_w rd rs1 rs2 no_flags)
              ∷ (0x3, r_type_inst "amoadd.d" Op.amoadd_d rd rs1 rs2 no_flags)
              ∷ [])
            invalid_inst,
      )
        ∷ (
          0x01,
          switch f3
              ((0x2, r_type_inst "amoswap.w" Op.amoswap_w rd rs1 rs2 no_flags)
                ∷ (0x3, r_type_inst "amoswap.d" Op.amoswap_d rd rs1 rs2 no_flags)
                ∷ [])
              invalid_inst,
        )
        ∷ (
          0x02,
          switch f3
              ((0x2, lr_inst "lr.w" Op.lr_w rd rs1) ∷ (0x3, lr_inst "lr.d" Op.lr_d rd rs1) ∷ [])
              invalid_inst,
        )
        ∷ (
          0x03,
          switch f3
              ((0x2, r_type_inst "sc.w" Op.sc_w rd rs1 rs2 no_flags)
                ∷ (0x3, r_type_inst "sc.d" Op.sc_d rd rs1 rs2 no_flags)
                ∷ [])
              invalid_inst,
        )
        ∷ (
          0x04,
          switch f3
              ((0x2, r_type_inst "amoxor.w" Op.amoxor_w rd rs1 rs2 no_flags)
                ∷ (0x3, r_type_inst "amoxor.d" Op.amoxor_d rd rs1 rs2 no_flags)
                ∷ [])
              invalid_inst,
        )
        ∷ (
          0x08,
          switch f3
              ((0x2, r_type_inst "amoor.w" Op.amoor_w rd rs1 rs2 no_flags)
                ∷ (0x3, r_type_inst "ammor.d" Op.amoor_d rd rs1 rs2 no_flags)
                ∷ [])
              invalid_inst,
        )
        ∷ (
          0x0c,
          switch f3
              ((0x2, r_type_inst "amoand.w" Op.amoand_w rd rs1 rs2 no_flags)
                ∷ (0x3, r_type_inst "amoand.d" Op.amoand_d rd rs1 rs2 no_flags)
                ∷ [])
              invalid_inst,
        )
        ∷ (
          0x10,
          switch f3
              ((0x2, r_type_inst "amomin.w" Op.amomin_w rd rs1 rs2 no_flags)
                ∷ (0x3, r_type_inst "amomin.d" Op.amomin_d rd rs1 rs2 no_flags)
                ∷ [])
              invalid_inst,
        )
        ∷ (
          0x14,
          switch f3
              ((0x2, r_type_inst "amomax.w" Op.amomax_w rd rs1 rs2 no_flags)
                ∷ (0x3, r_type_inst "amomax.d" Op.amomax_d rd rs1 rs2 no_flags)
                ∷ [])
              invalid_inst,
        )
        ∷ (
          0x18,
          switch f3
              ((0x2, r_type_inst "amominu.w" Op.amominu_w rd rs1 rs2 no_flags)
                ∷ (0x3, r_type_inst "amominu.d" Op.amominu_d rd rs1 rs2 no_flags)
                ∷ [])
              invalid_inst,
        )
        ∷ (
          0x1c,
          switch f3
              ((0x2, r_type_inst "amomaxu.w" Op.amomaxu_w rd rs1 rs2 no_flags)
                ∷ (0x3, r_type_inst "amomaxu.d" Op.amomaxu_d rd rs1 rs2 no_flags)
                ∷ [])
              invalid_inst,
        )
        ∷ [])
      invalid_inst

-- `fmt` of the source is not used
unfoldable pub decode_r_type : ℕ → ℕ → ℕ → ℕ → ℕ → ℕ → DecodedInstruction
decode_r_type code f3 f7 rd rs1 rs2 =
    let f5 = f7 / 2 ^ 2 in
    switch code
      ((0x33, decode_op f3 f7 rd rs1 rs2)
        ∷ (0x3b, decode_op_32 f3 f7 rd rs1 rs2)
        ∷ (0x2f, decode_amo f5 f3 rd rs1 rs2)
        ∷ [])
      invalid_inst
