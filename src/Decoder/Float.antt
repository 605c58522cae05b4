-- ===== src/Decoder/Float.antt =====
-- The floating-point instructions: `decode_fp` of validator/riscv/inst_decoder.cc, with a function
-- for the operations of opcode 0x53.
use hope_policy_engine.Prelude.{ℕ, ◌/◌, ◌^◌, [], ◌∷◌, bit_and}
use hope_policy_engine.Isa.Opcode.{Op}
use hope_policy_engine.Isa.{DecodedInstruction, no_flags}
use hope_policy_engine.Decoder.Switch.{switch}
use hope_policy_engine.Decoder.FloatConvert.{decode_fp_conv}
use hope_policy_engine.Decoder.Builders.{r_type_inst, r4_type_inst, invalid_inst}

-- opcode 0x53
unfoldable pub decode_fp_op : ℕ → ℕ → ℕ → ℕ → ℕ → ℕ → ℕ → DecodedInstruction
decode_fp_op f7 f5 f3 fmt rd rs1 rs2 =
    switch f7
      ((0x00, r_type_inst "fadd.s" Op.fadd_s rd rs1 rs2 no_flags)
        ∷ (0x01, r_type_inst "fadd.d" Op.fadd_d rd rs1 rs2 no_flags)
        ∷ (0x03, r_type_inst "fadd.q" Op.fadd_q rd rs1 rs2 no_flags)
        ∷ (0x04, r_type_inst "fsub.s" Op.fsub_s rd rs1 rs2 no_flags)
        ∷ (0x05, r_type_inst "fsub.d" Op.fsub_d rd rs1 rs2 no_flags)
        ∷ (0x07, r_type_inst "fsub.q" Op.fsub_q rd rs1 rs2 no_flags)
        ∷ (0x08, r_type_inst "fmul.s" Op.fmul_s rd rs1 rs2 no_flags)
        ∷ (0x09, r_type_inst "fmul.d" Op.fmul_d rd rs1 rs2 no_flags)
        ∷ (0x0b, r_type_inst "fmul.q" Op.fmul_q rd rs1 rs2 no_flags)
        ∷ (0x0c, r_type_inst "fdiv.s" Op.fdiv_s rd rs1 rs2 no_flags)
        ∷ (0x0d, r_type_inst "fdiv.d" Op.fdiv_d rd rs1 rs2 no_flags)
        ∷ (0x0f, r_type_inst "fdiv.q" Op.fdiv_q rd rs1 rs2 no_flags)
        ∷ (
          0x10,
          switch f3
              ((0x0, r_type_inst "fsgnj.s" Op.fsgnj_s rd rs1 rs2 no_flags)
                ∷ (0x1, r_type_inst "fsgnjn.s" Op.fsgnjn_s rd rs1 rs2 no_flags)
                ∷ (0x2, r_type_inst "fsgnjx.s" Op.fsgnjx_s rd rs1 rs2 no_flags)
                ∷ [])
              invalid_inst,
        )
        ∷ (
          0x11,
          switch f3
              ((0x0, r_type_inst "fsgnj.d" Op.fsgnj_d rd rs1 rs2 no_flags)
                ∷ (0x1, r_type_inst "fsgnjn.d" Op.fsgnjn_d rd rs1 rs2 no_flags)
                ∷ (0x2, r_type_inst "fsgnjx.d" Op.fsgnjx_d rd rs1 rs2 no_flags)
                ∷ [])
              invalid_inst,
        )
        ∷ (
          0x13,
          switch f3
              ((0x0, r_type_inst "fsgnj.q" Op.fsgnj_q rd rs1 rs2 no_flags)
                ∷ (0x1, r_type_inst "fsgnjn.q" Op.fsgnjn_q rd rs1 rs2 no_flags)
                ∷ (0x2, r_type_inst "fsgnjx.q" Op.fsgnjx_q rd rs1 rs2 no_flags)
                ∷ [])
              invalid_inst,
        )
        ∷ (
          0x14,
          switch f3
              ((0x0, r_type_inst "fmin.s" Op.fmin_s rd rs1 rs2 no_flags)
                ∷ (0x1, r_type_inst "fmax.s" Op.fmax_s rd rs1 rs2 no_flags)
                ∷ [])
              invalid_inst,
        )
        ∷ (
          0x15,
          switch f3
              ((0x0, r_type_inst "fmin.d" Op.fmin_d rd rs1 rs2 no_flags)
                ∷ (0x1, r_type_inst "fmax.d" Op.fmax_d rd rs1 rs2 no_flags)
                ∷ [])
              invalid_inst,
        )
        ∷ (
          0x17,
          switch f3
              ((0x0, r_type_inst "fmin.q" Op.fmin_q rd rs1 rs2 no_flags)
                ∷ (0x1, r_type_inst "fmax.q" Op.fmax_q rd rs1 rs2 no_flags)
                ∷ [])
              invalid_inst,
        )
        ∷ (
          0x50,
          switch f3
              ((0x0, r_type_inst "fle.s" Op.fle_s rd rs1 rs2 no_flags)
                ∷ (0x1, r_type_inst "flt.s" Op.flt_s rd rs1 rs2 no_flags)
                ∷ (0x2, r_type_inst "feq.s" Op.feq_s rd rs1 rs2 no_flags)
                ∷ [])
              invalid_inst,
        )
        ∷ (
          0x51,
          switch f3
              ((0x0, r_type_inst "fle.d" Op.fle_d rd rs1 rs2 no_flags)
                ∷ (0x1, r_type_inst "flt.d" Op.flt_d rd rs1 rs2 no_flags)
                ∷ (0x2, r_type_inst "feq.d" Op.feq_d rd rs1 rs2 no_flags)
                ∷ [])
              invalid_inst,
        )
        ∷ (
          0x53,
          switch f3
              ((0x0, r_type_inst "fle.q" Op.fle_q rd rs1 rs2 no_flags)
                ∷ (0x1, r_type_inst "flt.q" Op.flt_q rd rs1 rs2 no_flags)
                ∷ (0x2, r_type_inst "feq.q" Op.feq_q rd rs1 rs2 no_flags)
                ∷ [])
              invalid_inst,
        )
        ∷ [])
      (decode_fp_conv f5 f3 fmt rd rs1 rs2)

unfoldable pub decode_fp : ℕ → ℕ → ℕ → ℕ → ℕ → ℕ → DecodedInstruction
decode_fp code f7 f3 rd rs1 rs2 =
    let f5 = f7 / 2 ^ 2 in
    let rs3 = f5 in
    let fmt = bit_and f7 0x3 in
    switch code
      ((
        0x43,
        switch fmt
            ((0x0, r4_type_inst "fmadd.s" Op.fmadd_s rd rs1 rs2 rs3 no_flags)
              ∷ (0x1, r4_type_inst "fmadd.d" Op.fmadd_d rd rs1 rs2 rs3 no_flags)
              ∷ (0x3, r4_type_inst "fmadd.q" Op.fmadd_q rd rs1 rs2 rs3 no_flags)
              ∷ [])
            invalid_inst,
      )
        ∷ (
          0x47,
          switch fmt
              ((0x0, r4_type_inst "fmsub.s" Op.fmsub_s rd rs1 rs2 rs3 no_flags)
                ∷ (0x1, r4_type_inst "fmsub.d" Op.fmsub_d rd rs1 rs2 rs3 no_flags)
                ∷ (0x3, r4_type_inst "fmsub.q" Op.fmsub_q rd rs1 rs2 rs3 no_flags)
                ∷ [])
              invalid_inst,
        )
        ∷ (
          0x4b,
          switch fmt
              ((0x0, r4_type_inst "fnmsub.s" Op.fnmsub_s rd rs1 rs2 rs3 no_flags)
                ∷ (0x1, r4_type_inst "fnmsub.d" Op.fnmsub_d rd rs1 rs2 rs3 no_flags)
                ∷ (0x3, r4_type_inst "fnmsub.q" Op.fnmsub_q rd rs1 rs2 rs3 no_flags)
                ∷ [])
              invalid_inst,
        )
        ∷ (
          0x4f,
          switch fmt
              ((0x0, r4_type_inst "fnmadd.s" Op.fnmadd_s rd rs1 rs2 rs3 no_flags)
                ∷ (0x1, r4_type_inst "fnmadd.d" Op.fnmadd_d rd rs1 rs2 rs3 no_flags)
                ∷ (0x3, r4_type_inst "fnmadd.q" Op.fnmadd_q rd rs1 rs2 rs3 no_flags)
                ∷ [])
              invalid_inst,
        )
        ∷ (0x53, decode_fp_op f7 f5 f3 fmt rd rs1 rs2)
        ∷ [])
      invalid_inst
