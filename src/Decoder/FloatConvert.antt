-- ===== src/Decoder/FloatConvert.antt =====
-- The conversions and moves of opcode 0x53: the innermost switch of `decode_fp` in
-- validator/riscv/inst_decoder.cc.
use hope_policy_engine.Prelude.{ℕ, [], ◌∷◌}
use hope_policy_engine.Isa.Opcode.{Op}
use hope_policy_engine.Isa.{DecodedInstruction, no_flags}
use hope_policy_engine.Decoder.Switch.{switch}
use hope_policy_engine.Decoder.Builders.{fp_conv_inst, invalid_inst}

-- the default of the switch on `f7`
unfoldable pub decode_fp_conv : ℕ → ℕ → ℕ → ℕ → ℕ → ℕ → DecodedInstruction
decode_fp_conv f5 f3 fmt rd rs1 rs2 =
    switch f5
      ((
        0x08,
        switch fmt
            ((
              0x0,
              switch rs2
                  ((0x01, fp_conv_inst "fcvt.s.d" Op.fcvt_s_d rd rs1 no_flags)
                    ∷ (0x03, fp_conv_inst "fcvt.s.q" Op.fcvt_s_q rd rs1 no_flags)
                    ∷ [])
                  invalid_inst,
            )
              ∷ (
                0x1,
                switch rs2
                    ((0x00, fp_conv_inst "fcvt.d.s" Op.fcvt_d_s rd rs1 no_flags)
                      ∷ (0x03, fp_conv_inst "fcvt.d.q" Op.fcvt_d_q rd rs1 no_flags)
                      ∷ [])
                    invalid_inst,
              )
              ∷ (
                0x3,
                switch rs2
                    ((0x00, fp_conv_inst "fcvt.q.s" Op.fcvt_q_s rd rs1 no_flags)
                      ∷ (0x01, fp_conv_inst "fcvt.q.d" Op.fcvt_q_d rd rs1 no_flags)
                      ∷ [])
                    invalid_inst,
              )
              ∷ [])
            invalid_inst,
      )
        ∷ (
          0x0b,
          switch fmt
              ((0x0, fp_conv_inst "fsqrt.s" Op.fsqrt_s rd rs1 no_flags)
                ∷ (0x1, fp_conv_inst "fsqrt.d" Op.fsqrt_d rd rs1 no_flags)
                ∷ (0x3, fp_conv_inst "fsqrt.q" Op.fsqrt_q rd rs1 no_flags)
                ∷ [])
              invalid_inst,
        )
        ∷ (
          0x18,
          switch fmt
              ((
                0x0,
                switch rs2
                    ((0x00, fp_conv_inst "fcvt.w.s" Op.fcvt_w_s rd rs1 no_flags)
                      ∷ (0x01, fp_conv_inst "fcvt.wu.s" Op.fcvt_wu_s rd rs1 no_flags)
                      ∷ (0x02, fp_conv_inst "fcvt.l.s" Op.fcvt_l_s rd rs1 no_flags)
                      ∷ (0x03, fp_conv_inst "fcvt.lu.s" Op.fcvt_lu_s rd rs1 no_flags)
                      ∷ [])
                    invalid_inst,
              )
                ∷ (
                  0x1,
                  switch rs2
                      ((0x00, fp_conv_inst "fcvt.w.d" Op.fcvt_w_d rd rs1 no_flags)
                        ∷ (0x01, fp_conv_inst "fcvt.wu.d" Op.fcvt_wu_d rd rs1 no_flags)
                        ∷ (0x02, fp_conv_inst "fcvt.l.d" Op.fcvt_l_d rd rs1 no_flags)
                        ∷ (0x03, fp_conv_inst "fcvt.lu.d" Op.fcvt_lu_d rd rs1 no_flags)
                        ∷ [])
                      invalid_inst,
                )
                ∷ (
                  0x3,
                  switch rs2
                      ((0x00, fp_conv_inst "fcvt.w.q" Op.fcvt_w_q rd rs1 no_flags)
                        ∷ (0x01, fp_conv_inst "fcvt.wu.q" Op.fcvt_wu_q rd rs1 no_flags)
                        ∷ (0x02, fp_conv_inst "fcvt.l.q" Op.fcvt_l_q rd rs1 no_flags)
                        ∷ (0x03, fp_conv_inst "fcvt.lu.q" Op.fcvt_lu_q rd rs1 no_flags)
                        ∷ [])
                      invalid_inst,
                )
                ∷ [])
              invalid_inst,
        )
        ∷ (
          0x1a,
          switch fmt
              ((
                0x0,
                switch rs2
                    ((0x00, fp_conv_inst "fcvt.s.w" Op.fcvt_s_w rd rs1 no_flags)
                      ∷ (0x01, fp_conv_inst "fcvt.s.wu" Op.fcvt_s_wu rd rs1 no_flags)
                      ∷ (0x02, fp_conv_inst "fcvt.s.l" Op.fcvt_s_l rd rs1 no_flags)
                      ∷ (0x03, fp_conv_inst "fcvt.s.lu" Op.fcvt_s_lu rd rs1 no_flags)
                      ∷ [])
                    invalid_inst,
              )
                ∷ (
                  0x1,
                  switch rs2
                      ((0x00, fp_conv_inst "fcvt.d.w" Op.fcvt_d_w rd rs1 no_flags)
                        ∷ (0x01, fp_conv_inst "fcvt.d.wu" Op.fcvt_d_wu rd rs1 no_flags)
                        ∷ (0x02, fp_conv_inst "fcvt.d.l" Op.fcvt_d_l rd rs1 no_flags)
                        ∷ (0x03, fp_conv_inst "fcvt.d.lu" Op.fcvt_d_lu rd rs1 no_flags)
                        ∷ [])
                      invalid_inst,
                )
                ∷ (
                  0x3,
                  switch rs2
                      ((0x00, fp_conv_inst "fcvt.q.w" Op.fcvt_q_w rd rs1 no_flags)
                        ∷ (0x01, fp_conv_inst "fcvt.q.wu" Op.fcvt_q_wu rd rs1 no_flags)
                        ∷ (0x02, fp_conv_inst "fcvt.q.l" Op.fcvt_q_l rd rs1 no_flags)
                        ∷ (0x03, fp_conv_inst "fcvt.q.lu" Op.fcvt_q_lu rd rs1 no_flags)
                        ∷ [])
                      invalid_inst,
                )
                ∷ [])
              invalid_inst,
        )
        ∷ (
          0x1c,
          switch fmt
              ((
                0x0,
                switch f3
                    ((0x0, fp_conv_inst "fmv.x.w" Op.fmv_x_w rd rs1 no_flags)
                      ∷ (0x1, fp_conv_inst "fclass.s" Op.fclass_s rd rs1 no_flags)
                      ∷ [])
                    invalid_inst,
              )
                ∷ (
                  0x1,
                  switch f3
                      ((0x0, fp_conv_inst "fmv.x.d" Op.fmv_x_d rd rs1 no_flags)
                        ∷ (0x1, fp_conv_inst "fclass.d" Op.fclass_d rd rs1 no_flags)
                        ∷ [])
                      invalid_inst,
                )
                ∷ (
                  0x3,
                  switch f3
                      ((0x0, fp_conv_inst "fmv.x.q" Op.fmv_x_q rd rs1 no_flags)
                        ∷ (0x1, fp_conv_inst "fclass.q" Op.fclass_q rd rs1 no_flags)
                        ∷ [])
                      invalid_inst,
                )
                ∷ [])
              invalid_inst,
        )
        ∷ (
          0x1e,
          switch fmt
              ((0x0, fp_conv_inst "fmv.w.x" Op.fmv_w_x rd rs1 no_flags)
                ∷ (0x1, fp_conv_inst "fmv.d.x" Op.fmv_d_x rd rs1 no_flags)
                ∷ (0x3, fp_conv_inst "fmv.q.x" Op.fmv_q_x rd rs1 no_flags)
                ∷ [])
              invalid_inst,
        )
        ∷ [])
      invalid_inst
