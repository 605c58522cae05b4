-- ===== src/Decoder/CompressedStack.antt =====
-- The compressed immediates and stack accesses: `decode_ci_type` and `decode_css_type` of
-- validator/riscv/inst_decoder.cc. A `switch` on `xlen` without a default falls through to the next
-- case, which its default repeats here.
use hope_policy_engine.Prelude.{
  ℕ, ◌*◌, ◌/◌, ◌^◌, [], ◌∷◌, bit_and, bit_or, ◌==◌, ltb, ◌&&◌, ◌||◌, if◌then◌else◌,
}
use hope_policy_engine.Isa.Opcode.{Op}
use hope_policy_engine.Isa.{DecodedInstruction, has_load, has_store, is_compressed, flags_or}
use hope_policy_engine.Decoder.Switch.{switch}
use hope_policy_engine.Decoder.Builders.{
  i_type_inst, s_type_inst, u_type_inst, invalid_inst, shl32, ne, x0, x2,
}

unfoldable pub decode_ci_type : ℕ → ℕ → ℕ → ℕ → ℕ → DecodedInstruction
decode_ci_type xlen quad f3 rds1 imm =
    let uimm = bit_and imm 0x3f in
    let wuimm = bit_or (bit_and uimm 0x3c) (bit_and uimm 0x3 * 2 ^ 6) in
    let duimm = bit_or (bit_and uimm 0x38) (bit_and uimm 0x7 * 2 ^ 6) in
    switch quad
      ((
        0x1,
        switch f3
            ((
              0x0,
              switch rds1
                  ((
                    0,
                    if ne imm 0
                        then i_type_inst "c.nop" Op.addi x0 x0 imm is_compressed
                        else invalid_inst,
                  )
                    ∷ [])
                  (if ne imm 0
                    then i_type_inst "c.addi" Op.addi rds1 rds1 imm is_compressed
                    else invalid_inst),
            )
              ∷ (
                0x1,
                switch xlen
                    ((32, invalid_inst)
                      ∷ (
                        64,
                        if ne rds1 0
                            then i_type_inst "c.addiw" Op.addiw rds1 rds1 imm is_compressed
                            else invalid_inst,
                      )
                      ∷ [])
                    (if ne rds1 0
                      then i_type_inst "c.li" Op.addi rds1 x0 imm is_compressed
                      else invalid_inst),
              )
              ∷ (
                0x2,
                if ne rds1 0
                    then i_type_inst "c.li" Op.addi rds1 x0 imm is_compressed
                    else invalid_inst,
              )
              ∷ (
                0x3,
                switch rds1
                    ((0, invalid_inst)
                      ∷ (
                        2,
                        if ne imm 0
                            then i_type_inst "c.addi16sp" Op.addi x2 x2 imm is_compressed
                            else invalid_inst,
                      )
                      ∷ [])
                    (if ne imm 0
                      then u_type_inst "c.lui" Op.lui rds1 (shl32 imm 12) is_compressed
                      else invalid_inst),
              )
              ∷ [])
            invalid_inst,
      )
        ∷ (
          0x2,
          switch f3
              ((
                0x0,
                if ne imm 0 && (ltb 32 xlen || uimm / 2 ^ 5 == 0)
                    then i_type_inst "c.slli" Op.slli rds1 rds1 uimm is_compressed
                    else invalid_inst,
              )
                ∷ (
                  0x1,
                  switch xlen
                      ((
                        32,
                        i_type_inst "c.fldsp" Op.fld rds1 x2 duimm
                            (flags_or has_load is_compressed),
                      )
                        ∷ (
                          64,
                          i_type_inst "c.fldsp" Op.fld rds1 x2 duimm
                              (flags_or has_load is_compressed),
                        )
                        ∷ [])
                      (if ne rds1 0
                        then i_type_inst "c.lwsp" Op.lw rds1 x2 wuimm
                            (flags_or has_load is_compressed)
                        else invalid_inst),
                )
                ∷ (
                  0x2,
                  if ne rds1 0
                      then i_type_inst "c.lwsp" Op.lw rds1 x2 wuimm
                          (flags_or has_load is_compressed)
                      else invalid_inst,
                )
                ∷ (
                  0x3,
                  switch xlen
                      ((
                        32,
                        i_type_inst "c.flwsp" Op.flw rds1 x2 wuimm
                            (flags_or has_load is_compressed),
                      )
                        ∷ (
                          64,
                          if ne rds1 0
                              then i_type_inst "c.ldsp" Op.ld rds1 x2 duimm
                                  (flags_or has_load is_compressed)
                              else invalid_inst,
                        )
                        ∷ [])
                      invalid_inst,
                )
                ∷ [])
              invalid_inst,
        )
        ∷ [])
      invalid_inst

unfoldable pub decode_css_type : ℕ → ℕ → ℕ → ℕ → ℕ → DecodedInstruction
decode_css_type xlen quad f3 rs2 uimm =
    let wuimm = bit_or (bit_and uimm 0x3c) (bit_and uimm 0x3 * 2 ^ 6) in
    let duimm = bit_or (bit_and uimm 0x38) (bit_and uimm 0x7 * 2 ^ 6) in
    switch quad
      ((
        0x2,
        switch f3
            ((
              0x5,
              switch xlen
                  ((
                    32,
                    s_type_inst "c.fsdsp" Op.fsd x2 rs2 duimm (flags_or has_store is_compressed),
                  )
                    ∷ (
                      64,
                      s_type_inst "c.fsdsp" Op.fsd x2 rs2 duimm (flags_or has_store is_compressed),
                    )
                    ∷ [])
                  (s_type_inst "c.swsp" Op.sw x2 rs2 wuimm (flags_or has_store is_compressed)),
            )
              ∷ (0x6, s_type_inst "c.swsp" Op.sw x2 rs2 wuimm (flags_or has_store is_compressed))
              ∷ (
                0x7,
                switch xlen
                    ((
                      32,
                      s_type_inst "c.fswsp" Op.fsw x2 rs2 wuimm (flags_or has_store is_compressed),
                    )
                      ∷ (
                        64,
                        s_type_inst "c.sdsp" Op.sd x2 rs2 duimm (flags_or has_store is_compressed),
                      )
                      ∷ [])
                    invalid_inst,
              )
              ∷ [])
            invalid_inst,
      )
        ∷ [])
      invalid_inst
