-- ===== src/Decoder/CompressedMemory.antt =====
-- The compressed loads and stores: `decode_cl_type` and `decode_cs_type` of
-- validator/riscv/inst_decoder.cc.
use hope_policy_engine.Prelude.{ℕ, ◌*◌, ◌^◌, [], ◌∷◌, bit_and, bit_or}
use hope_policy_engine.Isa.Opcode.{Op}
use hope_policy_engine.Isa.{DecodedInstruction, has_load, has_store, is_compressed, flags_or}
use hope_policy_engine.Decoder.Switch.{switch}
use hope_policy_engine.Decoder.Builders.{i_type_inst, s_type_inst, invalid_inst, shl32}

unfoldable pub decode_cl_type : ℕ → ℕ → ℕ → ℕ → ℕ → ℕ → DecodedInstruction
decode_cl_type xlen quad f3 rdp rs1p uimm =
    let wuimm = bit_or (bit_and uimm 0x1e * 2 ^ 1) (bit_and uimm 0x1 * 2 ^ 6) in
    let duimm = bit_or (bit_and uimm 0x1c * 2 ^ 1) (bit_and uimm 0x3 * 2 ^ 6) in
    switch quad
      ((
        0x0,
        switch f3
            ((
              0x1,
              switch xlen
                  ((
                    32,
                    i_type_inst "c.fld" Op.fld rdp rs1p (shl32 duimm 3)
                        (flags_or has_load is_compressed),
                  )
                    ∷ (
                      64,
                      i_type_inst "c.fld" Op.fld rdp rs1p (shl32 duimm 3)
                          (flags_or has_load is_compressed),
                    )
                    ∷ [])
                  (i_type_inst "c.lw" Op.lw rdp rs1p (shl32 wuimm 2)
                    (flags_or has_load is_compressed)),
            )
              ∷ (
                0x2,
                i_type_inst "c.lw" Op.lw rdp rs1p (shl32 wuimm 2) (flags_or has_load is_compressed),
              )
              ∷ (
                0x3,
                switch xlen
                    ((
                      32,
                      i_type_inst "c.flw" Op.flw rdp rs1p (shl32 wuimm 2)
                          (flags_or has_load is_compressed),
                    )
                      ∷ (
                        64,
                        i_type_inst "c.ld" Op.ld rdp rs1p (shl32 duimm 3)
                            (flags_or has_load is_compressed),
                      )
                      ∷ [])
                    invalid_inst,
              )
              ∷ [])
            invalid_inst,
      )
        ∷ [])
      invalid_inst

unfoldable pub decode_cs_type : ℕ → ℕ → ℕ → ℕ → ℕ → ℕ → DecodedInstruction
decode_cs_type xlen quad f3 rs1p rs2p uimm =
    let wuimm = bit_or (bit_and uimm 0x1e * 2 ^ 1) (bit_and uimm 0x1 * 2 ^ 6) in
    let duimm = bit_or (bit_and uimm 0x1c * 2 ^ 1) (bit_and uimm 0x3 * 2 ^ 6) in
    switch quad
      ((
        0x0,
        switch f3
            ((
              0x5,
              switch xlen
                  ((
                    32,
                    s_type_inst "c.fsd" Op.fsd rs1p rs2p duimm (flags_or has_store is_compressed),
                  )
                    ∷ (
                      64,
                      s_type_inst "c.fsd" Op.fsd rs1p rs2p duimm (flags_or has_store is_compressed),
                    )
                    ∷ [])
                  (s_type_inst "c.sw" Op.sw rs1p rs2p wuimm (flags_or has_store is_compressed)),
            )
              ∷ (0x6, s_type_inst "c.sw" Op.sw rs1p rs2p wuimm (flags_or has_store is_compressed))
              ∷ (
                0x7,
                switch xlen
                    ((
                      32,
                      s_type_inst "c.fsw" Op.fsw rs1p rs2p wuimm (flags_or has_store is_compressed),
                    )
                      ∷ (
                        64,
                        s_type_inst "c.sd" Op.sd rs1p rs2p duimm (flags_or has_store is_compressed),
                      )
                      ∷ [])
                    invalid_inst,
              )
              ∷ [])
            invalid_inst,
      )
        ∷ [])
      invalid_inst
