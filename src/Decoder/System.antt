-- ===== src/Decoder/System.antt =====
-- Fences and system instructions: `decode_system` of validator/riscv/inst_decoder.cc.
use hope_policy_engine.Prelude.{ℕ, ◌*◌, ◌^◌, [], ◌∷◌, bit_and, bit_or}
use hope_policy_engine.Isa.Opcode.{Op}
use hope_policy_engine.Isa.{DecodedInstruction, no_flags}
use hope_policy_engine.Decoder.Switch.{switch}
use hope_policy_engine.Decoder.Builders.{system_inst, sfence_vma, invalid_inst}

unfoldable pub decode_system : ℕ → ℕ → ℕ → ℕ → ℕ → DecodedInstruction
decode_system code f7 f3 rs1 rs2 =
    let f12 = bit_or (f7 * 2 ^ 5) (bit_and rs2 0x1f) in
    switch code
      ((
        0x0f,
        switch f3
            ((0x0, system_inst "fence" Op.fence no_flags)
              ∷ (0x1, system_inst "fence.i" Op.fence_i no_flags)
              ∷ [])
            invalid_inst,
      )
        ∷ (
          0x73,
          switch f12
              ((0x000, system_inst "ecall" Op.ecall no_flags)
                ∷ (0x001, system_inst "ebreak" Op.ebreak no_flags)
                ∷ (0x002, system_inst "uret" Op.uret no_flags)
                ∷ (0x102, system_inst "sret" Op.sret no_flags)
                ∷ (0x105, system_inst "wfi" Op.wfi no_flags)
                ∷ (0x302, system_inst "mret" Op.mret no_flags)
                ∷ (0x7b2, system_inst "dret" Op.dret no_flags)
                ∷ [])
              (switch f7 ((0x09, sfence_vma rs1 rs2) ∷ []) invalid_inst),
        )
        ∷ [])
      invalid_inst
