-- ===== src/Decoder/Range.antt =====
-- Instructions whose registers and CSR index the tag arrays of the validator: the predicate, and the
-- instruction builders of validator/riscv/inst_decoder.cc.
pub mod Full
pub mod Compressed
pub mod Decode
use Prim.Native.String.{String}
use hope_policy_engine.Prelude.{
  ℕ, List, ◌^◌, ◌<◌, ◌≤◌, Option, none, some, ◌≡◌, Bool, true, false, ◌||◌, if◌then◌else◌, arith,
}
use hope_policy_engine.Isa.Opcode.{Op}
use hope_policy_engine.Isa.{DecodedInstruction, Flags, no_flags}
use hope_policy_engine.Decoder.Switch.{switch, switch-both, if-both, Cases, end, case}
use hope_policy_engine.Decoder.Builders.{
  r_type_inst, r4_type_inst, fp_conv_inst, lr_inst, i_type_inst, csr_inst, s_type_inst, u_type_inst,
  system_inst, sfence_vma, invalid_inst, minus_one, x0, x1, x2,
}

abbrev pub Below : ℕ → Option ℕ → Type 0
Below n none = Unit
Below n (some v) = v < n

abbrev pub IsSomeBelow : ℕ → Option ℕ → Type 0
IsSomeBelow n none = ⊥
IsSomeBelow n (some v) = v < n

-- The registers index `ireg_tags`, the immediate of a CSR access indexes `csr_tags`, and a memory
-- access has a base register.
pub record InRange (d : DecodedInstruction) : Type 0 where
  pub rd_below : Below 32 d.rd
  pub rs1_below : Below 32 d.rs1
  pub rs2_below : Below 32 d.rs2
  pub rs3_below : Below 32 d.rs3
  pub csr_below : d.flags.has_csr_load || d.flags.has_csr_store ≡ true → IsSomeBelow 4096 d.imm
  pub base_below : d.flags.has_load || d.flags.has_store ≡ true → IsSomeBelow 32 d.rs1

pub switch-InRange :
    (x : ℕ) {cs : List (ℕ × DecodedInstruction)} {d : DecodedInstruction}
    → Cases InRange cs
    → InRange d
    → InRange (switch x cs d)
switch-InRange x p q = switch-both InRange x p q

pub if-InRange :
    (b : Bool) {x y : DecodedInstruction} → InRange x → InRange y → InRange (if b then x else y)
if-InRange b p q = if-both InRange b p q

pub x0-lt : x0 < 32
x0-lt = omega arith

pub x1-lt : x1 < 32
x1-lt = omega arith

pub x2-lt : x2 < 32
x2-lt = omega arith

pub invalid_inst-InRange : InRange invalid_inst
unfolding invalid_inst
invalid_inst-InRange = ground arith

module _ (name : String) (op : Op) where
  pub r_type_inst-InRange :
      (flags : Flags) {rd rs1 rs2 : ℕ}
      → flags.has_csr_load || flags.has_csr_store ≡ false
      → rd < 32
      → rs1 < 32
      → rs2 < 32
      → InRange (r_type_inst name op rd rs1 rs2 flags)
  unfolding r_type_inst
  r_type_inst-InRange flags e hd h1 h2 = ground arith

  pub r4_type_inst-InRange :
      {rd rs1 rs2 rs3 : ℕ}
      → rd < 32
      → rs1 < 32
      → rs2 < 32
      → rs3 < 32
      → InRange (r4_type_inst name op rd rs1 rs2 rs3 no_flags)
  unfolding r4_type_inst
  r4_type_inst-InRange hd h1 h2 h3 = ground arith

  pub fp_conv_inst-InRange :
      {rd rs1 : ℕ} → rd < 32 → rs1 < 32 → InRange (fp_conv_inst name op rd rs1 no_flags)
  unfolding fp_conv_inst
  fp_conv_inst-InRange hd h1 = ground arith

  pub lr_inst-InRange : {rd rs1 : ℕ} → rd < 32 → rs1 < 32 → InRange (lr_inst name op rd rs1)
  unfolding lr_inst
  lr_inst-InRange hd h1 = ground arith

  pub i_type_inst-InRange :
      (flags : Flags) {rd rs1 : ℕ} (imm : ℕ)
      → flags.has_csr_load || flags.has_csr_store ≡ false
      → rd < 32
      → rs1 < 32
      → InRange (i_type_inst name op rd rs1 imm flags)
  unfolding i_type_inst
  i_type_inst-InRange flags imm e hd h1 = ground arith

  pub csr_inst-InRange :
      {rd rs1 csr : ℕ} → rd < 32 → rs1 < 32 → csr ≤ 0xfff → InRange (csr_inst name op rd rs1 csr)
  unfolding csr_inst
  csr_inst-InRange hd h1 h = ground arith

  -- the forms with an immediate in place of `rs1`
  pub csr_immediate-InRange :
      {rd csr : ℕ} → rd < 32 → csr ≤ 0xfff → InRange (csr_inst name op rd minus_one csr)
  unfolding csr_inst
  csr_immediate-InRange hd h = ground arith

  pub s_type_inst-InRange :
      (flags : Flags) {rs1 rs2 : ℕ} (imm : ℕ)
      → flags.has_csr_load || flags.has_csr_store ≡ false
      → rs1 < 32
      → rs2 < 32
      → InRange (s_type_inst name op rs1 rs2 imm flags)
  unfolding s_type_inst
  s_type_inst-InRange flags imm e h1 h2 = ground arith

  pub u_type_inst-InRange :
      (flags : Flags) {rd : ℕ} (imm : ℕ)
      → flags.has_csr_load || flags.has_csr_store ≡ false
      → flags.has_load || flags.has_store ≡ false
      → rd < 32
      → InRange (u_type_inst name op rd imm flags)
  unfolding u_type_inst
  u_type_inst-InRange flags imm e e' hd = ground arith

  pub system_inst-InRange : InRange (system_inst name op no_flags)
  unfolding system_inst
  system_inst-InRange = ground arith

pub sfence_vma-InRange : {rs1 rs2 : ℕ} → rs1 < 32 → rs2 < 32 → InRange (sfence_vma rs1 rs2)
unfolding sfence_vma
sfence_vma-InRange h1 h2 = ground arith

pub ruleset in_range = (
  switch-InRange, if-InRange, case, end, invalid_inst-InRange, r_type_inst-InRange,
  r4_type_inst-InRange, fp_conv_inst-InRange, lr_inst-InRange, i_type_inst-InRange,
  csr_inst-InRange, csr_immediate-InRange, s_type_inst-InRange, u_type_inst-InRange,
  system_inst-InRange, sfence_vma-InRange, x0-lt, x1-lt, x2-lt,
)
