-- ===== src/Decoder/Builders.antt =====
-- The instruction builders of validator/riscv/inst_decoder.cc, and the shifts of an `int`, which is
-- kept as its 32-bit pattern.
use Prim.Native.String.{String}
use hope_policy_engine.Prelude.{
  ℕ, ◌-◌, ◌*◌, ◌/◌, ◌%◌, ◌^◌, ◌+◌, Bool, not, Option, none, some, ◌==◌, ltb, if◌then◌else◌,
}
use hope_policy_engine.Isa.Opcode.{Op}
use hope_policy_engine.Isa.{
  Flags, DecodedInstruction, no_flags, has_load, has_csr_load, has_csr_store, flags_or,
}

abbrev pub x0 : ℕ
x0 = 0

abbrev pub x1 : ℕ
x1 = 1

abbrev pub x2 : ℕ
x2 = 2

-- -1 as a 32-bit pattern
abbrev pub minus_one : ℕ
minus_one = 0xffffffff

abbrev pub ne : ℕ → ℕ → Bool
ne a b = not (a == b)

-- `x << k`
abbrev pub shl32 : ℕ → ℕ → ℕ
shl32 x k = x * 2 ^ k % 2 ^ 32

-- `x >> k` of an `int`: the sign bit fills up.
abbrev pub sar32 : ℕ → ℕ → ℕ
sar32 x k = if ltb x (2 ^ 31) then x / 2 ^ k else x / 2 ^ k + (2 ^ 32 - 2 ^ (32 - k))

-- `when` of validator/include/option.h
abbrev pub when : Bool → ℕ → Option ℕ
when b v = if b then some v else none

unfoldable pub invalid_inst : DecodedInstruction
invalid_inst = record {
  name = "";
  op = Op.invalid;
  rd = none;
  rs1 = none;
  rs2 = none;
  rs3 = none;
  imm = none;
  flags = no_flags;
}

unfoldable pub r_type_inst : String → Op → ℕ → ℕ → ℕ → Flags → DecodedInstruction
r_type_inst name op rd rs1 rs2 flags = record {
  name = name;
  op = op;
  rd = some rd;
  rs1 = some rs1;
  rs2 = some rs2;
  rs3 = none;
  imm = none;
  flags = flags;
}

unfoldable pub r4_type_inst : String → Op → ℕ → ℕ → ℕ → ℕ → Flags → DecodedInstruction
r4_type_inst name op rd rs1 rs2 rs3 flags = record {
  name = name;
  op = op;
  rd = some rd;
  rs1 = some rs1;
  rs2 = some rs2;
  rs3 = some rs3;
  imm = none;
  flags = flags;
}

unfoldable pub fp_conv_inst : String → Op → ℕ → ℕ → Flags → DecodedInstruction
fp_conv_inst name op rd rs1 flags = record {
  name = name;
  op = op;
  rd = some rd;
  rs1 = some rs1;
  rs2 = none;
  rs3 = none;
  imm = none;
  flags = flags;
}

-- the literals for `lr.w` and `lr.d` in `decode_r_type`
unfoldable pub lr_inst : String → Op → ℕ → ℕ → DecodedInstruction
lr_inst name op rd rs1 = record {
  name = name;
  op = op;
  rd = some rd;
  rs1 = some rs1;
  rs2 = none;
  rs3 = none;
  imm = none;
  flags = has_load;
}

unfoldable pub i_type_inst : String → Op → ℕ → ℕ → ℕ → Flags → DecodedInstruction
i_type_inst name op rd rs1 imm flags = record {
  name = name;
  op = op;
  rd = some rd;
  rs1 = some rs1;
  rs2 = none;
  rs3 = none;
  imm = some imm;
  flags = flags;
}

-- `rs1 >= 0` is read off the sign bit; `csr` is cut to 16 bits.
unfoldable pub csr_inst : String → Op → ℕ → ℕ → ℕ → DecodedInstruction
csr_inst name op rd rs1 csr = record {
  name = name;
  op = op;
  rd = when (ne rd 0) rd;
  rs1 = when (ltb rs1 (2 ^ 31)) rs1;
  rs2 = none;
  rs3 = none;
  imm = some (csr % 2 ^ 16);
  flags = if ne rd 0 then flags_or has_csr_load has_csr_store else has_csr_store;
}

unfoldable pub s_type_inst : String → Op → ℕ → ℕ → ℕ → Flags → DecodedInstruction
s_type_inst name op rs1 rs2 imm flags = record {
  name = name;
  op = op;
  rd = none;
  rs1 = some rs1;
  rs2 = some rs2;
  rs3 = none;
  imm = some imm;
  flags = flags;
}

unfoldable pub u_type_inst : String → Op → ℕ → ℕ → Flags → DecodedInstruction
u_type_inst name op rd imm flags = record {
  name = name;
  op = op;
  rd = some rd;
  rs1 = none;
  rs2 = none;
  rs3 = none;
  imm = some imm;
  flags = flags;
}

unfoldable pub system_inst : String → Op → Flags → DecodedInstruction
system_inst name op flags = record {
  name = name;
  op = op;
  rd = none;
  rs1 = none;
  rs2 = none;
  rs3 = none;
  imm = none;
  flags = flags;
}

-- the literal for `sfence.vma` in `decode_system`
unfoldable pub sfence_vma : ℕ → ℕ → DecodedInstruction
sfence_vma rs1 rs2 = record {
  name = "sfence.vma";
  op = Op.sfence_vma;
  rd = none;
  rs1 = some rs1;
  rs2 = some rs2;
  rs3 = none;
  imm = none;
  flags = no_flags;
}
