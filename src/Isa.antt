-- ===== src/Isa.antt =====
-- The structures that the validator shares with the policy code and the decoder:
-- validator/include/policy-glue/riscv_isa.h, tag_types.h and policy_eval.h.
-- A `tag_t` is an unsigned machine word, kept as a number.
pub mod Opcode
use Prim.Native.String.{String}
use text.Mathlib.Text.{◌==◌ as str_eq}
use hope_policy_engine.Prelude.{
  ℕ, Bool, true, false, not, ◌&&◌, ◌||◌, Option, none, ◌==◌, ◌≡◌, arith,
}
use Opcode.{Op}

abbrev pub bad_tag_value : ℕ
bad_tag_value = 0

pub record Flags : Type 0 where
  pub has_load : Bool
  pub has_store : Bool
  pub has_csr_load : Bool
  pub has_csr_store : Bool
  pub is_compressed : Bool

abbrev pub no_flags : Flags
no_flags = record {
  has_load = false;
  has_store = false;
  has_csr_load = false;
  has_csr_store = false;
  is_compressed = false;
}

abbrev pub has_load : Flags
has_load = record no_flags { has_load = true }

abbrev pub has_store : Flags
has_store = record no_flags { has_store = true }

abbrev pub has_csr_load : Flags
has_csr_load = record no_flags { has_csr_load = true }

abbrev pub has_csr_store : Flags
has_csr_store = record no_flags { has_csr_store = true }

abbrev pub is_compressed : Flags
is_compressed = record no_flags { is_compressed = true }

-- `operator |`, which leaves `is_compressed` at its default.
abbrev pub flags_or : Flags → Flags → Flags
flags_or a b = record {
  has_load = a.has_load || b.has_load;
  has_store = a.has_store || b.has_store;
  has_csr_load = a.has_csr_load || b.has_csr_load;
  has_csr_store = a.has_csr_store || b.has_csr_store;
  is_compressed = false;
}

-- An `int` stands as its 32-bit pattern.
pub record DecodedInstruction : Type 0 where
  pub name : String
  pub op : Op
  pub rd : Option ℕ
  pub rs1 : Option ℕ
  pub rs2 : Option ℕ
  pub rs3 : Option ℕ
  pub imm : Option ℕ
  pub flags : Flags

-- `operator bool`: the name is not empty.
abbrev pub exists : DecodedInstruction → Bool
exists d = not (str_eq d.name "")

pub record Context : Type 0 where
  pub epc : ℕ
  pub bad_addr : ℕ
  pub policy_result : ℕ
  pub fail_msg : String
  pub rule_str : String
  pub cached : Bool

pub record Operands : Type 0 where
  pub pc : ℕ
  pub ci : ℕ
  pub op1 : ℕ
  pub op2 : ℕ
  pub op3 : ℕ
  pub mem : ℕ

pub record Results : Type 0 where
  pub pc : ℕ
  pub rd : ℕ
  pub csr : ℕ
  pub pc_result : Bool
  pub rd_result : Bool
  pub csr_result : Bool
