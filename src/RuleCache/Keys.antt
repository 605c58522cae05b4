-- ===== src/RuleCache/Keys.antt =====
-- `operator ==` of operands and results, validator/include/policy-glue/riscv_isa.h, and operands as
-- the keys of the tables.
use hope_policy_engine.Prelude.{Bool, true, ◌&&◌, not, ◌==◌, ◌≡◌, ◌↔◌, arith}
use hope_policy_engine.Isa.{Operands, Results}
use hope_policy_engine.RuleCache.Table.{Eq}

unfoldable pub operands_eq : Operands → Operands → Bool
operands_eq a b =
    a.pc == b.pc
    && a.ci == b.ci
    && a.op1 == b.op1
    && a.op2 == b.op2
    && a.op3 == b.op3
    && a.mem == b.mem

abbrev pub bool_eq : Bool → Bool → Bool
bool_eq a b = elim a [ true ↦ b | _ ↦ not b ]

unfoldable pub results_eq : Results → Results → Bool
results_eq a b =
    a.pc == b.pc
    && a.rd == b.rd
    && a.csr == b.csr
    && bool_eq a.pc_result b.pc_result
    && bool_eq a.rd_result b.rd_result
    && bool_eq a.csr_result b.csr_result

-- Operands compare equal exactly when all six tags are equal.
pub operands_eq_iff : (a b : Operands) → (operands_eq a b ≡ true) ↔ (a ≡ b)
unfolding operands_eq
operands_eq_iff a b = ground arith

pub results_eq_iff : (a b : Results) → (results_eq a b ≡ true) ↔ (a ≡ b)
unfolding results_eq
results_eq_iff a b = ground arith

instance abbrev pub operands_key : Eq Operands
operands_key = record { beq = operands_eq; beq_iff = operands_eq_iff }
