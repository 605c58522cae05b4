-- ===== src/Tests/Opgroup.antt =====
-- An opgroup rule for a load with two registers and an offset.
use hope_policy_engine.Prelude.{List, [], ◌∷◌, none, some, arith}
use hope_policy_engine.Isa.{DecodedInstruction, has_load}
use hope_policy_engine.Isa.Opcode.{lw}
use hope_policy_engine.Validator.Opgroup.{
  OperandRule, any, equal, range, AllBounded, AllAccepted, Decides, matches, matches-Decides,
}

abbrev load : DecodedInstruction
load = record {
  name = "lw";
  op = lw;
  rd = some 5;
  rs1 = some 2;
  rs2 = none;
  rs3 = none;
  imm = some 16;
  flags = has_load;
}

abbrev rules : List OperandRule
rules =
    record { values = []; match_kind = any }
    ∷ record { values = 2 ∷ 8 ∷ []; match_kind = equal }
    ∷ record { values = []; match_kind = any }
    ∷ record { values = []; match_kind = any }
    ∷ record { values = 0 ∷ 64 ∷ []; match_kind = range }
    ∷ []

rules-AllBounded : AllBounded rules
rules-AllBounded = (tt, (tt, (tt, (tt, ((λ e. ground arith), tt)))))

matches-Decides_example :
    Decides (matches load rules) (AllAccepted (some 5 ∷ some 2 ∷ none ∷ none ∷ some 16 ∷ []) rules)
matches-Decides_example = matches-Decides load rules rules-AllBounded
