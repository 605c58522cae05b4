-- ===== src/Validator/Opgroup.antt =====
-- Which instructions an opgroup rule matches, validator/include/opgroup_rule.h and
-- validator/src/opgroup_rule.cc.
use hope_policy_engine.Prelude.{
  ℕ, ◌≤◌, ◌≡◌, ◌≢◌, refl, ◌==◌, Bool, true, false, not, ◌&&◌, ◌||◌, leb, if◌then◌else◌, Bool-cases,
  inl, inr, ◌⊎◌, List, [], ◌∷◌, Option, none, some, arith,
}
use hope_policy_engine.Isa.{DecodedInstruction}

pub data OperandRuleMatch : Type 0 where
  unknown : OperandRuleMatch
  any : OperandRuleMatch
  equal : OperandRuleMatch
  not_equal : OperandRuleMatch
  range : OperandRuleMatch
  not_range : OperandRuleMatch

pub record OperandRule : Type 0 where
  pub values : List ℕ
  pub match_kind : OperandRuleMatch

unfoldable pub any_of : ℕ → List ℕ → Bool
any_of value [] = false
any_of value (v ∷ values) = value == v || any_of value values

-- `values.back()` after the first member
unfoldable pub last_of : ℕ → List ℕ → ℕ
last_of v [] = v
last_of v (w ∷ values) = last_of w values

-- `front` and `back` of no values have no meaning.
unfoldable pub in_range : ℕ → List ℕ → Option Bool
in_range value [] = none
in_range value (v ∷ values) = some (leb v value && leb value (last_of v values))

unfoldable pub operand_rule_match : OperandRule → ℕ → Option Bool
operand_rule_match rule value = elim rule.match_kind [
  | unknown ↦ some false
  | any ↦ some true
  | equal ↦ some (any_of value rule.values)
  | not_equal ↦ some (not (any_of value rule.values))
  | range ↦ in_range value rule.values
  | not_range ↦ elim (in_range value rule.values) [ none ↦ none | some b ↦ some (not b) ]
]

-- The loop of `matches`, on the fields and the rules that are left.
unfoldable pub match_fields : List (Option ℕ) → List OperandRule → Option Bool
match_fields [] rules = some true
match_fields (none ∷ fields) [] = match_fields fields []
match_fields (none ∷ fields) (rule ∷ rules) = match_fields fields rules
match_fields (some value ∷ fields) [] = some false
match_fields (some value ∷ fields) (rule ∷ rules) =
    let rest = match_fields fields rules in
    elim (operand_rule_match rule value) [ none ↦ none | some b ↦ if b then rest else some false ]

unfoldable pub matches : DecodedInstruction → List OperandRule → Option Bool
matches inst rules = match_fields (inst.rd ∷ inst.rs1 ∷ inst.rs2 ∷ inst.rs3 ∷ inst.imm ∷ []) rules

-- The value is among the values.
abbrev pub Among : ℕ → List ℕ → Type 0
Among value [] = ⊥
Among value (v ∷ values) = (value ≡ v) ⊎ Among value values

abbrev Between : ℕ → List ℕ → Type 0
Between value [] = ⊥
Between value (v ∷ values) = (v ≤ value) × (value ≤ last_of v values)

-- what each kind of rule asks of a value
abbrev pub Accepts : OperandRule → ℕ → Type 0
Accepts rule value = elim rule.match_kind [
  | unknown ↦ ⊥
  | any ↦ Unit
  | equal ↦ Among value rule.values
  | not_equal ↦ ¬ (Among value rule.values)
  | range ↦ Between value rule.values
  | not_range ↦ ¬ (Between value rule.values)
]

-- Each field that the instruction has is accepted by the rule at its place.
abbrev pub AllAccepted : List (Option ℕ) → List OperandRule → Type 0
AllAccepted [] rules = Unit
AllAccepted (none ∷ fields) [] = AllAccepted fields []
AllAccepted (none ∷ fields) (rule ∷ rules) = AllAccepted fields rules
AllAccepted (some value ∷ fields) [] = ⊥
AllAccepted (some value ∷ fields) (rule ∷ rules) = Accepts rule value × AllAccepted fields rules

-- A rule with a range has values.
abbrev pub Bounded : OperandRule → Type 0
Bounded rule = elim rule.match_kind [
  | unknown ↦ Unit
  | any ↦ Unit
  | equal ↦ Unit
  | not_equal ↦ Unit
  | range ↦ rule.values ≢ []
  | not_range ↦ rule.values ≢ []
]

abbrev pub AllBounded : List OperandRule → Type 0
AllBounded [] = Unit
AllBounded (rule ∷ rules) = Bounded rule × AllBounded rules

-- A Boolean result with what it stands for.
abbrev pub Decides : Option Bool → Type 0 → Type 0
Decides none P = ⊥
Decides (some true) P = P
Decides (some false) P = ¬ P

or-Decides :
    (P Q : Type 0) (b c : Bool)
    → Decides (some b) P
    → Decides (some c) Q
    → Decides (some (b || c)) (P ⊎ Q)
or-Decides P Q true c p q = inl p
or-Decides P Q false true p q = inr q
or-Decides P Q false false p q = λ h. elim h [ inl x ↦ p x | inr y ↦ q y ]

and-Decides :
    (P Q : Type 0) (b c : Bool)
    → Decides (some b) P
    → Decides (some c) Q
    → Decides (some (b && c)) (P × Q)
and-Decides P Q true true p q = (p, q)
and-Decides P Q true false p q = λ h. q h.1
and-Decides P Q false c p q = λ h. p h.0

not-Decides : (P : Type 0) (b : Bool) → Decides (some b) P → Decides (some (not b)) (¬ P)
not-Decides P true p = λ n. n p
not-Decides P false p = p

eq-Decides : (a b : ℕ) → Decides (some (a == b)) (a ≡ b)
eq-Decides a b = elim (Bool-cases (a == b)) [
  | inl e ↦ rw (e) (ground arith)
  | inr e ↦ rw (e) (λ h. ground arith)
]

leb-Decides : (a b : ℕ) → Decides (some (leb a b)) (a ≤ b)
leb-Decides a b = elim (Bool-cases (leb a b)) [
  | inl e ↦ rw (e) (ground arith)
  | inr e ↦ rw (e) (λ h. ground arith)
]

any_of-Decides :
    (value : ℕ) (values : List ℕ) → Decides (some (any_of value values)) (Among value values)
unfolding any_of
any_of-Decides value [] = λ c. c
any_of-Decides value (v ∷ values) =
    or-Decides (value ≡ v) (Among value values) (value == v) (any_of value values)
      (eq-Decides value v) (any_of-Decides value values)

in_range-Decides :
    (value : ℕ) (values : List ℕ)
    → values ≢ []
    → Decides (in_range value values) (Between value values)
unfolding in_range
in_range-Decides value [] h = absurd (h refl)
in_range-Decides value (v ∷ values) h =
    and-Decides (v ≤ value) (value ≤ last_of v values) (leb v value) (leb value (last_of v values))
      (leb-Decides v value) (leb-Decides value (last_of v values))

negated :
    (P : Type 0) (o : Option Bool)
    → Decides o P
    → Decides (elim o [ none ↦ none | some b ↦ some (not b) ]) (¬ P)
negated P none p = p
negated P (some b) p = not-Decides P b p

rule-Decides :
    (rule : OperandRule) (value : ℕ)
    → Bounded rule
    → Decides (operand_rule_match rule value) (Accepts rule value)
unfolding operand_rule_match
rule-Decides rule value h = go rule.match_kind rule.values h
  where
    go :
        (kind : OperandRuleMatch) (values : List ℕ)
        → Bounded (record { values = values; match_kind = kind })
        → Decides
            (operand_rule_match (record { values = values; match_kind = kind }) value)
            (Accepts (record { values = values; match_kind = kind }) value)
    go unknown values h = λ c. c
    go any values h = tt
    go equal values h = any_of-Decides value values
    go not_equal values h =
        not-Decides (Among value values) (any_of value values) (any_of-Decides value values)
    go range values h = in_range-Decides value values h
    go not_range values h =
        negated (Between value values) (in_range value values) (in_range-Decides value values h)

both_decided :
    (P Q : Type 0) (o rest : Option Bool)
    → Decides o P
    → Decides rest Q
    → Decides (elim o [ none ↦ none | some b ↦ if b then rest else some false ]) (P × Q)
both_decided P Q none rest p q = p
both_decided P Q (some true) none p q = q
both_decided P Q (some true) (some true) p q = (p, q)
both_decided P Q (some true) (some false) p q = λ h. q h.1
both_decided P Q (some false) rest p q = λ h. p h.0

match_fields-Decides :
    (fields : List (Option ℕ)) (rules : List OperandRule)
    → AllBounded rules
    → Decides (match_fields fields rules) (AllAccepted fields rules)
unfolding match_fields
match_fields-Decides [] rules h = tt
match_fields-Decides (none ∷ fields) [] h = match_fields-Decides fields [] h
match_fields-Decides (none ∷ fields) (rule ∷ rules) (v, h) = match_fields-Decides fields rules h
match_fields-Decides (some value ∷ fields) [] h = λ c. c
match_fields-Decides (some value ∷ fields) (rule ∷ rules) (v, h) =
    both_decided (Accepts rule value) (AllAccepted fields rules) (operand_rule_match rule value)
      (match_fields fields rules) (rule-Decides rule value v) (match_fields-Decides fields rules h)

-- When every rule with a range has values, `matches` returns, and it returns true exactly when each operand of the
-- instruction has a rule at its place that accepts it: any value, one of the values, none of them, a
-- value from the first to the last of them, or one outside.
pub matches-Decides :
    (inst : DecodedInstruction) (rules : List OperandRule)
    → AllBounded rules
    → Decides
        (matches inst rules)
        (AllAccepted (inst.rd ∷ inst.rs1 ∷ inst.rs2 ∷ inst.rs3 ∷ inst.imm ∷ []) rules)
unfolding matches
matches-Decides inst rules h =
    match_fields-Decides (inst.rd ∷ inst.rs1 ∷ inst.rs2 ∷ inst.rs3 ∷ inst.imm ∷ []) rules h
