-- ===== src/RuleCache/Ideal/Laws.antt =====
-- The ideal cache, validator/rule_cache/ideal_rule_cache, behind the validator's interface.
use hope_policy_engine.Prelude.{Bool-cases, inl, inr, ◌≡◌, refl, Option, none, some, arith}
use hope_policy_engine.Isa.{Operands, Results}
use hope_policy_engine.RuleCache.Run.{Run, ok}
use hope_policy_engine.RuleCache.Table.{find, find-put}
use hope_policy_engine.RuleCache.Keys.{operands_eq, operands_key, operands_eq_iff}
use hope_policy_engine.RuleCache.Interface.{RuleCache}
use hope_policy_engine.RuleCache.Ideal.{Ideal, install_rule, allow, allow-find, flush}

abbrev pub Holds : (Operands → Results → Type 0) → Ideal → Type 0
Holds P t = (k : Operands) (v : Results) → find k t ≡ some v → P k v

pub install-Holds :
    (P : Operands → Results → Type 0) (q : Operands) (r : Results) (t : Ideal)
    → Holds P t
    → P q r
    → Holds P (install_rule q r t)
unfolding install_rule
install-Holds P q r t h p k v e = elim (Bool-cases (operands_eq k q)) [
  | inl same ↦
      let k≡q : k ≡ q = (operands_eq_iff k q).0 same in
      let r≡v : r ≡ v = ground (arith, find-put q k r t) in rw (k≡q, ← r≡v) p
  | inr other ↦ h k v (ground (arith, find-put q k r t))
]

pub flush-Holds : (P : Operands → Results → Type 0) (t : Ideal) → Holds P t → Holds P (flush t)
unfolding flush find
flush-Holds P t h k v e = absurd (ground arith)

abbrev pub answer : Operands → Ideal → Run (Option Results × Ideal)
answer q t = ok (allow q t, t)

pub hit :
    (P : Operands → Results → Type 0) (q : Operands) (t : Ideal) {r : Results} {t' : Ideal}
    → Holds P t
    → answer q t ≡ ok (some r, t')
    → (stored : Operands) × (stored ≡ q) × P stored r × Holds P t'
hit P q t {r} {t'} h e =
    let e₀ : find q t ≡ some r = ground (arith, allow-find q t) in
    let e₁ : t ≡ t' = ground arith in (q, refl, h q r e₀, rw (← e₁) h)

pub miss :
    (P : Operands → Results → Type 0) (q : Operands) (t : Ideal) {t' : Ideal}
    → Holds P t
    → answer q t ≡ ok (none, t')
    → Holds P t'
miss P q t {t'} h e = let e₁ : t ≡ t' = ground arith in rw (← e₁) h

pub installed :
    (P : Operands → Results → Type 0) (q : Operands) (r : Results) (t : Ideal) {t' t'' : Ideal}
    → Holds P t
    → answer q t ≡ ok (none, t')
    → P q r
    → ok (install_rule q r t') ≡ ok t''
    → Holds P t''
installed P q r t {t'} {t''} h e p e' =
    let e₁ : install_rule q r t' ≡ t'' = ground arith in
    rw (← e₁) (install-Holds P q r t' (miss P q t h e) p)

abbrev pub ideal_rule_cache : RuleCache
ideal_rule_cache = record {
  State = Ideal;
  flush = flush;
  install_rule = λ q r t. ok (install_rule q r t);
  allow = answer;
  Matches = ◌≡◌;
  Matches-refl = λ q. refl;
  Entries = Holds;
  flush-Entries = flush-Holds;
  allow-hit = hit;
  allow-miss = miss;
  install-Entries = installed;
}
