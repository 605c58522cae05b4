-- ===== src/RuleCache/Finite/Laws.antt =====
-- The finite cache, validator/rule_cache/finite_rule_cache, behind the validator's interface.
use hope_policy_engine.Prelude.{
  Bool-cases, Option-cases, inl, inr, ◌≡◌, refl, Option, none, some, arith, get_or,
}
use hope_policy_engine.Isa.{Operands, Results}
use hope_policy_engine.RuleCache.Run.{Run, ok}
use hope_policy_engine.RuleCache.Table.{find, find-erase, Unique, put-Unique, erase-Unique}
use hope_policy_engine.RuleCache.Keys.{operands_key}
use hope_policy_engine.RuleCache.Interface.{RuleCache}
use hope_policy_engine.RuleCache.Ideal
use hope_policy_engine.RuleCache.Ideal.Laws.{Holds, install-Holds}
use hope_policy_engine.RuleCache.Finite.{
  Finite, zero_operands, evict, store, install_rule, allow, flush,
}

abbrev pub Rules : (Operands → Results → Type 0) → Finite → Type 0
Rules P c = Unique c.rule_cache_table × Holds P c.rule_cache_table

evict-Rules : (P : Operands → Results → Type 0) (c : Finite) → Rules P c → Rules P (evict c)
unfolding evict
evict-Rules P c h = elim (Bool-cases c.cache_full) [
  | inl full ↦ elim (Option-cases (find key c.rule_cache_table)) [
    | inl absent ↦ rw (full, absent) h
    | inr (r, present) ↦
        rw (full, present)
          (
            erase-Unique key c.rule_cache_table h.0,
            λ k v e. h.1 k v (ground (arith, find-erase key k c.rule_cache_table h.0)),
          )
  ]
  | inr filling ↦ rw filling h
]
  where
    key : Operands
    key = get_or c.entries c.next_entry zero_operands

pub install-Rules :
    (P : Operands → Results → Type 0) (q : Operands) (r : Results) (c : Finite)
    → Rules P c
    → P q r
    → Rules P (install_rule q r c)
unfolding install_rule store
install-Rules P q r c h p =
    let e = evict-Rules P c h in
    (
      put-Unique q r (evict c).rule_cache_table e.0,
      unfold Ideal.install_rule in install-Holds P q r (evict c).rule_cache_table e.1 p,
    )

pub flush-Rules : (P : Operands → Results → Type 0) (c : Finite) → Rules P c → Rules P (flush c)
unfolding flush Ideal.flush find
flush-Rules P c h = (tt, λ k v e. absurd (ground arith))

abbrev pub answer : Operands → Finite → Run (Option Results × Finite)
answer q c = ok (allow q c, c)

pub hit :
    (P : Operands → Results → Type 0) (q : Operands) (c : Finite) {r : Results} {c' : Finite}
    → Rules P c
    → answer q c ≡ ok (some r, c')
    → (stored : Operands) × (stored ≡ q) × P stored r × Rules P c'
unfolding allow
hit P q c {r} {c'} h e =
    let e₀ : find q c.rule_cache_table ≡ some r =
      ground (arith, Ideal.allow-find q c.rule_cache_table) in
    let e₁ : c ≡ c' = ground arith in (q, refl, h.1 q r e₀, rw (← e₁) h)

pub miss :
    (P : Operands → Results → Type 0) (q : Operands) (c : Finite) {c' : Finite}
    → Rules P c
    → answer q c ≡ ok (none, c')
    → Rules P c'
miss P q c {c'} h e = let e₁ : c ≡ c' = ground arith in rw (← e₁) h

pub installed :
    (P : Operands → Results → Type 0) (q : Operands) (r : Results) (c : Finite) {c' c'' : Finite}
    → Rules P c
    → answer q c ≡ ok (none, c')
    → P q r
    → ok (install_rule q r c') ≡ ok c''
    → Rules P c''
installed P q r c {c'} {c''} h e p e' =
    let e₁ : install_rule q r c' ≡ c'' = ground arith in
    rw (← e₁) (install-Rules P q r c' (miss P q c h e) p)

abbrev pub finite_rule_cache : RuleCache
finite_rule_cache = record {
  State = Finite;
  flush = flush;
  install_rule = λ q r c. ok (install_rule q r c);
  allow = answer;
  Matches = ◌≡◌;
  Matches-refl = λ q. refl;
  Entries = Rules;
  flush-Entries = flush-Rules;
  allow-hit = hit;
  allow-miss = miss;
  install-Entries = installed;
}
