-- ===== src/RuleCache/Interface.antt =====
-- `rule_cache_t` of validator/rule_cache/base_rule_cache.h, with what the validator may rely on.
-- `allow` gives the results on a hit, in place of writing them to its argument.
use hope_policy_engine.Prelude.{◌≡◌, Option, none, some}
use hope_policy_engine.Isa.{Operands, Results}
use hope_policy_engine.RuleCache.Run.{Run, ok}

pub record RuleCache : Type 1 where
  pub State : Type 0
  pub flush : State → State
  pub install_rule : Operands → Results → State → Run State
  pub allow : Operands → State → Run (Option Results × State)
  -- the stored operands that the cache may take for the operands of a query
  pub Matches : Operands → Operands → Type 0
  pub Matches-refl : (q : Operands) → Matches q q
  -- every rule in the cache satisfies the predicate
  pub Entries : (Operands → Results → Type 0) → State → Type 0
  pub flush-Entries :
      (P : Operands → Results → Type 0) (c : State) → Entries P c → Entries P (flush c)
  pub allow-hit :
      (P : Operands → Results → Type 0) (q : Operands) (c : State) {r : Results} {c' : State}
      → Entries P c
      → allow q c ≡ ok (some r, c')
      → (stored : Operands) × Matches stored q × P stored r × Entries P c'
  pub allow-miss :
      (P : Operands → Results → Type 0) (q : Operands) (c : State) {c' : State}
      → Entries P c
      → allow q c ≡ ok (none, c')
      → Entries P c'
  -- a rule is installed after a miss on its operands
  pub install-Entries :
      (P : Operands → Results → Type 0) (q : Operands) (r : Results) (c : State) {c' c'' : State}
      → Entries P c
      → allow q c ≡ ok (none, c')
      → P q r
      → install_rule q r c' ≡ ok c''
      → Entries P c''
