-- ===== src/RuleCache/Finite/Offers.antt =====
-- The finite cache, validator/rule_cache/finite_rule_cache, as `commit` of the validator uses it.
use hope_policy_engine.Prelude.{
  ℕ, ◌≤◌, ◌<◌, ◌≡◌, refl, ◌∙◌, [], ◌∷◌, none, some, length, Option-cases, inl, inr,
}
use hope_policy_engine.Isa.{Operands, Results}
use hope_policy_engine.RuleCache.Table.{find}
use hope_policy_engine.RuleCache.Keys.{operands_key}
use hope_policy_engine.RuleCache.Ideal
use hope_policy_engine.RuleCache.Finite.{Finite, init, install_rule, allow}
use hope_policy_engine.RuleCache.Finite.Ring.{Rules, push, Tracks, init-Tracks}
use hope_policy_engine.RuleCache.Finite.Fifo.{install-Tracks, Tracks-bounded, install-capacity}

-- `if (!rule_cache->allow(ops, res)) rule_cache->install_rule(ops, res_copy);`
unfoldable pub offer : Operands → Results → Finite → Finite
offer ops res c = elim (allow ops c) [ none ↦ install_rule ops res c | some _ ↦ c ]

unfoldable pub offers : Rules → Finite → Finite
offers [] c = c
offers ((q, r) ∷ rules) c = offers rules (offer q r c)

unfoldable pub offer_window : ℕ → Rules → Operands → Results → Rules
offer_window size w q r = elim (find q w) [ none ↦ push size w q r | some _ ↦ w ]

-- The same on the window of the rules installed last.
unfoldable pub window : ℕ → Rules → Rules → Rules
window size [] w = w
window size ((q, r) ∷ rules) w = window size rules (offer_window size w q r)

allow-Tracks : {c : Finite} {w : Rules} (q : Operands) → Tracks c w → allow q c ≡ find q w
unfolding allow
allow-Tracks {c} q t = Ideal.allow-find q c.rule_cache_table ∙ t.same q

abbrev pub Follows : ℕ → Finite → Rules → Type 0
Follows size c w = Tracks c w × (c.capacity ≡ size)

offer-Follows :
    (size : ℕ) (c : Finite) (w : Rules) (q : Operands) (r : Results)
    → Follows size c w
    → Follows size (offer q r c) (offer_window size w q r)
unfolding offer offer_window
offer-Follows size c w q r (t, e) = elim (Option-cases (find q w)) [
  | inl miss ↦
      let absent = allow-Tracks q t ∙ miss in
      rw (absent, miss, offer, offer_window)
        (rw (← e) (install-Tracks q r t absent), install-capacity q r c ∙ e)
  | inr (v, hit) ↦ rw (allow-Tracks q t ∙ hit, hit, offer, offer_window) (t, e)
]

offers-Follows :
    (size : ℕ) (rules : Rules) (c : Finite) (w : Rules)
    → Follows size c w
    → Follows size (offers rules c) (window size rules w)
unfolding offers window
offers-Follows size [] c w f = f
offers-Follows size ((q, r) ∷ rules) c w f =
    offers-Follows size rules (offer q r c) _ (offer-Follows size c w q r f)

-- A new finite cache of a positive capacity, offered any rules in turn, hits exactly on the rules of the
-- window over them, with their results; it holds at most `size` rules and prints no error.
pub offers_lem :
    (size : ℕ) (rules : Rules)
    → 0 < size
    → ((q : Operands) → allow q (offers rules (init size)) ≡ find q (window size rules []))
      × (length (offers rules (init size)).rule_cache_table ≤ size)
      × ((offers rules (init size)).internal_errors ≡ 0)
offers_lem size rules h =
    let (t, e) =
      offers-Follows size rules (init size) [] (init-Tracks size h, unfold init in refl) in
    (λ q. allow-Tracks q t, rw e at (Tracks-bounded t), t.silent)
