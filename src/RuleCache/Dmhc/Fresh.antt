-- ===== src/RuleCache/Dmhc/Fresh.antt =====
-- `flush` of validator/rule_cache/dmhc_rule_cache/dmhc_rule_cache.cc.
use hope_policy_engine.Prelude.{
  ℕ, zero, suc, ◌*◌, ◌≡◌, ◌<◌, refl, true, List, [], ◌∷◌, none, All, length, replicate, arith,
}
use hope_policy_engine.Isa.{Operands}
use hope_policy_engine.RuleCache.Run.{ok}
use hope_policy_engine.RuleCache.Dmhc.State.{Dmhc, Consider, at_index, empty_cell, reset}
use hope_policy_engine.RuleCache.Dmhc.Lookup.{any_zero, lookup}
use hope_policy_engine.RuleCache.Dmhc.Cache.{DmhcRuleCache, considered, allow, flush}
use hope_policy_engine.RuleCache.Dmhc.Address.{ok-bind}

at_index-replicate : {A : Type 0} (n i : ℕ) (x : A) → i < n → at_index (replicate n x) i ≡ ok x
at_index-replicate zero i x h = absurd (omega arith)
at_index-replicate (suc n) zero x h = refl
at_index-replicate (suc n) (suc i) x h = at_index-replicate n i x (omega arith)

any_zero-empty :
    (k size : ℕ) (hashes : List ℕ)
    → 0 < k
    → length hashes ≡ k
    → All (λ h. h < size) hashes
    → any_zero (replicate k (replicate size empty_cell)) hashes ≡ ok true
unfolding any_zero
any_zero-empty zero size hashes p l a = absurd (omega arith)
any_zero-empty (suc k) size [] p l a = absurd (omega arith)
any_zero-empty (suc k) size (h ∷ hashes) p l (b, a) =
    ok-bind _ (at_index-replicate size h empty_cell b)

lookup-reset :
    (hasher : Operands → List ℕ) (ops : Operands) (consider : Consider) (d : Dmhc)
    → 0 < d.k
    → length (hasher ops) ≡ d.k
    → All (λ h. h < d.c * d.capacity) (hasher ops)
    → lookup hasher ops consider (reset d) ≡ ok (none, record (reset d) { misses = 1 })
unfolding lookup reset
lookup-reset hasher ops consider d p l a =
    ok-bind _ (any_zero-empty d.k (d.c * d.capacity) (hasher ops) p l a)

-- After `flush` every query misses, if there is a hash table and the hashes lie in it.
pub allow-flush :
    (hasher : Operands → List ℕ) (ops : Operands) (cache : DmhcRuleCache)
    → 0 < cache.the_rule_cache.k
    → length (hasher ops) ≡ cache.the_rule_cache.k
    → All (λ h. h < cache.the_rule_cache.c * cache.the_rule_cache.capacity) (hasher ops)
    → (after : DmhcRuleCache) × (allow hasher ops (flush cache) ≡ ok (none, after))
unfolding allow flush
allow-flush hasher ops cache p l a =
    (_, ok-bind _ (lookup-reset hasher ops (considered ops) cache.the_rule_cache p l a))
