-- ===== src/RuleCache/Finite/Fifo.antt =====
-- `install_rule` of the finite cache, validator/rule_cache/finite_rule_cache, and its window of rules.
use hope_policy_engine.Prelude.{
  ◌≤◌, true, false, leb, ◌≡◌, refl, sym, ◌∙◌, List, [], ◌∷◌, ◌++◌, none, some, get_or, length,
  length-append, arith, Bool-cases, inl, inr,
}
use mathlib.Core.List.{tail}
use hope_policy_engine.Isa.{Operands, Results}
use hope_policy_engine.RuleCache.Table.{
  find, erase, Unique, find-erase, erase-Unique, length-erase_present,
}
use hope_policy_engine.RuleCache.Keys.{operands_key, operands_eq_iff}
use hope_policy_engine.RuleCache.Ideal
use hope_policy_engine.RuleCache.Finite.{Finite, zero_operands, evict, store, install_rule, allow}
use hope_policy_engine.RuleCache.Finite.Ring.{
  Ready, store-Tracks, Rules, keys, push, Tracks, get_or-middle, length-keys,
}

-- Below the end of the ring there is a slot.
first_older :
    {c : Finite} {w : Rules} (t : Tracks c w)
    → (slot : Operands) × (older : List Operands) × (t.older ≡ slot ∷ older)
first_older t = pick t.older refl
  where
    pick :
        (xs : List Operands)
        → t.older ≡ xs
        → (slot : Operands) × (older : List Operands) × (t.older ≡ slot ∷ older)
    pick [] e = absurd (ground (arith, length-append t.newer t.older))
    pick (x ∷ xs) e = (x, xs, e)

evict_filling : {c : Finite} {w : Rules} → Tracks c w → c.cache_full ≡ false → Ready (evict c) w
unfolding evict
evict_filling {c} {w} t e =
    let (slot, older, split) = first_older t in
    let same_cache : evict c ≡ c = ground arith in
    rw same_cache (record {
      newer = t.newer;
      slot = slot;
      older = older;
      ring = t.ring ∙ rw split refl;
      next = t.next;
      size = t.size;
      full = λ f. ground arith;
      filling = t.filling;
      table_unique = t.table_unique;
      window_unique = t.window_unique;
      same = t.same;
      count = t.count;
      silent = t.silent;
    })

slot_key :
    {c : Finite} {w : Rules} (t : Tracks c w) (slot : Operands) (older : List Operands)
    → t.older ≡ slot ∷ older
    → get_or c.entries c.next_entry zero_operands ≡ slot
slot_key t slot older split = ground (arith, get_or-middle t.newer slot zero_operands older)

evict_full : {c : Finite} (w : Rules) → Tracks c w → c.cache_full ≡ true → Ready (evict c) (tail w)
evict_full {c} [] t e =
    let (slot, older, split) = first_older t in absurd (ground (arith, t.full e))
evict_full {c} ((k, r) ∷ w) t e =
    let (slot, older, split) = first_older t in
    let all : k ∷ keys w ≡ slot ∷ (older ++ t.newer) = ground (arith, t.full e) in
    let k≡slot : k ≡ slot = ground arith in
    let rest : keys w ≡ older ++ t.newer = ground arith in
    let key : get_or c.entries c.next_entry zero_operands ≡ k =
      slot_key t slot older split ∙ sym k≡slot in
    let present : find k c.rule_cache_table ≡ some r =
      unfold find in ground (arith, t.same k, operands_eq_iff k k) in
    let evicted : evict c ≡ record c { rule_cache_table = erase k c.rule_cache_table } =
      unfold evict in ground arith in
    rw evicted (record {
      newer = t.newer;
      slot = slot;
      older = older;
      ring = t.ring ∙ rw split refl;
      next = t.next;
      size = t.size;
      full = λ f. rest;
      filling = λ f. ground arith;
      table_unique = erase-Unique k c.rule_cache_table t.table_unique;
      window_unique = t.window_unique.1;
      same = λ q.
          unfold find in
          ground (
            arith,
            t.same q,
            find-erase k q c.rule_cache_table t.table_unique,
            operands_eq_iff q k,
            t.window_unique.0,
          );
      count = ground (arith, t.count, length-erase_present k r c.rule_cache_table present);
      silent = t.silent;
    })

find-tail : (q : Operands) (w : Rules) → Unique w → find q w ≡ none → find q (tail w) ≡ none
unfolding find
find-tail q [] u h = refl
find-tail q ((k, r) ∷ w) u h = ground arith

-- Installing a rule on a miss moves the window on by one rule and prints no error.
pub install-Tracks :
    {c : Finite} {w : Rules} (ops : Operands) (res : Results)
    → Tracks c w
    → allow ops c ≡ none
    → Tracks (install_rule ops res c) (push c.capacity w ops res)
unfolding install_rule push
install-Tracks {c} {w} ops res t miss =
    let absent : find ops w ≡ none =
      unfold allow in ground (arith, t.same ops, Ideal.allow-find ops c.rule_cache_table) in
    elim (Bool-cases c.cache_full) [
      | inl e ↦
          let long : leb c.capacity (length w) ≡ true = ground (
            arith,
            t.full e,
            length-keys w,
            length-append t.older t.newer,
            length-append t.newer t.older,
          ) in
          rw long (store-Tracks ops res (evict_full w t e) (find-tail ops w t.window_unique absent))
      | inr e ↦
          let short : leb c.capacity (length w) ≡ false =
            ground (arith, t.filling e, length-keys w) in
          rw short (store-Tracks ops res (evict_filling t e) absent)
    ]

-- The cache never holds more rules than its capacity.
pub Tracks-bounded : {c : Finite} {w : Rules} → Tracks c w → length c.rule_cache_table ≤ c.capacity
Tracks-bounded {c} {w} t = elim (Bool-cases c.cache_full) [
  | inl e ↦ ground (
    arith,
    t.count,
    t.full e,
    length-keys w,
    length-append t.older t.newer,
    length-append t.newer t.older,
  )
  | inr e ↦ ground (arith, t.count, t.filling e, length-keys w)
]

pub install-capacity :
    (ops : Operands) (res : Results) (c : Finite) → (install_rule ops res c).capacity ≡ c.capacity
unfolding install_rule store evict
install-capacity ops res c = ground arith
