-- ===== src/RuleCache/Dmhc/Insert.antt =====
-- Both functions `insert` and `check_direct_k_hash_conflicts` of
-- validator/rule_cache/dmhc_rule_cache/dmhc.cc.
use hope_policy_engine.Prelude.{
  ℕ, zero, suc, ◌+◌, Bool, true, false, not, ◌&&◌, leb, ◌==◌, if◌then◌else◌, List, [], ◌∷◌, Option,
  none, some, set,
}
use hope_policy_engine.Isa.{Operands, Results}
use hope_policy_engine.RuleCache.Run.{Run, ok, stop, out_of_bounds, ◌>>=◌}
use hope_policy_engine.RuleCache.Keys.{operands_eq, results_eq}
use hope_policy_engine.RuleCache.Dmhc.State.{Dmhc, Slot, Consider, at_index, invalid_last_user}
use hope_policy_engine.RuleCache.Dmhc.Cells.{free_slot, min_use, cell_at}
use hope_policy_engine.RuleCache.Dmhc.Lookup.{lookup}
use hope_policy_engine.RuleCache.Dmhc.Evict.{Victim, evict_mtable_entry, real_insert}

-- `HOP_LIMIT`
abbrev pub hop_limit : ℕ
hop_limit = 1

abbrev same_hashes : List ℕ → List (Option ℕ) → Bool
same_hashes [] stored = true
same_hashes (h ∷ hs) [] = true
same_hashes (h ∷ hs) (none ∷ stored) = false
same_hashes (h ∷ hs) (some s ∷ stored) = h == s && same_hashes hs stored

-- how many used entries have the hashes of `ops`, but other operands
unfoldable pub conflicts : Operands → List ℕ → List Slot → ℕ
conflicts ops hashes [] = 0
conflicts ops hashes (slot ∷ slots) =
    (if slot.use_flag && same_hashes hashes slot.hashes && not (operands_eq ops slot.inputs)
      then 1
      else 0)
    + conflicts ops hashes slots

-- `mtable_use[address] = false`
unfoldable pub kill : ℕ → Dmhc → Run Dmhc
kill address d = do
  slot ← at_index d.mtable address
  ok (record d { mtable = set d.mtable address (record slot { use_flag = false }) })

-- `consider` after `evict_mtable_entry`
unfoldable pub current_consider : Option (List ℕ) → Option Victim → Consider → Consider
current_consider none victim consider = consider
current_consider (some spared) none consider = consider
current_consider (some spared) (some victim) consider = victim.consider

module _ (hasher : Operands → List ℕ) where
  -- The entry that last used the cell of row `i` is evicted, if there is one.
  unfoldable pub make_room : List ℕ → ℕ → Option (List ℕ) → Dmhc → Run (Option Victim × Dmhc)
  make_room hashes i spared d = do
    cell ← cell_at d.gtable hashes i
    if cell.lastinsert == invalid_last_user
        then ok (none, d)
        else do r ← evict_mtable_entry hasher cell.lastinsert spared d; ok (some r.0, r.1)

  -- The second search for the smallest count, and `real_insert` there. On the second hop `consider` is the
  -- array `consider_evict`, which the eviction in between has overwritten.
  unfoldable pub replace :
      ℕ
      → Operands
      → Results
      → List ℕ
      → Option (List ℕ)
      → Consider
      → Option Victim × Dmhc
      → Run (Option Victim × Dmhc)
  replace address ops res hashes spared consider (victim, d) = do
    best ← min_use 0 none d.gtable hashes spared
    elim best [
      | none ↦ out_of_bounds
      | some (i, n) ↦ do
        d' ← real_insert address ops res hashes i (current_consider spared victim consider) d
        ok (victim, d')
    ]

  -- `insert` on a hop, without the reinsertion of the victim. On the first hop (`spared` is none) every row
  -- may be taken.
  unfoldable pub place :
      ℕ → Operands → Results → Option (List ℕ) → Consider → Dmhc → Run (Option Victim × Dmhc)
  place address ops res spared consider d = do
    let hashes = hasher ops
    free ← free_slot 0 d.gtable hashes
    elim free [
      | some i ↦ do d' ← real_insert address ops res hashes i consider d; ok (none, d')
      | none ↦ do
        best ← min_use 0 none d.gtable hashes spared
        elim best [
          | none ↦ elim spared [ none ↦ stop 3 | some s ↦ (do d' ← kill address d; ok (none, d')) ]
          | some (i, n) ↦
              make_room hashes i spared d >>= replace address ops res hashes spared consider
        ]
    ]

  -- `insert(address, ops, res, hops, do_not_victimize, consider)`; the first argument is
  -- `HOP_LIMIT - hops`.
  unfoldable pub insert_hops :
      ℕ → List ℕ → ℕ → Operands → Results → Option (List ℕ) → Consider → Dmhc → Run Dmhc
  insert_hops zero protected address ops res spared consider d = do
    r ← place address ops res spared consider d
    ok r.1
  insert_hops (suc left) protected address ops res spared consider d = do
    r ← place address ops res spared consider d
    elim r.0 [
      | none ↦ ok r.1
      | some v ↦ insert_hops left protected v.address v.ops v.res (some protected) v.consider r.1
    ]

  -- `insert(ops, res, consider)`
  unfoldable pub insert : Operands → Results → Consider → Dmhc → Run Dmhc
  insert ops res consider d = do
    let hashes = hasher ops
    let entry = d.next_entry
    let next = entry + 1
    let d1 = record d {
      inserts = d.inserts + 1;
      direct_conflicts = d.direct_conflicts + conflicts ops hashes d.mtable;
      next_entry = if leb d.capacity next then 1 else next;
    }
    slot ← at_index d.mtable entry
    d2 ← if slot.use_flag then (do r ← evict_mtable_entry hasher entry none d1; ok r.1) else ok d1
    d3 ← insert_hops hop_limit hashes entry ops res none consider d2
    r ← lookup hasher ops consider d3
    elim r.0 [ none ↦ stop 1 | some found ↦ if results_eq res found then ok r.1 else stop 1 ]
