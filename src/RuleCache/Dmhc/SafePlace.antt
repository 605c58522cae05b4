-- ===== src/RuleCache/Dmhc/SafePlace.antt =====
-- The place of a rule in well-formed tables, validator/rule_cache/dmhc_rule_cache/dmhc.cc.
use hope_policy_engine.Prelude.{
  ℕ, ◌+◌, ◌^◌, ◌<◌, ◌≡◌, sym, ◌==◌, true, false, List, Option, none, some, length, arith,
}
use hope_policy_engine.Isa.{Operands, Results}
use hope_policy_engine.RuleCache.Run.{ok, stop, out_of_bounds, ◌>>=◌}
use hope_policy_engine.RuleCache.Dmhc.State.{Dmhc, Consider, invalid_last_user}
use hope_policy_engine.RuleCache.Dmhc.Cells.{free_slot, min_use}
use hope_policy_engine.RuleCache.Dmhc.Evict.{Victim, real_insert}
use hope_policy_engine.RuleCache.Dmhc.Insert.{kill, make_room, replace, place, current_consider}
use hope_policy_engine.RuleCache.Dmhc.Fit.{
  Ends, Ends-bind, ok-Ends, Ends-if, CellFits, HashesIn, rows-HashesFit,
}
use hope_policy_engine.RuleCache.Dmhc.CellsFit.{Found, Best, Spares, free_slot-Ends, cell_at-Ends}
use hope_policy_engine.RuleCache.Dmhc.Candidates.{candidate, candidate-none, is_some, min_use-Best}
use hope_policy_engine.RuleCache.Dmhc.Safe.{Wf, Evicted, evict-Wf, real_insert-Wf, kill-Wf}

module _ (width size k : ℕ) where
  module _ (hasher : Operands → List ℕ)
      (bounded : (ops : Operands) → HashesIn width size k (hasher ops)) where
    abbrev pub W : Dmhc → Type 0
    W = Wf width size k

    abbrev pub Inserted : Option Victim → Type 0
    Inserted none = Unit
    Inserted (some v) = v.address < 2 ^ width

    abbrev pub Placed : Option Victim × Dmhc → Type 0
    Placed r = Inserted r.0 × W r.1

    make_room-Wf :
        (hashes : List ℕ) (i : ℕ) (spared : Option (List ℕ)) (d : Dmhc)
        → HashesIn width size k hashes
        → i < k
        → Spares k spared
        → W d
        → Ends Placed (make_room hasher hashes i spared d)
    unfolding make_room Wf
    make_room-Wf hashes i spared d b l s (m, g, c, n, e, z) =
        Ends-bind (CellFits width size) Placed _ _
          (cell_at-Ends width size d.gtable hashes i (omega (arith, g.0))
            (rows-HashesFit width size k d.gtable hashes g b))
          (λ cell v.
            Ends-if Placed (cell.lastinsert == invalid_last_user) _ _
              (ok-Ends Placed _ (tt, (m, g, c, n, e, z)))
              (Ends-bind (Evicted width size k hasher bounded) Placed _ _
                (evict-Wf width size k hasher bounded cell.lastinsert spared d v.1 s
                  (m, g, c, n, e, z))
                (λ r q. ok-Ends Placed _ q)))

    replace-Wf :
        (address : ℕ) (ops : Operands) (res : Results) (spared : Option (List ℕ))
        (consider : Consider) (victim : Option Victim) (d : Dmhc)
        → address < 2 ^ width
        → Spares k spared
        → candidate 0 (hasher ops) spared ≡ true
        → Placed (victim, d)
        → Ends Placed (replace hasher address ops res (hasher ops) spared consider (victim, d))
    unfolding replace Wf
    replace-Wf address ops res spared consider victim d l s t (v, (m, g, c, n, e, z)) =
        let b = bounded ops in
        Ends-bind (λ o. Best k o × (is_some o ≡ candidate 0 (hasher ops) spared)) Placed
          (min_use 0 none d.gtable (hasher ops) spared) _
          (min_use-Best width size k d.gtable (hasher ops) spared g.0 b.0 s
            (rows-HashesFit width size k d.gtable (hasher ops) g b))
          (λ best q.
            (elim best
                as (λ o.
                  Best k o × (is_some o ≡ candidate 0 (hasher ops) spared)
                  → Ends Placed (elim o [
                    | none ↦ out_of_bounds
                    | some (i, m) ↦
                        real_insert address ops res (hasher ops) i
                          (current_consider spared victim consider) d
                        >>= λ d'. ok (victim, d')
                  ])) [
                    | none ↦ λ q. absurd (ground arith)
                    | some (i, w) ↦ λ q.
                        Ends-bind W Placed _ _
                          (real_insert-Wf width size k hasher bounded address ops res (hasher ops) i
                            _ d l b q.0 (m, g, c, n, e, z))
                          (λ d' r. ok-Ends Placed _ (v, r))
                  ])
              q)

    -- No row may be taken: impossible on the first hop.
    give_up-Wf :
        (address : ℕ) (hashes : List ℕ) (spared : Option (List ℕ)) (d : Dmhc)
        → address < 2 ^ width
        → 0 < k
        → length hashes ≡ k
        → candidate 0 hashes spared ≡ false
        → W d
        → Ends Placed
            (elim spared [ none ↦ stop 3 | some s ↦ (kill address d >>= λ d'. ok (none, d')) ])
    give_up-Wf address hashes none d l p e c w =
        absurd (ground (arith, candidate-none k hashes e p))
    give_up-Wf address hashes (some s) d l p e c w =
        Ends-bind W Placed _ _ (kill-Wf width size k hasher bounded address d l w)
          (λ d' w'. ok-Ends Placed _ (tt, w'))

    abbrev Choice : Option (List ℕ) → Operands → Option (ℕ × ℕ) → Type 0
    Choice spared ops o = Best k o × (is_some o ≡ candidate 0 (hasher ops) spared)

    take-Wf :
        (address : ℕ) (ops : Operands) (res : Results) (spared : Option (List ℕ))
        (consider : Consider) (d : Dmhc) (best : Option (ℕ × ℕ))
        → address < 2 ^ width
        → 0 < k
        → Spares k spared
        → W d
        → Choice spared ops best
        → Ends Placed (elim best [
          | none ↦ elim spared [ none ↦ stop 3 | some s ↦ (kill address d >>= λ d'. ok (none, d')) ]
          | some (i, n) ↦
              make_room hasher (hasher ops) i spared d
              >>= replace hasher address ops res (hasher ops) spared consider
        ])
    take-Wf address ops res spared consider d none l p s w q =
        give_up-Wf address (hasher ops) spared d l p (bounded ops).0 (sym q.1) w
    take-Wf address ops res spared consider d (some (i, n)) l p s w q =
        Ends-bind Placed Placed _ _ (make_room-Wf (hasher ops) i spared d (bounded ops) q.0 s w)
          (λ r t. replace-Wf address ops res spared consider r.0 r.1 l s (sym q.1) t)

    search-Wf :
        (address : ℕ) (ops : Operands) (res : Results) (spared : Option (List ℕ))
        (consider : Consider) (d : Dmhc) (free : Option ℕ)
        → address < 2 ^ width
        → 0 < k
        → Spares k spared
        → W d
        → Found k free
        → Ends Placed (elim free [
          | some i ↦ (real_insert address ops res (hasher ops) i consider d >>= λ d'. ok (none, d'))
          | none ↦ min_use 0 none d.gtable (hasher ops) spared >>= λ best. elim best [
            | none ↦ elim spared [
              | none ↦ stop 3
              | some s ↦ (kill address d >>= λ d'. ok (none, d'))
            ]
            | some (i, n) ↦
                make_room hasher (hasher ops) i spared d
                >>= replace hasher address ops res (hasher ops) spared consider
          ]
        ])
    unfolding Wf
    search-Wf address ops res spared consider d none l p s (m, g, c, n, e, z) q =
        let b = bounded ops in
        Ends-bind (Choice spared ops) Placed _ _
          (min_use-Best width size k d.gtable (hasher ops) spared g.0 b.0 s
            (rows-HashesFit width size k d.gtable (hasher ops) g b))
          (λ best t. take-Wf address ops res spared consider d best l p s (m, g, c, n, e, z) t)
    search-Wf address ops res spared consider d (some i) l p s w q =
        Ends-bind W Placed _ _
          (real_insert-Wf width size k hasher bounded address ops res (hasher ops) i consider d l
            (bounded ops) q w)
          (λ d' w'. ok-Ends Placed _ (tt, w'))

    below : (n : ℕ) (o : Option ℕ) → n ≡ k → Found n o → Found k o
    below n none e q = tt
    below n (some i) e q = omega arith

    pub place-Wf :
        (address : ℕ) (ops : Operands) (res : Results) (spared : Option (List ℕ))
        (consider : Consider) (d : Dmhc)
        → address < 2 ^ width
        → 0 < k
        → Spares k spared
        → W d
        → Ends Placed (place hasher address ops res spared consider d)
    unfolding place Wf
    place-Wf address ops res spared consider d l p s (m, g, c, n, e, z) =
        let f = rows-HashesFit width size k d.gtable (hasher ops) g (bounded ops) in
        Ends-bind (Found (0 + length d.gtable)) Placed (free_slot 0 d.gtable (hasher ops)) _
          (free_slot-Ends width size 0 d.gtable (hasher ops) f)
          (λ free q.
            search-Wf address ops res spared consider d free l p s (m, g, c, n, e, z)
              (below (0 + length d.gtable) free (omega (arith, g.0)) q))
