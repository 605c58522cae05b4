-- ===== src/RuleCache/Dmhc/SafeInsert.antt =====
-- Insertion into well-formed tables, validator/rule_cache/dmhc_rule_cache/dmhc.cc.
use hope_policy_engine.Prelude.{
  ℕ, zero, suc, ◌+◌, ◌^◌, ◌<◌, ◌≡◌, refl, leb, List, Option, none, some, length, arith, inl,
  if◌then◌else◌,
}
use hope_policy_engine.Isa.{Operands, Results}
use hope_policy_engine.RuleCache.Run.{ok, stop}
use hope_policy_engine.RuleCache.Keys.{results_eq}
use hope_policy_engine.RuleCache.Dmhc.State.{Dmhc, Consider}
use hope_policy_engine.RuleCache.Dmhc.Evict.{Victim}
use hope_policy_engine.RuleCache.Dmhc.Insert.{insert_hops, insert, hop_limit}
use hope_policy_engine.RuleCache.Dmhc.Fit.{
  Ends, Ends-bind, ok-Ends, Ends-if, stop-Ends, at_index-Ends_any, HashesIn,
}
use hope_policy_engine.RuleCache.Dmhc.CellsFit.{Spares}
use hope_policy_engine.RuleCache.Dmhc.Safe.{Wf, Evicted, lookup-Wf, evict-Wf}
use hope_policy_engine.RuleCache.Dmhc.SafePlace.{Placed, place-Wf}

module _ (width size k : ℕ) where
  module _ (hasher : Operands → List ℕ)
      (bounded : (ops : Operands) → HashesIn width size k (hasher ops)) where
    abbrev W : Dmhc → Type 0
    W = Wf width size k

    insert_hops-Wf :
        (left : ℕ) (protected : List ℕ) (address : ℕ) (ops : Operands) (res : Results)
        (spared : Option (List ℕ)) (consider : Consider) (d : Dmhc)
        → address < 2 ^ width
        → 0 < k
        → length protected ≡ k
        → Spares k spared
        → W d
        → Ends W (insert_hops hasher left protected address ops res spared consider d)
    unfolding insert_hops
    insert_hops-Wf zero protected address ops res spared consider d l p e s w =
        Ends-bind (Placed width size k hasher bounded) W _ _
          (place-Wf width size k hasher bounded address ops res spared consider d l p s w)
          (λ r q. ok-Ends W r.1 q.1)
    insert_hops-Wf (suc left) protected address ops res spared consider d l p e s w =
        Ends-bind (Placed width size k hasher bounded) W _ _
          (place-Wf width size k hasher bounded address ops res spared consider d l p s w)
          (λ r q. again r.0 r.1 q (λ v d' l' w'.
            insert_hops-Wf left protected v.address v.ops v.res (some protected) v.consider d' l' p
              e (omega arith) w'))
      where
        again :
            (victim : Option Victim) (d' : Dmhc)
            → Placed width size k hasher bounded (victim, d')
            → ((v : Victim) (d'' : Dmhc)
                → v.address < 2 ^ width
                → W d''
                → Ends W (
                    insert_hops hasher left protected v.address v.ops v.res
                      (some protected)
                      v.consider
                      d''))
            → Ends W (elim victim [
              | none ↦ ok d'
              | some v ↦
                  insert_hops hasher left protected v.address v.ops v.res
                    (some protected)
                    v.consider
                    d'
            ])
        again none d' q next = ok-Ends W d' q.1
        again (some v) d' q next = next v d' q.0 q.1

    -- A checked lookup ends with the tables as they are.
    checked-Wf :
        (res : Results) (r : Option Results × Dmhc)
        → W r.1
        → Ends W (elim r.0 [
          | none ↦ stop 1
          | some found ↦ if results_eq res found then ok r.1 else stop 1
        ])
    checked-Wf res (none, d) w = stop-Ends W 1 (inl refl)
    checked-Wf res (some found, d) w =
        Ends-if W (results_eq res found) _ _ (ok-Ends W d w) (stop-Ends W 1 (inl refl))

    next-below :
        (size n : ℕ) → size ≡ 2 ^ width → 1 < 2 ^ width → (if leb size n then 1 else n) < 2 ^ width
    next-below size n e l = ground arith

    -- When there is a hash below the size for each row: on well-formed tables with at least two rules and
    -- one row, an insertion makes no access outside an array and does not reach `exit(3)`; it ends by
    -- `exit(1)`, `exit(100)`, the assertion, or with well-formed tables.
    pub insert-Wf :
        (ops : Operands) (res : Results) (consider : Consider) (d : Dmhc)
        → 1 < 2 ^ width
        → 0 < k
        → W d
        → Ends W (insert hasher ops res consider d)
    unfolding insert Wf
    insert-Wf ops res consider d l p (m, g, c, n, e, z) =
        let next = next-below d.capacity (d.next_entry + 1) c l in
        Ends-bind (λ s. Unit) W _ _ (at_index-Ends_any d.mtable d.next_entry (omega arith))
          (λ slot u.
            Ends-bind W W _ _
              (Ends-if W slot.use_flag _ _
                (Ends-bind (Evicted width size k hasher bounded) W _ _
                  (evict-Wf width size k hasher bounded d.next_entry none _ n tt
                    (m, g, c, next, e, z))
                  (λ r q. ok-Ends W r.1 q.1))
                (ok-Ends W _ (m, g, c, next, e, z)))
              (λ d2 w2.
                Ends-bind W W _ _
                  (insert_hops-Wf hop_limit (hasher ops) d.next_entry ops res none consider d2 n p
                    (bounded ops).0 tt w2)
                  (λ d3 w3.
                    Ends-bind (λ r. W r.1) W _ _
                      (lookup-Wf width size k hasher bounded ops consider d3 w3)
                      (λ r w. checked-Wf res r w))))
