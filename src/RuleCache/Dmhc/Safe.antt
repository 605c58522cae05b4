-- ===== src/RuleCache/Dmhc/Safe.antt =====
-- The operations of validator/rule_cache/dmhc_rule_cache/dmhc.cc on well-formed tables. `hasher` gives
-- `k` hashes below `size`, the length of a row of `gtable`; the table of rules has `2 ^ width` entries.
use hope_policy_engine.Prelude.{
  ℕ, ◌*◌, ◌^◌, ◌<◌, ◌≡◌, ◌∙◌, refl, ◌==◌, List, [], ◌∷◌, Option, length, replicate, length-set,
  length-replicate, bit_xor, bit_xor-lt, arith, inr,
}
use hope_policy_engine.Isa.{Operands, Results}
use hope_policy_engine.RuleCache.Dmhc.State.{Slot, Dmhc, Consider, empty_cell, clear_slots, reset}
use hope_policy_engine.RuleCache.Dmhc.Lookup.{hit_slot, any_zero, lookup}
use hope_policy_engine.RuleCache.Dmhc.Evict.{Victim, evict_mtable_entry, real_insert}
use hope_policy_engine.RuleCache.Dmhc.Insert.{kill}
use hope_policy_engine.RuleCache.Dmhc.Fit.{
  Ends, Ends-bind, ok-Ends, Ends-if, abort-Ends, stop-Ends, at_index-Ends_any, All-replicate,
  RowFits, CellFits, RowsFit, HashesIn, rows-HashesFit, empty_cell-CellFits,
}
use hope_policy_engine.RuleCache.Dmhc.CellsFit.{
  Spares, xor_cells-Ends, any_zero-Ends, release_cells-Ends, claim_cells-Ends, adjust_cell-Ends,
  cell_at-Ends, SameShape,
}

module _ (width size k : ℕ) where
  unfoldable pub Wf : Dmhc → Type 0
  Wf d =
      (length d.mtable ≡ 2 ^ width)
      × RowsFit width size k d.gtable
      × (d.capacity ≡ 2 ^ width)
      × (d.next_entry < 2 ^ width)
      × (d.k ≡ k)
      × (d.c * d.capacity ≡ size)

  module _ (hasher : Operands → List ℕ)
      (bounded : (ops : Operands) → HashesIn width size k (hasher ops)) where
    pub lookup-Wf :
        (ops : Operands) (consider : Consider) (d : Dmhc)
        → Wf d
        → Ends (λ r. Wf r.1) (lookup hasher ops consider d)
    unfolding lookup Wf
    lookup-Wf ops consider d (m, g, c, n, e, z) =
        let f = rows-HashesFit width size k d.gtable (hasher ops) g (bounded ops) in
        Ends-bind (λ b. Unit) (λ r. Wf r.1) (any_zero d.gtable (hasher ops)) _
          (any_zero-Ends width size d.gtable (hasher ops) f)
          (λ missing u.
            Ends-if (λ r. Wf r.1) missing _ _ (ok-Ends (λ r. Wf r.1) _ (m, g, c, n, e, z))
              (Ends-bind (λ a. a < 2 ^ width) (λ r. Wf r.1) _ _
                (xor_cells-Ends width size 0 d.gtable (hasher ops) (omega arith) f)
                (λ addr l.
                  Ends-bind (λ s. Unit) (λ r. Wf r.1) _ _
                    (at_index-Ends_any d.mtable addr (omega arith))
                    (λ slot u.
                      Ends-if (λ r. Wf r.1) (hit_slot ops slot consider) _ _
                        (ok-Ends (λ r. Wf r.1) _ (m, g, c, n, e, z))
                        (ok-Ends (λ r. Wf r.1) _ (m, g, c, n, e, z))))))

    -- An eviction, with the address of its victim.
    abbrev pub Evicted : Victim × Dmhc → Type 0
    Evicted r = (r.0.address < 2 ^ width) × Wf r.1

    pub evict-Wf :
        (address : ℕ) (spared : Option (List ℕ)) (d : Dmhc)
        → address < 2 ^ width
        → Spares k spared
        → Wf d
        → Ends Evicted (evict_mtable_entry hasher address spared d)
    unfolding evict_mtable_entry Wf
    evict-Wf address spared d l s (m, g, c, n, e, z) =
        Ends-if Evicted d.no_evict _ _ (stop-Ends Evicted 100 (inr refl)) (
          Ends-bind (λ s. Unit) Evicted _ _ (at_index-Ends_any d.mtable address (omega arith))
            (λ slot u.
              let f =
                rows-HashesFit width size k d.gtable (hasher slot.inputs) g (bounded slot.inputs) in
              Ends-bind (SameShape width size d.gtable) Evicted _ _
                (release_cells-Ends width size k address 0 d.gtable (hasher slot.inputs) spared
                  (omega (arith, g.0)) s f)
                (λ rows q.
                  ok-Ends Evicted _
                    (l, (length-set d.mtable address _ ∙ m, (q.0 ∙ g.0, q.1), c, n, e, z)))))

    pub real_insert-Wf :
        (address : ℕ) (ops : Operands) (res : Results) (hashes : List ℕ) (free : ℕ)
        (consider : Consider) (d : Dmhc)
        → address < 2 ^ width
        → HashesIn width size k hashes
        → free < k
        → Wf d
        → Ends Wf (real_insert address ops res hashes free consider d)
    unfolding real_insert Wf
    real_insert-Wf address ops res hashes free consider d l b i (m, g, c, n, e, z) =
        let f = rows-HashesFit width size k d.gtable hashes g b in
        Ends-bind (λ s. Unit) Wf _ _ (at_index-Ends_any d.mtable address (omega arith))
          (λ slot u.
            Ends-bind (CellFits width size) Wf _ _
              (cell_at-Ends width size d.gtable hashes free (omega (arith, g.0)) f)
              (λ cell v.
                Ends-if Wf (cell.cnt == 0) _ _
                  (Ends-bind (λ a. a < 2 ^ width) Wf _ _
                    (xor_cells-Ends width size 0 d.gtable hashes (omega arith) f)
                    (λ current w.
                      Ends-bind (SameShape width size d.gtable) Wf _ _
                        (adjust_cell-Ends width size (bit_xor current address) d.gtable hashes free
                          (bit_xor-lt width current address w l) (omega (arith, g.0)) f g.1)
                        (λ rows q.
                          Ends-bind (SameShape width size rows) Wf _ _
                            (claim_cells-Ends width size address rows hashes l
                              (rows-HashesFit width size k rows hashes (q.0 ∙ g.0, q.1) b))
                            (λ rows' q'. ok-Ends Wf _ (
                              length-set d.mtable address _ ∙ m,
                              (q'.0 ∙ (q.0 ∙ g.0), q'.1),
                              c,
                              n,
                              e,
                              z,
                            )))))
                  (abort-Ends Wf)))

    pub kill-Wf : (address : ℕ) (d : Dmhc) → address < 2 ^ width → Wf d → Ends Wf (kill address d)
    unfolding kill Wf
    kill-Wf address d l (m, g, c, n, e, z) =
        Ends-bind (λ s. Unit) Wf _ _ (at_index-Ends_any d.mtable address (omega arith))
          (λ slot u. ok-Ends Wf _ (length-set d.mtable address _ ∙ m, g, c, n, e, z))

  length-clear_slots : (n : ℕ) (slots : List Slot) → length (clear_slots n slots) ≡ length slots
  unfolding clear_slots
  length-clear_slots n [] = refl
  length-clear_slots n (slot ∷ slots) = omega (arith, length-clear_slots n slots)

  -- A reset makes the tables well-formed whatever they hold, when the sizes are right.
  pub reset-Wf :
      (d : Dmhc)
      → 1 < 2 ^ width
      → length d.mtable ≡ 2 ^ width
      → d.capacity ≡ 2 ^ width
      → d.k ≡ k
      → d.c * d.capacity ≡ size
      → Wf (reset d)
  unfolding reset Wf
  reset-Wf d l m c e z =
      let cells = replicate (d.c * d.capacity) empty_cell in
      (
        length-clear_slots d.k d.mtable ∙ m,
        (
          length-replicate d.k cells ∙ e,
          All-replicate (RowFits width size) d.k cells (
            length-replicate (d.c * d.capacity) empty_cell ∙ z,
            All-replicate (CellFits width size) (d.c * d.capacity) empty_cell
                (empty_cell-CellFits width size),
          ),
        ),
        c,
        l,
        e,
        z,
      )
