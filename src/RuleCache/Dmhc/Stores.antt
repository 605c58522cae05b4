-- ===== src/RuleCache/Dmhc/Stores.antt =====
-- A rule that needs no eviction is stored, validator/rule_cache/dmhc_rule_cache/dmhc.cc and
-- dmhc_rule_cache.cc.
use hope_policy_engine.Prelude.{
  ℕ, zero, suc, ◌+◌, ◌^◌, ◌<◌, ◌≡◌, ◌∙◌, refl, sym, ap, subst, ◌==◌, true, false, List, [], ◌∷◌,
  Option, none, some, length, bit_xor, arith, if◌then◌else◌, Bool-cases, inl, inr, leb,
}
use hope_policy_engine.Isa.{Operands, Results}
use hope_policy_engine.RuleCache.Run.{Run, ok, stop, abort, out_of_bounds, ◌>>=◌}
use hope_policy_engine.RuleCache.Keys.{results_eq_iff}
use hope_policy_engine.RuleCache.Dmhc.State.{Dmhc, Slot, Row, Cell, Consider, at_index}
use hope_policy_engine.RuleCache.Dmhc.Cells.{
  xor_cells, free_slot, claim_cells, adjust_cell, cell_at,
}
use hope_policy_engine.RuleCache.Dmhc.Lookup.{any_zero, lookup}
use hope_policy_engine.RuleCache.Dmhc.Evict.{real_insert}
use hope_policy_engine.RuleCache.Dmhc.Insert.{conflicts, place, insert_hops, hop_limit, insert}
use hope_policy_engine.RuleCache.Dmhc.Cache.{DmhcRuleCache, considered, allow, install_rule}
use hope_policy_engine.RuleCache.Dmhc.Address.{bind-cases, ok-bind}
use hope_policy_engine.RuleCache.Dmhc.Fit.{Ends, HashesIn, rows-HashesFit}
use hope_policy_engine.RuleCache.Dmhc.CellsFit.{Found, free_slot-Ends}
use hope_policy_engine.RuleCache.Dmhc.Safe.{Wf, real_insert-Wf}
use hope_policy_engine.RuleCache.Dmhc.Hit.{lookup-real_insert, lookup-insert}

-- A run that ends in no other way than with a value or by an access outside an array.
abbrev OnlyAccesses : {A : Type 0} → Run A → Type 0
OnlyAccesses (ok a) = Unit
OnlyAccesses (stop n) = ⊥
OnlyAccesses abort = ⊥
OnlyAccesses out_of_bounds = Unit

returned :
    {A : Type 0} (P : A → Type 0) (m : Run A)
    → OnlyAccesses m
    → Ends P m
    → (a : A) × (m ≡ ok a) × P a
unfolding Ends
returned P (ok a) o h = (a, refl, h)
returned P (stop n) o h = absurd o
returned P abort o h = absurd o
returned P out_of_bounds o h = absurd h

bind-OnlyAccesses :
    {A B : Type 0} (m : Run A) (f : A → Run B)
    → OnlyAccesses m
    → ((a : A) → OnlyAccesses (f a))
    → OnlyAccesses (m >>= f)
bind-OnlyAccesses (ok a) f o g = g a
bind-OnlyAccesses (stop n) f o g = absurd o
bind-OnlyAccesses abort f o g = absurd o
bind-OnlyAccesses out_of_bounds f o g = tt

at_index-OnlyAccesses : {A : Type 0} (xs : List A) (i : ℕ) → OnlyAccesses (at_index xs i)
at_index-OnlyAccesses [] i = tt
at_index-OnlyAccesses (x ∷ xs) zero = tt
at_index-OnlyAccesses (x ∷ xs) (suc i) = at_index-OnlyAccesses xs i

cell_at-OnlyAccesses :
    (rows : List Row) (hashes : List ℕ) (i : ℕ) → OnlyAccesses (cell_at rows hashes i)
unfolding cell_at
cell_at-OnlyAccesses rows hashes i =
    bind-OnlyAccesses (at_index rows i) _ (at_index-OnlyAccesses rows i) (λ row.
      bind-OnlyAccesses (at_index hashes i) _ (at_index-OnlyAccesses hashes i)
        (λ h. at_index-OnlyAccesses row h))

xor_cells-OnlyAccesses :
    (acc : ℕ) (rows : List Row) (hashes : List ℕ) → OnlyAccesses (xor_cells acc rows hashes)
unfolding xor_cells
xor_cells-OnlyAccesses acc [] hashes = tt
xor_cells-OnlyAccesses acc (row ∷ rows) [] = tt
xor_cells-OnlyAccesses acc (row ∷ rows) (h ∷ hashes) =
    bind-OnlyAccesses (at_index row h) _ (at_index-OnlyAccesses row h)
      (λ cell. xor_cells-OnlyAccesses (bit_xor acc cell.value) rows hashes)

claim_cells-OnlyAccesses :
    (address : ℕ) (rows : List Row) (hashes : List ℕ)
    → OnlyAccesses (claim_cells address rows hashes)
unfolding claim_cells
claim_cells-OnlyAccesses address [] hashes = tt
claim_cells-OnlyAccesses address (row ∷ rows) [] = tt
claim_cells-OnlyAccesses address (row ∷ rows) (h ∷ hashes) =
    bind-OnlyAccesses (at_index row h) _ (at_index-OnlyAccesses row h) (λ cell.
      bind-OnlyAccesses (claim_cells address rows hashes) _
        (claim_cells-OnlyAccesses address rows hashes) (λ rest. tt))

adjust_cell-OnlyAccesses :
    (difference : ℕ) (rows : List Row) (hashes : List ℕ) (i : ℕ)
    → OnlyAccesses (adjust_cell difference rows hashes i)
unfolding adjust_cell
adjust_cell-OnlyAccesses difference [] hashes i = tt
adjust_cell-OnlyAccesses difference (row ∷ rows) [] i = tt
adjust_cell-OnlyAccesses difference (row ∷ rows) (h ∷ hashes) zero =
    bind-OnlyAccesses (at_index row h) _ (at_index-OnlyAccesses row h) (λ cell. tt)
adjust_cell-OnlyAccesses difference (row ∷ rows) (h ∷ hashes) (suc i) =
    bind-OnlyAccesses (adjust_cell difference rows hashes i) _
      (adjust_cell-OnlyAccesses difference rows hashes i) (λ rest. tt)

free_slot-OnlyAccesses :
    (i : ℕ) (rows : List Row) (hashes : List ℕ) → OnlyAccesses (free_slot i rows hashes)
unfolding free_slot
free_slot-OnlyAccesses i [] hashes = tt
free_slot-OnlyAccesses i (row ∷ rows) [] = tt
free_slot-OnlyAccesses i (row ∷ rows) (h ∷ hashes) =
    bind-OnlyAccesses (at_index row h) _ (at_index-OnlyAccesses row h) (λ cell.
      bind-OnlyAccesses (free_slot (suc i) rows hashes) _
        (free_slot-OnlyAccesses (suc i) rows hashes) (λ rest. tt))

-- the row `j` of those from `i` on has a free cell, and `free_slot` gives it
abbrev FreeAt : ℕ → List Row → List ℕ → Option ℕ → Type 0
FreeAt i rows hashes o =
    (j : ℕ) × (cell : Cell) × (o ≡ some (i + j))
    × (cell_at rows hashes j ≡ ok cell)
    × ((cell.cnt == 0) ≡ true)

free_slot-FreeAt :
    (i : ℕ) (rows : List Row) (hashes : List ℕ) (o : Option ℕ)
    → free_slot i rows hashes ≡ ok o
    → any_zero rows hashes ≡ ok true
    → FreeAt i rows hashes o
unfolding free_slot any_zero cell_at
free_slot-FreeAt i [] hashes o e z = absurd (cc z)
free_slot-FreeAt i (row ∷ rows) [] o e z = absurd (cc z)
free_slot-FreeAt i (row ∷ rows) (h ∷ hashes) o e z =
    bind-cases (at_index row h) _ e (λ cell found e1.
      bind-cases (free_slot (suc i) rows hashes) _ e1 (λ rest later e2.
        elim (Bool-cases (cell.cnt == 0)) [
          | inl zero_count ↦
              let first : some i ≡ o = ground arith in
              (0, cell, sym first ∙ ap some (omega arith), found, zero_count)
          | inr counted ↦
              let others : any_zero rows hashes ≡ ok true = ground arith in
              let same : rest ≡ o = ground arith in
              let (j, cell', place, at, free) =
                free_slot-FreeAt (suc i) rows hashes rest later others in
              (suc j, cell', sym same ∙ place ∙ ap some (omega arith), at, free)
        ]))

module _ (width size k : ℕ) (hasher : Operands → List ℕ)
    (bounded : (ops : Operands) → HashesIn width size k (hasher ops)) where
  real_insert-OnlyAccesses :
      (address : ℕ) (ops : Operands) (res : Results) (i : ℕ) (consider : Consider) (d : Dmhc)
      (cell : Cell)
      → cell_at d.gtable (hasher ops) i ≡ ok cell
      → (cell.cnt == 0) ≡ true
      → OnlyAccesses (real_insert address ops res (hasher ops) i consider d)
  unfolding real_insert
  real_insert-OnlyAccesses address ops res i consider d cell at free =
      bind-OnlyAccesses (at_index d.mtable address) _ (at_index-OnlyAccesses d.mtable address)
        (λ slot. subst OnlyAccesses (sym (ok-bind _ at)) (
          rw (free) (
            bind-OnlyAccesses (xor_cells 0 d.gtable (hasher ops)) _
              (xor_cells-OnlyAccesses 0 d.gtable (hasher ops))
              (λ current.
                bind-OnlyAccesses (adjust_cell (bit_xor current address) d.gtable (hasher ops) i) _
                  (adjust_cell-OnlyAccesses (bit_xor current address) d.gtable (hasher ops) i)
                  (λ rows.
                    bind-OnlyAccesses (claim_cells address rows (hasher ops)) _
                      (claim_cells-OnlyAccesses address rows (hasher ops)) (λ rows'. tt))))))

  -- `real_insert` returns where its row has a free cell.
  real_insert-returns :
      (address : ℕ) (ops : Operands) (res : Results) (i : ℕ) (consider : Consider) (d : Dmhc)
      (cell : Cell)
      → address < 2 ^ width
      → i < k
      → Wf width size k d
      → cell_at d.gtable (hasher ops) i ≡ ok cell
      → (cell.cnt == 0) ≡ true
      → (d' : Dmhc) × (real_insert address ops res (hasher ops) i consider d ≡ ok d')
  real_insert-returns address ops res i consider d cell l b w at free =
      let (d', e, _) =
        returned (Wf width size k) (real_insert address ops res (hasher ops) i consider d)
          (real_insert-OnlyAccesses address ops res i consider d cell at free)
          (real_insert-Wf width size k hasher bounded address ops res (hasher ops) i consider d l
            (bounded ops) b w) in
      (d', e)

  place-returns :
      (address : ℕ) (ops : Operands) (res : Results) (j : ℕ) (consider : Consider) (d d' : Dmhc)
      → free_slot 0 d.gtable (hasher ops) ≡ ok (some j)
      → real_insert address ops res (hasher ops) j consider d ≡ ok d'
      → place hasher address ops res none consider d ≡ ok (none, d')
  unfolding place
  place-returns address ops res j consider d d' search stored =
      ok-bind _ search ∙ ok-bind (λ d''. ok (none, d'')) stored

  hops-return :
      (address : ℕ) (ops : Operands) (res : Results) (consider : Consider) (d d' : Dmhc)
      → place hasher address ops res none consider d ≡ ok (none, d')
      → insert_hops hasher hop_limit (hasher ops) address ops res none consider d ≡ ok d'
  unfolding insert_hops
  hops-return address ops res consider d d' placed = ok-bind _ placed

  -- the tables as `insert` passes them on, when the next entry is not used
  abbrev started : Operands → Dmhc → Dmhc
  started ops d = record d {
    inserts = d.inserts + 1;
    direct_conflicts = d.direct_conflicts + conflicts ops (hasher ops) d.mtable;
    next_entry = if leb d.capacity (d.next_entry + 1) then 1 else d.next_entry + 1;
  }

  started-Wf :
      (ops : Operands) (d : Dmhc)
      → 1 < 2 ^ width
      → Wf width size k d
      → Wf width size k (started ops d)
  unfolding Wf
  started-Wf ops d l (m, g, c, n, e, z) = (m, g, c, ground arith, e, z)

  missed-Wf : (d : Dmhc) → Wf width size k d → Wf width size k (record d { misses = d.misses + 1 })
  unfolding Wf
  missed-Wf d w = w

  insert-returns :
      (ops : Operands) (res : Results) (consider : Consider) (d : Dmhc) (slot : Slot)
      → 1 < 2 ^ width
      → Wf width size k d
      → at_index d.mtable d.next_entry ≡ ok slot
      → slot.use_flag ≡ false
      → any_zero d.gtable (hasher ops) ≡ ok true
      → (d' : Dmhc) × (insert hasher ops res consider d ≡ ok d')
  unfolding Wf insert
  insert-returns ops res consider d slot l (m, g, c, n, e, z) at unused missing =
      let f = rows-HashesFit width size k d.gtable (hasher ops) g (bounded ops) in
      let (o, search, found) =
        returned (Found (0 + length d.gtable)) (free_slot 0 d.gtable (hasher ops))
          (free_slot-OnlyAccesses 0 d.gtable (hasher ops))
          (free_slot-Ends width size 0 d.gtable (hasher ops) f) in
      let (j, cell, place_of, cell_found, free) =
        free_slot-FreeAt 0 d.gtable (hasher ops) o search missing in
      let there : Found (0 + length d.gtable) (some j) =
        subst (Found (0 + length d.gtable)) (place_of ∙ ap some (omega arith)) found in
      let (d3, stored) =
        real_insert-returns d.next_entry ops res j consider (started ops d) cell n
          (ground (arith, g.0, there)) (started-Wf ops d l (m, g, c, n, e, z)) cell_found free in
      let hit = lookup-real_insert hasher d.next_entry ops res j consider (started ops d) stored in
      let placed =
        place-returns d.next_entry ops res j consider (started ops d) d3
          (search ∙ ap ok (place_of ∙ ap some (omega arith))) stored in
      let hops = hops-return d.next_entry ops res consider (started ops d) d3 placed in
      (
        record d3 { hits = d3.hits + 1 },
        ok-bind _ at
            ∙ rw (unused)
                (ok-bind _ hops ∙ ok-bind _ hit ∙ rw ((results_eq_iff res res).1 refl) refl),
      )

  -- On well-formed tables with at least two rules, where each of the hashes lies in its row, the next
  -- entry is not used and some cell of the operands has the count zero: the operands miss, a rule for
  -- them is then installed without an end of the program, and the same operands hit with its results.
  pub allow-install_rule :
      (ops : Operands) (res : Results) (cache : DmhcRuleCache) (slot : Slot)
      → 1 < 2 ^ width
      → Wf width size k cache.the_rule_cache
      → at_index cache.the_rule_cache.mtable cache.the_rule_cache.next_entry ≡ ok slot
      → slot.use_flag ≡ false
      → any_zero cache.the_rule_cache.gtable (hasher ops) ≡ ok true
      → (missed : DmhcRuleCache) × (installed : DmhcRuleCache) × (after : DmhcRuleCache) × (allow
            hasher ops cache
          ≡ ok (none, missed))
        × (install_rule hasher ops res missed ≡ ok installed)
        × (allow hasher ops installed ≡ ok (some res, after))
  unfolding allow install_rule lookup
  allow-install_rule ops res cache slot l w at unused missing =
      let d = cache.the_rule_cache in
      let d1 : Dmhc = record d { misses = d.misses + 1 } in
      let (d2, inserted) =
        insert-returns ops res (considered ops) d1 slot l (missed-Wf d w) at unused missing in
      let found = lookup-insert hasher ops res (considered ops) d1 inserted in
      (_, _, _, ok-bind _ (ok-bind _ missing), ok-bind _ inserted, ok-bind _ found)
