-- ===== src/RuleCache/Dmhc/CellsFit.antt =====
-- The loops over the hash tables of validator/rule_cache/dmhc_rule_cache/dmhc.cc on well-formed tables.
use hope_policy_engine.Prelude.{
  ℕ, zero, suc, ◌+◌, ◌-◌, ◌||◌, ◌^◌, ◌≤◌, ◌<◌, ◌≡◌, refl, ◌==◌, ltb, Bool, true, false, List, [],
  ◌∷◌, Option, none, some, length, All, bit_xor, bit_xor-lt, arith, Bool-cases, inl, inr,
  if◌then◌else◌,
}
use hope_policy_engine.RuleCache.Run.{Run, ◌>>=◌}
use hope_policy_engine.RuleCache.Dmhc.State.{Cell, Row, at_index}
use hope_policy_engine.RuleCache.Dmhc.Cells.{
  xor_cells, free_slot, may_take, smaller, min_use, release, release_cells, claim, claim_cells,
  adjust_cell, cell_at,
}
use hope_policy_engine.RuleCache.Dmhc.Lookup.{any_zero}
use hope_policy_engine.RuleCache.Dmhc.Fit.{
  Ends, Ends-bind, at_index-Ends_any, ok-Ends, Ends-if, RowFits, CellFits, HashesFit, cell-Ends,
  set-RowFits, empty_cell-CellFits,
}

-- the row that a search found, if any
abbrev pub Found : ℕ → Option ℕ → Type 0
Found n none = Unit
Found n (some i) = i < n

abbrev pub Best : ℕ → Option (ℕ × ℕ) → Type 0
Best n none = Unit
Best n (some (i, m)) = i < n

-- `do_not_victimize` has a hash for each row.
abbrev pub Spares : ℕ → Option (List ℕ) → Type 0
Spares n none = Unit
Spares n (some spared) = n ≤ length spared

may_take-Ends :
    (spared : Option (List ℕ)) (i h : ℕ) (n : ℕ)
    → Spares n spared
    → i < n
    → Ends (λ b. Unit) (may_take spared i h)
unfolding may_take Ends
may_take-Ends none i h n s l = tt
may_take-Ends (some spared) i h n s l =
    Ends-bind (λ x. Unit) (λ b. Unit) (at_index spared i) _
      (at_index-Ends_any spared i (omega arith)) (λ x u. tt)

nearer :
    (i n : ℕ) (b : Bool) (rest : Option ℕ)
    → Found (suc i + n) rest
    → Found (i + suc n) (if b then some i else rest)
nearer i n true rest q = omega arith
nearer i n false none q = tt
nearer i n false (some j) q = omega arith

smaller-Best :
    (n i m : ℕ) (best : Option (ℕ × ℕ)) → Best n best → i < n → Best n (some (smaller best i m))
unfolding smaller
smaller-Best n i m none p l = l
smaller-Best n i m (some (j, u)) p l = elim (Bool-cases (ltb m u)) [
  | inl e ↦ rw (e) l
  | inr e ↦ rw (e) p
]

release-CellFits :
    (width size address : ℕ) (free : Bool) (cell : Cell)
    → CellFits width size cell
    → CellFits width size (release address free cell)
unfolding release
release-CellFits width size address free cell c =
    elim (Bool-cases ((if free || ltb 1 cell.cnt then cell.cnt - 1 else cell.cnt) == 0)) [
      | inl e ↦ rw (e) (empty_cell-CellFits width size)
      | inr e ↦ rw (e) (
        c.0,
        elim (Bool-cases (cell.lastinsert == address)) [
          | inl e' ↦ rw (e') (empty_cell-CellFits width size).1
          | inr e' ↦ rw (e') c.1
        ],
      )
    ]

module _ (width size : ℕ) where
  pub xor_cells-Ends :
      (acc : ℕ) (rows : List Row) (hashes : List ℕ)
      → acc < 2 ^ width
      → HashesFit width size rows hashes
      → Ends (λ a. a < 2 ^ width) (xor_cells acc rows hashes)
  unfolding xor_cells HashesFit
  xor_cells-Ends acc [] hashes l f = ok-Ends _ acc l
  xor_cells-Ends acc (row ∷ rows) [] l f = absurd f
  xor_cells-Ends acc (row ∷ rows) (h ∷ hashes) l (p, r, f) =
      Ends-bind (CellFits width size) (λ a. a < 2 ^ width) (at_index row h) _
        (cell-Ends width size row h r p)
        (λ cell c.
          xor_cells-Ends (bit_xor acc cell.value) rows hashes
            (bit_xor-lt width acc cell.value l c.0) f)

  pub any_zero-Ends :
      (rows : List Row) (hashes : List ℕ)
      → HashesFit width size rows hashes
      → Ends (λ b. Unit) (any_zero rows hashes)
  unfolding any_zero HashesFit
  any_zero-Ends [] hashes f = ok-Ends _ _ tt
  any_zero-Ends (row ∷ rows) [] f = absurd f
  any_zero-Ends (row ∷ rows) (h ∷ hashes) (p, r, f) =
      Ends-bind (CellFits width size) (λ b. Unit) (at_index row h) _
        (cell-Ends width size row h r p)
        (λ cell c.
          Ends-if (λ b. Unit) (cell.cnt == 0) _ _ (ok-Ends (λ b. Unit) true tt)
            (any_zero-Ends rows hashes f))

  pub free_slot-Ends :
      (i : ℕ) (rows : List Row) (hashes : List ℕ)
      → HashesFit width size rows hashes
      → Ends (Found (i + length rows)) (free_slot i rows hashes)
  unfolding free_slot HashesFit
  free_slot-Ends i [] hashes f = ok-Ends _ _ tt
  free_slot-Ends i (row ∷ rows) [] f = absurd f
  free_slot-Ends i (row ∷ rows) (h ∷ hashes) (p, r, f) =
      Ends-bind (CellFits width size) (Found (i + suc (length rows))) (at_index row h) _
        (cell-Ends width size row h r p)
        (λ cell c.
          Ends-bind (Found (suc i + length rows)) (Found (i + suc (length rows))) _ _
            (free_slot-Ends (suc i) rows hashes f)
            (λ rest q.
              ok-Ends (Found (i + suc (length rows))) _
                (nearer i (length rows) (cell.cnt == 0) rest q)))

  -- The hash of one row.
  abbrev here :
      {B : Type 0} (Q : B → Type 0) (row : Row) (h : ℕ) (f : Cell → Run B)
      → RowFits width size row
      → h < size
      → ((cell : Cell) → CellFits width size cell → Ends Q (f cell))
      → Ends Q (at_index row h >>= f)
  here Q row h f r p g =
      Ends-bind (CellFits width size) Q (at_index row h) f (cell-Ends width size row h r p) g

  pub min_use-Ends :
      (n i : ℕ) (best : Option (ℕ × ℕ)) (rows : List Row) (hashes : List ℕ)
      (spared : Option (List ℕ))
      → i + length rows ≡ n
      → Best n best
      → Spares n spared
      → HashesFit width size rows hashes
      → Ends (Best n) (min_use i best rows hashes spared)
  unfolding min_use HashesFit
  min_use-Ends n i best [] hashes spared e b s f = ok-Ends _ _ b
  min_use-Ends n i best (row ∷ rows) [] spared e b s f = absurd f
  min_use-Ends n i best (row ∷ rows) (h ∷ hashes) spared e b s (p, r, f) =
      Ends-bind (λ x. Unit) (Best n) (may_take spared i h) _
        (may_take-Ends spared i h n s (omega arith))
        (λ free u.
          Ends-bind (Best n) (Best n) _ _
            (Ends-if (Best n) free _ _
              (here (Best n) row h _ r p
                (λ cell c. ok-Ends (Best n) _ (smaller-Best n i cell.cnt best b (omega arith))))
              (ok-Ends (Best n) best b))
            (λ best' b'. min_use-Ends n (suc i) best' rows hashes spared (omega arith) b' s f))

  abbrev pub SameShape : List Row → List Row → Type 0
  SameShape rows rows' = (length rows' ≡ length rows) × All (RowFits width size) rows'

  pub release_cells-Ends :
      (n address i : ℕ) (rows : List Row) (hashes : List ℕ) (spared : Option (List ℕ))
      → i + length rows ≡ n
      → Spares n spared
      → HashesFit width size rows hashes
      → Ends (SameShape rows) (release_cells address i rows hashes spared)
  unfolding release_cells HashesFit
  release_cells-Ends n address i [] hashes spared e s f = ok-Ends (SameShape []) [] (refl, tt)
  release_cells-Ends n address i (row ∷ rows) [] spared e s f = absurd f
  release_cells-Ends n address i (row ∷ rows) (h ∷ hashes) spared e s (p, r, f) =
      here (SameShape (row ∷ rows)) row h _ r p (λ cell c.
        Ends-bind (λ x. Unit) (SameShape (row ∷ rows)) (may_take spared i h) _
          (may_take-Ends spared i h n s (omega arith))
          (λ free u.
            Ends-bind (SameShape rows) (SameShape (row ∷ rows)) _ _
              (release_cells-Ends n address (suc i) rows hashes spared (omega arith) s f)
              (λ rest q. ok-Ends (SameShape (row ∷ rows)) _ (
                omega (arith, q.0),
                (
                  set-RowFits width size row h _ r
                      (release-CellFits width size address free cell c),
                  q.1,
                ),
              ))))

  pub claim_cells-Ends :
      (address : ℕ) (rows : List Row) (hashes : List ℕ)
      → address < 2 ^ width
      → HashesFit width size rows hashes
      → Ends (SameShape rows) (claim_cells address rows hashes)
  unfolding claim_cells claim HashesFit
  claim_cells-Ends address [] hashes l f = ok-Ends (SameShape []) [] (refl, tt)
  claim_cells-Ends address (row ∷ rows) [] l f = absurd f
  claim_cells-Ends address (row ∷ rows) (h ∷ hashes) l (p, r, f) =
      here (SameShape (row ∷ rows)) row h _ r p (λ cell c.
        Ends-bind (SameShape rows) (SameShape (row ∷ rows)) _ _
          (claim_cells-Ends address rows hashes l f)
          (λ rest q.
            ok-Ends (SameShape (row ∷ rows)) _
              (omega (arith, q.0), (set-RowFits width size row h _ r (c.0, l), q.1))))

  pub adjust_cell-Ends :
      (difference : ℕ) (rows : List Row) (hashes : List ℕ) (i : ℕ)
      → difference < 2 ^ width
      → i < length rows
      → HashesFit width size rows hashes
      → All (RowFits width size) rows
      → Ends (SameShape rows) (adjust_cell difference rows hashes i)
  unfolding adjust_cell HashesFit
  adjust_cell-Ends difference [] hashes i l b f a = absurd (omega arith)
  adjust_cell-Ends difference (row ∷ rows) [] i l b f a = absurd f
  adjust_cell-Ends difference (row ∷ rows) (h ∷ hashes) zero l b (p, r, f) (r', a) =
      here (SameShape (row ∷ rows)) row h _ r p (λ cell c. ok-Ends (SameShape (row ∷ rows)) _ (
        refl,
        (set-RowFits width size row h _ r (bit_xor-lt width cell.value difference c.0 l, c.1), a),
      ))
  adjust_cell-Ends difference (row ∷ rows) (h ∷ hashes) (suc i) l b (p, r, f) (r', a) =
      Ends-bind (SameShape rows) (SameShape (row ∷ rows)) _ _
        (adjust_cell-Ends difference rows hashes i l (omega arith) f a)
        (λ rest q. ok-Ends (SameShape (row ∷ rows)) _ (omega (arith, q.0), (r', q.1)))

  pub cell_at-Ends :
      (rows : List Row) (hashes : List ℕ) (i : ℕ)
      → i < length rows
      → HashesFit width size rows hashes
      → Ends (CellFits width size) (cell_at rows hashes i)
  unfolding cell_at HashesFit
  cell_at-Ends [] hashes i b f = absurd (omega arith)
  cell_at-Ends (row ∷ rows) [] i b f = absurd f
  cell_at-Ends (row ∷ rows) (h ∷ hashes) zero b (p, r, f) = cell-Ends width size row h r p
  cell_at-Ends (row ∷ rows) (h ∷ hashes) (suc i) b (p, r, f) =
      cell_at-Ends rows hashes i (omega arith) f
