-- ===== src/RuleCache/Dmhc/Candidates.antt =====
-- Which rows `insert` of validator/rule_cache/dmhc_rule_cache/dmhc.cc may take does not depend on the
-- counts.
use hope_policy_engine.Prelude.{
  ℕ, zero, suc, ◌+◌, ◌<◌, ◌≡◌, refl, ◌==◌, Bool, true, false, not, ◌||◌, List, [], ◌∷◌, Option,
  none, some, length, arith, if◌then◌else◌,
}
use hope_policy_engine.RuleCache.Run.{ok, ◌>>=◌}
use hope_policy_engine.RuleCache.Dmhc.State.{Row, at_index}
use hope_policy_engine.RuleCache.Dmhc.Cells.{may_take, smaller, min_use}
use hope_policy_engine.RuleCache.Dmhc.Fit.{
  Ends, Ends-bind, ok-Ends, Ends-weaken, Ends-both, RowFits, HashesFit, CellFits, cell-Ends,
}
use hope_policy_engine.RuleCache.Dmhc.CellsFit.{Best, Spares, min_use-Ends}

abbrev pub is_some : {A : Type 0} → Option A → Bool
is_some none = false
is_some (some a) = true

-- the value of `may_take`, for a row that `spared` has
abbrev takes : Option (List ℕ) → ℕ → ℕ → Bool
takes none i h = true
takes (some []) i h = true
takes (some (s ∷ spared)) zero h = not (h == s)
takes (some (s ∷ spared)) (suc i) h = takes (some spared) i h

unfoldable pub candidate : ℕ → List ℕ → Option (List ℕ) → Bool
candidate i [] spared = false
candidate i (h ∷ hashes) spared = takes spared i h || candidate (suc i) hashes spared

may_take_lem :
    (spared : Option (List ℕ)) (i h n : ℕ)
    → Spares n spared
    → i < n
    → Ends (λ b. b ≡ takes spared i h) (may_take spared i h)
unfolding may_take Ends
may_take_lem none i h n s l = refl
may_take_lem (some []) i h n s l = absurd (omega arith)
may_take_lem (some (s ∷ spared)) zero h n p l = refl
may_take_lem (some (s ∷ spared)) (suc i) h n p l =
    may_take_lem (some spared) i h (length spared) (omega arith) (omega arith)

module _ (width size : ℕ) where
  Decided : Option (ℕ × ℕ) → Bool → Option (ℕ × ℕ) → Type 0
  Decided best b o = is_some o ≡ (is_some best || b)

  After : Option (ℕ × ℕ) → Bool → Option (ℕ × ℕ) → Type 0
  After best free o = is_some o ≡ (is_some best || free)

  one_row :
      (best : Option (ℕ × ℕ)) (i h : ℕ) (free : Bool) (row : Row)
      → h < size
      → RowFits width size row
      → Ends (After best free) (
          if free
          then (at_index row h >>= λ cell. ok (some (smaller best i cell.cnt)))
          else ok best)
  unfolding After
  one_row best i h true row p r =
      Ends-bind (CellFits width size) (After best true) (at_index row h) _
        (cell-Ends width size row h r p)
        (λ cell c. ok-Ends (After best true) _ (unfold After in ground arith))
  one_row best i h false row p r = ok-Ends (After best false) best (unfold After in ground arith)

  joined :
      (o o' b free t c : Bool) → o ≡ (o' || c) → o' ≡ (b || free) → free ≡ t → o ≡ (b || (t || c))
  joined o o' b free t c e e' e'' = ground arith

  min_use-is_some :
      (n i : ℕ) (best : Option (ℕ × ℕ)) (rows : List Row) (hashes : List ℕ)
      (spared : Option (List ℕ))
      → i + length rows ≡ n
      → length hashes ≡ length rows
      → Spares n spared
      → HashesFit width size rows hashes
      → Ends (Decided best (candidate i hashes spared)) (min_use i best rows hashes spared)
  unfolding min_use HashesFit candidate Decided After
  min_use-is_some n i best [] [] spared e l s f = ok-Ends _ _ (ground arith)
  min_use-is_some n i best [] (h ∷ hashes) spared e l s f = absurd (omega arith)
  min_use-is_some n i best (row ∷ rows) [] spared e l s f = absurd f
  min_use-is_some n i best (row ∷ rows) (h ∷ hashes) spared e l s (p, r, f) =
      Ends-bind (λ b. b ≡ takes spared i h) (Decided best (candidate i (h ∷ hashes) spared))
        (may_take spared i h) _ (may_take_lem spared i h n s (omega arith))
        (λ free u.
          Ends-bind (After best free) (Decided best (candidate i (h ∷ hashes) spared)) _ _
            (one_row best i h free row p r)
            (λ best' b'.
              Ends-weaken (Decided best' (candidate (suc i) hashes spared)) _ _
                (min_use-is_some n (suc i) best' rows hashes spared (omega arith) (omega arith) s f)
                (λ o d. joined (is_some o) (is_some best') (is_some best) free _ _ d b' u)))

  -- The search finds a row exactly when there is one that it may take.
  pub min_use-Best :
      (k : ℕ) (rows : List Row) (hashes : List ℕ) (spared : Option (List ℕ))
      → length rows ≡ k
      → length hashes ≡ k
      → Spares k spared
      → HashesFit width size rows hashes
      → Ends
          (λ o. Best k o × (is_some o ≡ candidate 0 hashes spared))
          (min_use 0 none rows hashes spared)
  unfolding Decided
  min_use-Best k rows hashes spared e l s f =
      Ends-both (Best k) (Decided none (candidate 0 hashes spared)) _
        (min_use-Ends width size k 0 none rows hashes spared (omega arith) tt s f)
        (min_use-is_some k 0 none rows hashes spared (omega arith) (omega arith) s f)

-- On the first hop every row may be taken.
pub candidate-none :
    (k : ℕ) (hashes : List ℕ) → length hashes ≡ k → 0 < k → candidate 0 hashes none ≡ true
unfolding candidate
candidate-none k [] e l = absurd (omega arith)
candidate-none k (h ∷ hashes) e l = refl
