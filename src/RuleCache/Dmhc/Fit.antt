-- ===== src/RuleCache/Dmhc/Fit.antt =====
-- Well-formed tables for validator/rule_cache/dmhc_rule_cache/dmhc.cc: the sizes of the arrays, and the
-- addresses in them.
use native.Mathlib.Nat.{pow-suc}
use hope_policy_engine.Prelude.{
  ℕ, zero, suc, ◌^◌, ◌<◌, ◌≡◌, ◌⊎◌, List, [], ◌∷◌, Bool, true, false, if◌then◌else◌, length, set,
  replicate, All, refl, arith, length-set,
}
use hope_policy_engine.RuleCache.Run.{Run, ok, stop, abort, out_of_bounds, ◌>>=◌}
use hope_policy_engine.RuleCache.Dmhc.State.{Cell, Row, at_index, empty_cell}

-- The run makes no access outside an array and ends by `exit` only with the code 1 (a failed check) or
-- 100 (no eviction); a value satisfies the predicate.
unfoldable pub Ends : {A : Type 0} → (A → Type 0) → Run A → Type 0
Ends P (ok a) = P a
Ends P (stop n) = (n ≡ 1) ⊎ (n ≡ 100)
Ends P abort = Unit
Ends P out_of_bounds = ⊥

pub ok-Ends : {A : Type 0} (P : A → Type 0) (a : A) → P a → Ends P (ok a)
unfolding Ends
ok-Ends P a p = p

pub abort-Ends : {A : Type 0} (P : A → Type 0) → Ends P abort
unfolding Ends
abort-Ends P = tt

pub stop-Ends : {A : Type 0} (P : A → Type 0) (n : ℕ) → (n ≡ 1) ⊎ (n ≡ 100) → Ends P (stop n)
unfolding Ends
stop-Ends P n e = e

pub Ends-bind :
    {A B : Type 0} (P : A → Type 0) (Q : B → Type 0) (m : Run A) (f : A → Run B)
    → Ends P m
    → ((a : A) → P a → Ends Q (f a))
    → Ends Q (m >>= f)
unfolding Ends
Ends-bind P Q (ok a) f h g = g a h
Ends-bind P Q (stop n) f h g = h
Ends-bind P Q abort f h g = tt
Ends-bind P Q out_of_bounds f h g = h

pub at_index-Ends :
    {A : Type 0} (P : A → Type 0) (xs : List A) (i : ℕ)
    → All P xs
    → i < length xs
    → Ends P (at_index xs i)
unfolding Ends
at_index-Ends P [] i h l = absurd (omega arith)
at_index-Ends P (x ∷ xs) zero (p, h) l = p
at_index-Ends P (x ∷ xs) (suc i) (p, h) l = unfold Ends in at_index-Ends P xs i h (omega arith)

pub Ends-weaken :
    {A : Type 0} (P Q : A → Type 0) (m : Run A) → Ends P m → ((a : A) → P a → Q a) → Ends Q m
unfolding Ends
Ends-weaken P Q (ok a) h g = g a h
Ends-weaken P Q (stop n) h g = h
Ends-weaken P Q abort h g = h
Ends-weaken P Q out_of_bounds h g = h

pub Ends-both :
    {A : Type 0} (P Q : A → Type 0) (m : Run A) → Ends P m → Ends Q m → Ends (λ a. P a × Q a) m
unfolding Ends
Ends-both P Q (ok a) p q = (p, q)
Ends-both P Q (stop n) p q = p
Ends-both P Q abort p q = p
Ends-both P Q out_of_bounds p q = p

pub Ends-if :
    {A : Type 0} (P : A → Type 0) (b : Bool) (m n : Run A)
    → Ends P m
    → Ends P n
    → Ends P (if b then m else n)
Ends-if P true m n p q = p
Ends-if P false m n p q = q

-- any value of an array
pub at_index-Ends_any :
    {A : Type 0} (xs : List A) (i : ℕ) → i < length xs → Ends (λ x. Unit) (at_index xs i)
unfolding Ends
at_index-Ends_any [] i l = absurd (omega arith)
at_index-Ends_any (x ∷ xs) zero l = tt
at_index-Ends_any (x ∷ xs) (suc i) l = unfold Ends in at_index-Ends_any xs i (omega arith)

pub All-set :
    {A : Type 0} (P : A → Type 0) (xs : List A) (i : ℕ) (v : A)
    → All P xs
    → P v
    → All P (set xs i v)
All-set P [] i v h p = h
All-set P (x ∷ xs) zero v (q, h) p = (p, h)
All-set P (x ∷ xs) (suc i) v (q, h) p = (q, All-set P xs i v h p)

pub All-replicate : {A : Type 0} (P : A → Type 0) (n : ℕ) (v : A) → P v → All P (replicate n v)
All-replicate P zero v p = tt
All-replicate P (suc n) v p = (p, All-replicate P n v p)

positive : (n : ℕ) → 0 < 2 ^ n
positive zero = omega arith
positive (suc n) = omega (arith, pow-suc 2 n, positive n)

-- `width` is the number of bits of an address, `size` the length of a row.
module _ (width size : ℕ) where
  abbrev pub CellFits : Cell → Type 0
  CellFits cell = (cell.value < 2 ^ width) × (cell.lastinsert < 2 ^ width)

  abbrev pub RowFits : Row → Type 0
  RowFits row = (length row ≡ size) × All CellFits row

  -- the rows, and one hash for each
  unfoldable pub HashesFit : List Row → List ℕ → Type 0
  HashesFit [] hashes = Unit
  HashesFit (row ∷ rows) [] = ⊥
  HashesFit (row ∷ rows) (h ∷ hashes) = (h < size) × RowFits row × HashesFit rows hashes

  pub empty_cell-CellFits : CellFits empty_cell
  empty_cell-CellFits = let p = positive width in (p, p)

  pub set-RowFits :
      (row : Row) (h : ℕ) (cell : Cell) → RowFits row → CellFits cell → RowFits (set row h cell)
  set-RowFits row h cell (l, c) p =
      (omega (arith, length-set row h cell), All-set CellFits row h cell c p)

  pub cell-Ends : (row : Row) (h : ℕ) → RowFits row → h < size → Ends CellFits (at_index row h)
  cell-Ends row h (l, c) p = at_index-Ends CellFits row h c (omega arith)

  -- `k` rows, and `k` hashes
  abbrev pub RowsFit : ℕ → List Row → Type 0
  RowsFit k rows = (length rows ≡ k) × All RowFits rows

  abbrev pub HashesIn : ℕ → List ℕ → Type 0
  HashesIn k hashes = (length hashes ≡ k) × All (λ h. h < size) hashes

  pub rows-HashesFit :
      (k : ℕ) (rows : List Row) (hashes : List ℕ)
      → RowsFit k rows
      → HashesIn k hashes
      → HashesFit rows hashes
  unfolding HashesFit
  rows-HashesFit k [] hashes r h = tt
  rows-HashesFit k (row ∷ rows) [] (l, r) (m, h) = absurd (omega arith)
  rows-HashesFit k (row ∷ rows) (h ∷ hashes) (l, r) (m, p) =
      (p.0, r.0, rows-HashesFit (length rows) rows hashes (refl, r.1) (omega arith, p.1))
