-- ===== src/Tags/MetaCache.antt =====
-- `meta_set_cache_t`, validator/riscv/meta_cache.h and meta_cache.cc: metadata sets and their tags. The
-- type of the sets is generated with the policy; it comes with its comparison.
use hope_policy_engine.Prelude.{
  ℕ, zero, suc, ◌+◌, ◌<◌, if◌then◌else◌, ◌≡◌, refl, List, [], ◌∷◌, ◌++◌, Option, none, some, arith,
  length, get_elem?, Bool-cases, Option-cases, inl, inr,
}
use native.Mathlib.Numerals.{add-one}
use hope_policy_engine.RuleCache.Table.{Eq}

module _ {M : Type 0} ⦃eq : Eq M⦄ where
  -- the loop of `canonize`, `i` being its counter
  unfoldable pub index_from : ℕ → M → List M → Option ℕ
  index_from i ms [] = none
  index_from i ms (m ∷ sets) = if eq.beq m ms then some i else index_from (suc i) ms sets

  -- the tag, and the sets after the call
  unfoldable pub canonize : M → List M → ℕ × List M
  canonize ms sets = elim (index_from 0 ms sets) [
    | some i ↦ (i + 1, sets)
    | none ↦ (length (sets ++ ms ∷ []), sets ++ ms ∷ [])
  ]

  -- `operator []`: `at` throws out of range; tag 0 wraps to the largest index.
  unfoldable pub at : List M → ℕ → Option M
  at sets zero = none
  at sets (suc i) = get_elem? sets i

  index_found :
      (i : ℕ) (ms : M) (sets : List M) (j : ℕ)
      → index_from i ms sets ≡ some j
      → (d : ℕ) × (j ≡ i + d) × (get_elem? sets d ≡ some ms)
  unfolding index_from
  index_found i ms [] j h = cc
  index_found i ms (m ∷ sets) j h = elim (Bool-cases (eq.beq m ms)) [
    | inl same ↦ (0, ground arith, ground (arith, eq.beq_iff m ms))
    | inr other ↦
        let (d, e, found) = index_found (suc i) ms sets j (ground arith) in
        (suc d, omega arith, found)
  ]

  get_elem?-last : (sets : List M) (ms : M) → get_elem? (sets ++ ms ∷ []) (length sets) ≡ some ms
  get_elem?-last [] ms = refl
  get_elem?-last (m ∷ sets) ms = get_elem?-last sets ms

  get_elem?-append :
      (sets : List M) (ms : M) (i : ℕ) {m : M}
      → get_elem? sets i ≡ some m
      → get_elem? (sets ++ ms ∷ []) i ≡ some m
  get_elem?-append [] ms i h = cc
  get_elem?-append (x ∷ sets) ms zero h = h
  get_elem?-append (x ∷ sets) ms (suc i) h = get_elem?-append sets ms i h

  length-snoc : (sets : List M) (ms : M) → length (sets ++ ms ∷ []) ≡ suc (length sets)
  length-snoc [] ms = refl
  length-snoc (m ∷ sets) ms = omega (arith, length-snoc sets ms)

  -- The tag that `canonize` gives is not `BAD_TAG_VALUE`, stands for the set, and every tag that stood
  -- for a set before still stands for it.
  pub at-canonize :
      (ms : M) (sets : List M)
      → (0 < (canonize ms sets).0)
        × (at (canonize ms sets).1 (canonize ms sets).0 ≡ some ms)
        × ((t : ℕ) (m : M) → at sets t ≡ some m → at (canonize ms sets).1 t ≡ some m)
  unfolding canonize at
  at-canonize ms sets = elim (Option-cases (index_from 0 ms sets)) [
    | inl fresh ↦
        rw (fresh, canonize, length-snoc) (omega arith, get_elem?-last sets ms, λ t m h. kept t h)
    | inr (i, old) ↦
        let (d, e, found) = index_found 0 ms sets i old in
        let d≡i : d ≡ i = omega arith in
        rw (old, canonize, add-one) (omega arith, rw (← d≡i) found, λ t m h. h)
  ]
    where
      kept : (t : ℕ) {m : M} → at sets t ≡ some m → at (sets ++ ms ∷ []) t ≡ some m
      kept zero h = h
      kept (suc t) h = get_elem?-append sets ms t h

  index_snoc :
      (i : ℕ) (ms : M) (sets : List M)
      → index_from i ms sets ≡ none
      → index_from i ms (sets ++ ms ∷ []) ≡ some (i + length sets)
  unfolding index_from
  index_snoc i ms [] h = ground (arith, eq.beq_iff ms ms)
  index_snoc i ms (m ∷ sets) h = ground (arith, index_snoc (suc i) ms sets)

  canonize_fresh :
      (ms : M) (sets : List M)
      → index_from 0 ms sets ≡ none
      → canonize ms sets ≡ (length (sets ++ ms ∷ []), sets ++ ms ∷ [])
  unfolding canonize
  canonize_fresh ms sets e = ground arith

  canonize_old :
      (ms : M) (sets : List M) (i : ℕ)
      → index_from 0 ms sets ≡ some i
      → canonize ms sets ≡ (i + 1, sets)
  unfolding canonize
  canonize_old ms sets i e = ground arith

  -- A second call with the same set gives the same tag and leaves the sets alone.
  pub canonize_again :
      (ms : M) (sets : List M) → canonize ms (canonize ms sets).1 ≡ canonize ms sets
  canonize_again ms sets = elim (Option-cases (index_from 0 ms sets)) [
    | inl fresh ↦
        let found =
          canonize_old ms (sets ++ ms ∷ []) (0 + length sets) (index_snoc 0 ms sets fresh) in
        rw (canonize_fresh ms sets fresh, found, length-snoc) (ground arith)
    | inr (i, old) ↦ rw (canonize_old ms sets i old, canonize_old ms sets i old)
  ]
