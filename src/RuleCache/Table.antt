-- ===== src/RuleCache/Table.antt =====
-- `std::unordered_map` as the rule caches use it: find, assignment through `[]`, and erase.
use hope_policy_engine.Prelude.{
  ◌+◌, Bool, true, if◌then◌else◌, ◌≡◌, refl, ◌↔◌, List, [], ◌∷◌, ◌++◌, Option, none, some, arith,
  length,
}

pub record Eq (K : Type 0) : Type 0 where
  pub beq : K → K → Bool
  pub beq_iff : (a b : K) → (beq a b ≡ true) ↔ (a ≡ b)

abbrev pub Table : Type 0 → Type 0 → Type 0
Table K V = List (K × V)

module _ {K V : Type 0} ⦃eq : Eq K⦄ where
  unfoldable pub find : K → Table K V → Option V
  find q [] = none
  find q ((k, v) ∷ t) = if eq.beq q k then some v else find q t

  -- `table[k] = v`
  unfoldable pub put : K → V → Table K V → Table K V
  put k v [] = (k, v) ∷ []
  put k v ((j, w) ∷ t) = if eq.beq k j then (j, v) ∷ t else (j, w) ∷ put k v t

  unfoldable pub erase : K → Table K V → Table K V
  erase k [] = []
  erase k ((j, w) ∷ t) = if eq.beq k j then t else (j, w) ∷ erase k t

  -- No key stands twice.
  abbrev pub Unique : Table K V → Type 0
  Unique [] = Unit
  Unique (e ∷ t) = (find e.0 t ≡ none) × Unique t

  pub find-put :
      (k q : K) (v : V) (t : Table K V)
      → find q (put k v t) ≡ (if eq.beq q k then some v else find q t)
  unfolding find put
  find-put k q v [] = refl
  find-put k q v ((j, w) ∷ t) =
      ground (arith, eq.beq_iff k j, eq.beq_iff q j, eq.beq_iff q k, find-put k q v t)

  pub find-erase :
      (k q : K) (t : Table K V)
      → Unique t
      → find q (erase k t) ≡ (if eq.beq q k then none else find q t)
  unfolding find erase
  find-erase k q [] u = ground arith
  find-erase k q ((j, w) ∷ t) u =
      ground (arith, eq.beq_iff k j, eq.beq_iff q j, eq.beq_iff q k, find-erase k q t)

  pub put-Unique : (k : K) (v : V) (t : Table K V) → Unique t → Unique (put k v t)
  unfolding find put
  put-Unique k v [] u = (refl, tt)
  put-Unique k v ((j, w) ∷ t) u =
      ground (arith, eq.beq_iff k j, eq.beq_iff j k, find-put k j v t, put-Unique k v t)

  pub erase-Unique : (k : K) (t : Table K V) → Unique t → Unique (erase k t)
  unfolding find erase
  erase-Unique k [] u = tt
  erase-Unique k ((j, w) ∷ t) u = ground (arith, find-erase k j t, erase-Unique k t)

  pub length-put_absent :
      (k : K) (v : V) (t : Table K V) → find k t ≡ none → length (put k v t) ≡ length t + 1
  unfolding find put
  length-put_absent k v [] h = omega arith
  length-put_absent k v ((j, w) ∷ t) h = ground (arith, length-put_absent k v t)

  pub length-erase_present :
      (k : K) (v : V) (t : Table K V) → find k t ≡ some v → length (erase k t) + 1 ≡ length t
  unfolding find erase
  length-erase_present k v [] h = ground arith
  length-erase_present k v ((j, w) ∷ t) h = ground (arith, length-erase_present k v t)

  pub find-append :
      (q : K) (s t : Table K V)
      → find q (s ++ t) ≡ elim (find q s) [ none ↦ find q t | some v ↦ some v ]
  unfolding find
  find-append q [] t = refl
  find-append q ((j, w) ∷ s) t = ground (arith, find-append q s t)

  pub Unique-append :
      (s : Table K V) (k : K) (v : V) → Unique s → find k s ≡ none → Unique (s ++ (k, v) ∷ [])
  unfolding find
  Unique-append [] k v u h = (refl, tt)
  Unique-append ((j, w) ∷ s) k v u h =
      ground
        (arith, find-append j s ((k, v) ∷ []), eq.beq_iff j k, eq.beq_iff k j, Unique-append s k v)
