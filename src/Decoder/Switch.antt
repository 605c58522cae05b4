-- ===== src/Decoder/Switch.antt =====
-- The `switch` statement of the decoder on an integer: the case with the label, or the default.
use hope_policy_engine.Prelude.{ℕ, List, [], ◌∷◌, ◌==◌, if◌then◌else◌, Bool, true, false}

module _ {ℓ} {A : Type ℓ} where
  unfoldable pub switch : ℕ → List (ℕ × A) → A → A
  switch x [] d = d
  switch x ((k, v) ∷ cs) d = if x == k then v else switch x cs d

  -- What holds in every case of a switch.
  pub data Cases {κ} (P : A → Type κ) : List (ℕ × A) → Type (ℓ ⊔ κ) where
    end : Cases P []
    case : {k : ℕ} {v : A} {cs : List (ℕ × A)} → P v → Cases P cs → Cases P ((k, v) ∷ cs)

  -- What holds in both branches of a conditional.
  pub if-both {κ} : (P : A → Type κ) (b : Bool) {x y : A} → P x → P y → P (if b then x else y)
  if-both P true p q = p
  if-both P false p q = q

  -- What holds in every case and in the default holds of the switch.
  pub switch-both {κ} :
      (P : A → Type κ) (x : ℕ) {cs : List (ℕ × A)} {d : A} → Cases P cs → P d → P (switch x cs d)
  unfolding switch
  switch-both P x end q = q
  switch-both P x {d} (case {k} {v} {cs} p ps) q =
      if-both P (x == k) {x = v} {y = switch x cs d} p (switch-both P x ps q)
