-- ===== src/Validator/Outcomes.antt =====
-- How a call of the validator may end, as a predicate on its outcome.
use hope_policy_engine.Prelude.{
  Bool, true, false, if◌then◌else◌, ℕ, suc, zero, ◌<◌, ◌≡◌, refl, List, [], ◌∷◌, length, arith,
}
use hope_policy_engine.Validator.State.{Outcome, ok, fault, ◌>>=◌, Fault, at_index}

-- It returns a value with `P`, or leaves with a fault in `E`.
abbrev pub Ends : {A : Type 0} → (Fault → Type 0) → (A → Type 0) → Outcome A → Type 0
Ends E P (ok a) = P a
Ends E P (fault e) = E e

abbrev pub Never : Fault → Type 0
Never e = ⊥

pub Ends-bind :
    {A B : Type 0} (E : Fault → Type 0) (P : A → Type 0) (Q : B → Type 0) (m : Outcome A)
    (f : A → Outcome B)
    → Ends E P m
    → ((a : A) → P a → Ends E Q (f a))
    → Ends E Q (m >>= f)
Ends-bind E P Q (ok a) f h k = k a h
Ends-bind E P Q (fault e) f h k = h

pub Ends-weaken :
    {A : Type 0} (E F : Fault → Type 0) (P : A → Type 0) (m : Outcome A)
    → ((e : Fault) → E e → F e)
    → Ends E P m
    → Ends F P m
Ends-weaken E F P (ok a) w h = h
Ends-weaken E F P (fault e) w h = w e h

-- An index within a list reads a value.
pub at_index-below : (xs : List ℕ) (i : ℕ) → i < length xs → (v : ℕ) × (at_index xs i ≡ ok v)
at_index-below [] i h = absurd (omega arith)
at_index-below (x ∷ xs) zero h = (x, refl)
at_index-below (x ∷ xs) (suc i) h = at_index-below xs i (omega arith)

pub Ends-map :
    {A : Type 0} (E : Fault → Type 0) (P Q : A → Type 0) (m : Outcome A)
    → ((a : A) → P a → Q a)
    → Ends E P m
    → Ends E Q m
Ends-map E P Q (ok a) f h = f a h
Ends-map E P Q (fault e) f h = h

pub Ends-if :
    {A : Type 0} (E : Fault → Type 0) (P : A → Type 0) (b : Bool) (m n : Outcome A)
    → Ends E P m
    → Ends E P n
    → Ends E P (if b then m else n)
Ends-if E P true m n p q = p
Ends-if E P false m n p q = q

-- Without faults there is a value.
pub Ends-Never :
    {A : Type 0} (P : A → Type 0) (m : Outcome A) → Ends Never P m → (a : A) × (m ≡ ok a) × P a
Ends-Never P (ok a) h = (a, refl, h)
Ends-Never P (fault e) h = absurd h
