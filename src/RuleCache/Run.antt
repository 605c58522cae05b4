-- ===== src/RuleCache/Run.antt =====
-- How a call of a rule cache ends: with a value, by `exit` with a code, by a failed `assert`, or by an
-- access outside an array, which the language leaves undefined.
use hope_policy_engine.Prelude.{ℕ}

pub data Run (A : Type 0) : Type 0 where
  ok : A → Run A
  stop : ℕ → Run A
  abort : Run A
  out_of_bounds : Run A

infixl 5 ◌>>=◌
abbrev pub ◌>>=◌ : {A B : Type 0} → Run A → (A → Run B) → Run B
ok a >>= f = f a
stop n >>= f = stop n
abort >>= f = abort
out_of_bounds >>= f = out_of_bounds
