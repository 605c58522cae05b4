-- ===== src/Tagging/TagFile/Read.antt =====
-- Numbers and sequences read from a tag file, tagging_tools/tag_file.cc. `none` is a failed read, for which
-- the loaders return false.
use hope_policy_engine.Prelude.{
  ℕ, zero, suc, ◌==◌, if◌then◌else◌, List, [], ◌∷◌, Option, none, some,
}
use hope_policy_engine.Tagging.Uleb.{read_uleb}

infixl 5 ◌>>=◌
abbrev pub ◌>>=◌ : {A B : Type 0} → Option A → (A → Option B) → Option B
some a >>= f = f a
none >>= f = none

-- `read_uleb<T>(value) <= 0` fails.
unfoldable pub read_number : ℕ → List ℕ → Option (ℕ × List ℕ)
read_number width bytes = do r ← read_uleb width bytes; if r.1 == 0 then none else some (r.0, r.2)

-- a loop that reads so many members
unfoldable pub read_many :
    {A : Type 0} → (List ℕ → Option (A × List ℕ)) → ℕ → List ℕ → Option (List A × List ℕ)
read_many read zero bytes = some ([], bytes)
read_many read (suc n) bytes = do r ← read bytes; s ← read_many read n r.1; some (r.0 ∷ s.0, s.1)
