-- ===== src/Tagging/TagFile/Sequences.antt =====
-- Numbers and sequences of a tag file, written and read back.
use hope_policy_engine.Prelude.{
  ℕ, ◌/◌, ◌^◌, ◌<◌, ◌≡◌, ◌∙◌, refl, ap, ◌==◌, false, Bool-cases, inl, inr, List, [], ◌∷◌, ◌++◌, map,
  Option, some, length, All, arith,
}
use native.Mathlib.Nat.{mod-eq_of_lt}
use hope_policy_engine.Tagging.Uleb.{write_uleb, write_from}
use hope_policy_engine.Tagging.Uleb.RoundTrip.{read_uleb-write_uleb}
use hope_policy_engine.Tagging.TagFile.Write.{write_number, write_all}
use hope_policy_engine.Tagging.TagFile.Read.{◌>>=◌, read_number, read_many}

pub some-bind :
    {A B : Type 0} {m : Option A} (f : A → Option B) {a : A} → m ≡ some a → (m >>= f) ≡ f a
some-bind f e = ap (λ m. m >>= f) e

pub append_assoc : {A : Type 0} (xs ys zs : List A) → (xs ++ ys) ++ zs ≡ xs ++ (ys ++ zs)
append_assoc [] ys zs = refl
append_assoc (x ∷ xs) ys zs = ap (λ l. x ∷ l) (append_assoc xs ys zs)

pub some_byte : (value : ℕ) → (length (write_uleb value) == 0) ≡ false
unfolding write_uleb write_from
some_byte value = elim (Bool-cases (value / 2 ^ 7 == 0)) [
  | inl e ↦ rw (e) refl
  | inr e ↦ rw (e) (ground arith)
]

-- A number of the width comes back, whatever follows it.
pub read_number-write_number :
    (width value : ℕ) (rest : List ℕ)
    → value < 2 ^ width
    → read_number width (write_number width value ++ rest) ≡ some (value, rest)
unfolding read_number write_number
read_number-write_number width value rest l =
    rw (mod-eq_of_lt l)
      (some-bind _ (read_uleb-write_uleb width value rest l) ∙ rw (some_byte value) refl)

-- Members that come back one by one come back in a sequence.
pub read_many-write_all :
    {A B : Type 0} (read : List ℕ → Option (B × List ℕ)) (write : A → List ℕ) (f : A → B)
    (P : A → Type 0)
    → ((x : A) (rest : List ℕ) → P x → read (write x ++ rest) ≡ some (f x, rest))
    → (xs : List A) (rest : List ℕ) → All P xs
    → read_many read (length xs) (write_all write xs ++ rest) ≡ some (map f xs, rest)
unfolding read_many write_all
read_many-write_all read write f P back [] rest a = refl
read_many-write_all read write f P back (x ∷ xs) rest (p, a) =
    let ih = read_many-write_all read write f P back xs rest a in
    rw (append_assoc (write x) (write_all write xs) rest)
      (some-bind _ (back x (write_all write xs ++ rest) p) ∙ some-bind _ ih)
