-- ===== src/Tagging/TagFile/Distinct.antt =====
-- The containers that `load_firmware_tag_file` of tagging_tools/tag_file.cc fills, from members that are
-- distinct.
use hope_policy_engine.Prelude.{
  ℕ, ◌<◌, ◌≡◌, ◌∙◌, refl, sym, ap, ◌==◌, Bool, false, ltb, List, [], ◌∷◌, ◌++◌, All, arith,
}
use hope_policy_engine.Tagging.TagFile.Metadata.{insert_meta, insert_all}
use hope_policy_engine.Tagging.TagFile.Load.{insert_entry, insert_entries}
use hope_policy_engine.Tagging.TagFile.Sequences.{append_assoc}

pub append-nil : {A : Type 0} (xs : List A) → xs ++ [] ≡ xs
append-nil [] = refl
append-nil (x ∷ xs) = ap (λ l. x ∷ l) (append-nil xs)

-- a set of tags, in its order
unfoldable pub Increasing : List ℕ → Type 0
Increasing [] = Unit
Increasing (x ∷ xs) = All (λ y. x < y) xs × Increasing xs

All-append :
    {A : Type 0} (P : A → Type 0) (xs : List A) (y : A) → All P xs → P y → All P (xs ++ (y ∷ []))
All-append P [] y a p = (p, tt)
All-append P (x ∷ xs) y (q, a) p = (q, All-append P xs y a p)

insert-last : (m : ℕ) (xs : List ℕ) → All (λ x. x < m) xs → insert_meta m xs ≡ xs ++ (m ∷ [])
unfolding insert_meta
insert-last m [] a = refl
insert-last m (x ∷ xs) (l, a) =
    let ih = insert-last m xs a in
    let p : ltb m x ≡ false = ground arith in
    let q : (m == x) ≡ false = ground arith in rw (p, q) (ap (λ t. x ∷ t) ih)

-- Every member of one list is below every member of the other.
Below : List ℕ → List ℕ → Type 0
Below xs ms = All (λ m. All (λ x. x < m) xs) ms

Below-append :
    (xs ms : List ℕ) (y : ℕ) → Below xs ms → All (λ m. y < m) ms → Below (xs ++ (y ∷ [])) ms
unfolding Below
Below-append xs [] y b l = tt
Below-append xs (m ∷ ms) y (b, bs) (l, ls) =
    (All-append (λ x. x < m) xs y b l, Below-append xs ms y bs ls)

insert-after : (ms acc : List ℕ) → Increasing ms → Below acc ms → insert_all ms acc ≡ acc ++ ms
unfolding insert_all Increasing Below
insert-after [] acc i b = sym (append-nil acc)
insert-after (m ∷ ms) acc (l, i) (b, bs) =
    ap (λ t. insert_all ms t) (insert-last m acc b)
    ∙ insert-after ms (acc ++ (m ∷ [])) i (Below-append acc ms m bs l)
    ∙ append_assoc acc (m ∷ []) ms

Below-nil : (ms : List ℕ) → Below [] ms
unfolding Below
Below-nil [] = tt
Below-nil (m ∷ ms) = (tt, Below-nil ms)

-- A set is filled from its members in order.
pub insert_all-Increasing : (ms : List ℕ) → Increasing ms → insert_all ms [] ≡ ms
insert_all-Increasing ms i = insert-after ms [] i (Below-nil ms)

module _ {K : Type 0} (eq : K → K → Bool) where
  -- No key of the entries equals the key of a later one.
  unfoldable pub Distinct : List (K × ℕ) → Type 0
  Distinct [] = Unit
  Distinct (e ∷ es) = All (λ f. eq e.0 f.0 ≡ false) es × Distinct es

  insert-new :
      (e : K × ℕ) (map : List (K × ℕ))
      → All (λ f. eq f.0 e.0 ≡ false) map
      → insert_entry eq e map ≡ map ++ (e ∷ [])
  unfolding insert_entry
  insert-new e [] a = refl
  insert-new (k, v) ((key, value) ∷ map) (p, a) =
      rw (p) (ap (λ t. (key, value) ∷ t) (insert-new (k, v) map a))

  Apart : List (K × ℕ) → List (K × ℕ) → Type 0
  Apart map es = All (λ e. All (λ f. eq f.0 e.0 ≡ false) map) es

  Apart-append :
      (map es : List (K × ℕ)) (e : K × ℕ)
      → Apart map es
      → All (λ f. eq e.0 f.0 ≡ false) es
      → Apart (map ++ (e ∷ [])) es
  unfolding Apart
  Apart-append map [] e a d = tt
  Apart-append map (f ∷ es) e (a, more) (d, ds) =
      (All-append (λ g. eq g.0 f.0 ≡ false) map e a d, Apart-append map es e more ds)

  insert-Apart :
      (es map : List (K × ℕ)) → Distinct es → Apart map es → insert_entries eq es map ≡ map ++ es
  unfolding insert_entries Distinct Apart
  insert-Apart [] map d a = sym (append-nil map)
  insert-Apart (e ∷ es) map (d, ds) (a, more) =
      ap (λ t. insert_entries eq es t) (insert-new e map a)
      ∙ insert-Apart es (map ++ (e ∷ [])) ds (Apart-append map es e more d)
      ∙ append_assoc map (e ∷ []) es

  Apart-nil : (es : List (K × ℕ)) → Apart [] es
  unfolding Apart
  Apart-nil [] = tt
  Apart-nil (e ∷ es) = (tt, Apart-nil es)

  -- Distinct keys are all inserted.
  pub insert_entries-Distinct : (es : List (K × ℕ)) → Distinct es → insert_entries eq es [] ≡ es
  insert_entries-Distinct es d = insert-Apart es [] d (Apart-nil es)
