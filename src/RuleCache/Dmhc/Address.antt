-- ===== src/RuleCache/Dmhc/Address.antt =====
-- The address that the hash tables of validator/rule_cache/dmhc_rule_cache/dmhc.cc give for some hashes,
-- through the writes of `real_insert`.
use hope_policy_engine.Prelude.{
  ℕ, zero, suc, ◌+◌, ◌≡◌, ◌∙◌, refl, sym, ap, ◌==◌, Bool, true, false, List, [], ◌∷◌, set, bit_xor,
  bit_xor_assoc, bit_xor_comm, arith, if◌then◌else◌,
}
use hope_policy_engine.RuleCache.Run.{Run, ok, stop, abort, out_of_bounds, ◌>>=◌}
use hope_policy_engine.RuleCache.Dmhc.State.{Row, at_index, gtable_max_count}
use hope_policy_engine.RuleCache.Dmhc.Cells.{xor_cells, claim, claim_cells, adjust_cell}
use hope_policy_engine.RuleCache.Dmhc.Lookup.{any_zero}

pub bind-ok :
    {A B : Type 0} (m : Run A) (f : A → Run B) {b : B}
    → (m >>= f) ≡ ok b
    → (a : A) × (m ≡ ok a) × (f a ≡ ok b)
bind-ok (ok a) f h = (a, refl, h)
bind-ok (stop n) f h = absurd (ground arith)
bind-ok abort f h = absurd (ground arith)
bind-ok out_of_bounds f h = absurd (ground arith)

pub at_index-set :
    {A : Type 0} (xs : List A) (i : ℕ) {x : A} (y : A)
    → at_index xs i ≡ ok x
    → at_index (set xs i y) i ≡ ok y
at_index-set [] i y h = absurd (ground arith)
at_index-set (x ∷ xs) zero y h = refl
at_index-set (x ∷ xs) (suc i) y h = at_index-set xs i y h

pub ok-bind : {A B : Type 0} {m : Run A} (f : A → Run B) {a : A} → m ≡ ok a → (m >>= f) ≡ f a
ok-bind f e = ap (λ m. m >>= f) e

claim_used : (n : ℕ) → ((if n == gtable_max_count then n else n + 1) == 0) ≡ false
claim_used n = ground arith

-- the same for a goal
pub bind-cases :
    {A B C : Type 0} (m : Run A) (f : A → Run B) {b : B}
    → (m >>= f) ≡ ok b
    → ((a : A) → m ≡ ok a → f a ≡ ok b → C)
    → C
bind-cases (ok a) f h g = g a refl h
bind-cases (stop n) f h g = absurd (ground arith)
bind-cases abort f h g = absurd (ground arith)
bind-cases out_of_bounds f h g = absurd (ground arith)

pub if-cases :
    {A C : Type 0} (b : Bool) {x y v : A}
    → (if b then x else y) ≡ v
    → (b ≡ true → x ≡ v → C)
    → (b ≡ false → y ≡ v → C)
    → C
if-cases true e f g = f refl e
if-cases false e f g = g refl e

pub assert-ok :
    {A : Type 0} (b : Bool) (m : Run A) {x : A} → (if b then m else abort) ≡ ok x → m ≡ ok x
assert-ok true m e = e
assert-ok false m e = absurd (ground arith)

pub ok-injective : {A : Type 0} {a b : A} → ok a ≡ ok b → a ≡ b
ok-injective e = ground arith

pub same_value : {A : Type 0} {m : Run A} {a b : A} → m ≡ ok a → m ≡ ok b → a ≡ b
same_value e e' = ground arith

shift :
    (acc difference : ℕ) (rows : List Row) (hashes : List ℕ) {v : ℕ}
    → xor_cells acc rows hashes ≡ ok v
    → xor_cells (bit_xor acc difference) rows hashes ≡ ok (bit_xor v difference)
unfolding xor_cells
shift acc difference [] hashes e = ground arith
shift acc difference (row ∷ rows) [] e = absurd (ground arith)
shift acc difference (row ∷ rows) (h ∷ hashes) e =
    let (cell, found, e') = bind-ok (at_index row h) _ e in
    let ih = shift (bit_xor acc cell.value) difference rows hashes e' in
    let moved : bit_xor (bit_xor acc difference) cell.value
        ≡ bit_xor (bit_xor acc cell.value) difference =
      bit_xor_assoc acc difference cell.value
      ∙ ap (bit_xor acc) (bit_xor_comm difference cell.value)
      ∙ sym (bit_xor_assoc acc cell.value difference) in
    ok-bind _ found ∙ ap (λ a. xor_cells a rows hashes) moved ∙ ih

-- An adjusted cell changes the address by the difference.
pub xor-adjust :
    (acc difference : ℕ) (rows : List Row) (hashes : List ℕ) (i : ℕ) {v : ℕ} {rows' : List Row}
    → xor_cells acc rows hashes ≡ ok v
    → adjust_cell difference rows hashes i ≡ ok rows'
    → xor_cells acc rows' hashes ≡ ok (bit_xor v difference)
unfolding xor_cells adjust_cell
xor-adjust acc difference [] hashes i e a = absurd (ground arith)
xor-adjust acc difference (row ∷ rows) [] i e a = absurd (ground arith)
xor-adjust acc difference (row ∷ rows) (h ∷ hashes) zero {v} {rows'} e a =
    let (cell, found, e') = bind-ok (at_index row h) _ e in
    let (cell', found', a') = bind-ok (at_index row h) _ a in
    let same : cell' ≡ cell = same_value found' found in
    let written = record cell' { value = bit_xor cell'.value difference } in
    let rows≡ : set row h written ∷ rows ≡ rows' = ok-injective a' in
    rw (← rows≡) (
      ok-bind _ (at_index-set row h written found')
      ∙ ap (λ a. xor_cells a rows hashes)
          (sym (bit_xor_assoc acc cell'.value difference)
            ∙ ap (λ c. bit_xor (bit_xor acc c.value) difference) same)
      ∙ shift (bit_xor acc cell.value) difference rows hashes e')
xor-adjust acc difference (row ∷ rows) (h ∷ hashes) (suc i) {v} {rows'} e a =
    let (cell, found, e') = bind-ok (at_index row h) _ e in
    let (rest, a', a'') = bind-ok (adjust_cell difference rows hashes i) _ a in
    let rows≡ : row ∷ rest ≡ rows' = ok-injective a'' in
    rw (← rows≡)
      (ok-bind _ found ∙ xor-adjust (bit_xor acc cell.value) difference rows hashes i e' a')

-- The counts are none of its business.
pub xor-claim :
    (acc address : ℕ) (rows : List Row) (hashes : List ℕ) {rows' : List Row}
    → claim_cells address rows hashes ≡ ok rows'
    → xor_cells acc rows' hashes ≡ xor_cells acc rows hashes
unfolding xor_cells claim_cells claim
xor-claim acc address [] hashes {rows'} a =
    let rows≡ : [] ≡ rows' = ok-injective a in rw (← rows≡) refl
xor-claim acc address (row ∷ rows) [] a = absurd (ground arith)
xor-claim acc address (row ∷ rows) (h ∷ hashes) {rows'} a =
    let (cell, found, a') = bind-ok (at_index row h) _ a in
    let (rest, a'', e) = bind-ok (claim_cells address rows hashes) _ a' in
    let rows≡ : set row h (claim address cell) ∷ rest ≡ rows' = ok-injective e in
    rw (← rows≡) (
      ok-bind _ (at_index-set row h (claim address cell) found)
      ∙ xor-claim (bit_xor acc (claim address cell).value) address rows hashes a''
      ∙ sym (ok-bind _ found))

pub any_zero-claim :
    (address : ℕ) (rows : List Row) (hashes : List ℕ) {rows' : List Row}
    → claim_cells address rows hashes ≡ ok rows'
    → any_zero rows' hashes ≡ ok false
unfolding any_zero claim_cells
any_zero-claim address [] hashes {rows'} a =
    let rows≡ : [] ≡ rows' = ok-injective a in rw (← rows≡) refl
any_zero-claim address (row ∷ rows) [] a = absurd (ground arith)
any_zero-claim address (row ∷ rows) (h ∷ hashes) {rows'} a =
    let (cell, found, a') = bind-ok (at_index row h) _ a in
    let (rest, a'', e) = bind-ok (claim_cells address rows hashes) _ a' in
    let rows≡ : set row h (claim address cell) ∷ rest ≡ rows' = ok-injective e in
    let used : ((claim address cell).cnt == 0) ≡ false = unfold claim in claim_used cell.cnt in
    rw (← rows≡) (
      ok-bind _ (at_index-set row h (claim address cell) found)
      ∙ rw (used) (any_zero-claim address rows hashes a''))
