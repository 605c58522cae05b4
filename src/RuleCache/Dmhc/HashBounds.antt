-- ===== src/RuleCache/Dmhc/HashBounds.antt =====
-- The range of the hashes of validator/rule_cache/dmhc_rule_cache/compute_hash.cc.
use native.Mathlib.Nat.{pow-suc, pow-le-pow_right, one-le-pow, mul-le-mul_right, mul_assoc, mod-lt}
use hope_policy_engine.Prelude.{
  ℕ, zero, suc, ◌+◌, ◌-◌, ◌*◌, ◌/◌, ◌%◌, ◌^◌, ◌<◌, ◌≤◌, ◌≡◌, ◌∙◌, refl, ap, sym, ltb, leb,
  if◌then◌else◌, Bool-cases, inl, inr, true, false, List, [], ◌∷◌, Option, none, some, bit_xor,
  bit_xor-lt, length, arith,
}
use hope_policy_engine.Isa.{Operands}
use hope_policy_engine.RuleCache.Dmhc.Fit.{HashesIn}
use hope_policy_engine.RuleCache.Dmhc.Hash.{
  ◌>>=◌, min, log2_from, log2, Fold, take_bits, fold_field, fold_fields, fold, compute_hash,
  permute, one_wide, compute_hashes_of, compute_hash_set, convert_to_bit_fields,
}

some-cases :
    {A B C : Type 0} (m : Option A) (f : A → Option B) {b : B}
    → (m >>= f) ≡ some b
    → ((a : A) → m ≡ some a → f a ≡ some b → C)
    → C
some-cases none f e g = absurd (ground arith)
some-cases (some a) f e g = g a refl e

positive : (n : ℕ) → 1 ≤ 2 ^ n
positive n = one-le-pow n 2 (omega arith)

pow_sum : (a b : ℕ) → 2 ^ (a + b) ≡ 2 ^ a * 2 ^ b
pow_sum zero b = let e : 0 + b ≡ b = omega arith in rw (e) (omega arith)
pow_sum (suc a) b =
    let e : suc a + b ≡ suc (a + b) = omega arith in
    rw (e, pow-suc 2 (a + b), pow-suc 2 a, pow_sum a b)
      (mul_assoc (2 ^ a) (2 ^ b) 2
        ∙ ap (λ t. 2 ^ a * t) (omega arith)
        ∙ sym (mul_assoc (2 ^ a) 2 (2 ^ b)))

-- The logarithm of a power of two is its exponent.
log2_pow_from : (n fuel m : ℕ) → n ≤ m → m ≤ n + fuel → log2_from fuel n (2 ^ m) ≡ m
unfolding log2_from
log2_pow_from n zero m l u = omega arith
log2_pow_from n (suc fuel) m l u = elim (Bool-cases (ltb n m)) [
  | inl below ↦
      let above : 2 ^ suc n ≤ 2 ^ m = pow-le-pow_right {n = 2} (omega arith) (ground arith) in
      let more : ltb (2 ^ n) (2 ^ m) ≡ true = ground (arith, pow-suc 2 n, positive n) in
      rw (more) (log2_pow_from (n + 1) fuel m (ground arith) (omega arith))
  | inr reached ↦
      let same : n ≡ m = ground arith in
      let done : ltb (2 ^ n) (2 ^ m) ≡ false = rw (same) (ground arith) in rw (done) same
]

exponent_below : (m : ℕ) → m ≤ 2 ^ m
exponent_below zero = omega arith
exponent_below (suc m) = omega (arith, pow-suc 2 m, exponent_below m, positive m)

pub log2-pow : (m : ℕ) → log2 (2 ^ m) ≡ m
unfolding log2
log2-pow m = log2_pow_from 0 (2 ^ m) m (omega arith) (omega (arith, exponent_below m))

abbrev Bounds : ℕ → Fold → Type 0
Bounds width s = (s.final_pos < width) × (s.chunk < 2 ^ width) × (s.result < 2 ^ width)

piece : (x bits pos width : ℕ) → bits + pos ≤ width → x % 2 ^ bits * 2 ^ pos < 2 ^ width
piece x bits pos width l =
    let rest : suc (x % 2 ^ bits) ≤ 2 ^ bits = mod-lt x (positive bits) in
    let scaled : suc (x % 2 ^ bits) * 2 ^ pos ≤ 2 ^ bits * 2 ^ pos =
      mul-le-mul_right (2 ^ pos) rest in
    let whole : 2 ^ (bits + pos) ≤ 2 ^ width = pow-le-pow_right {n = 2} (omega arith) l in
    omega (arith, pow_sum bits pos, positive pos)

min-below : (a b : ℕ) → (min a b ≤ a) × (min a b ≤ b)
unfolding min
min-below a b = (ground arith, ground arith)

min-positive : (a b : ℕ) → 0 < a → 0 < b → 0 < min a b
unfolding min
min-positive a b p q = ground arith

take_bits-Bounds :
    (width tag field_pos bits : ℕ) (s : Fold)
    → bits + s.final_pos ≤ width
    → Bounds width s
    → Bounds width (take_bits width tag field_pos bits s)
unfolding take_bits
take_bits-Bounds width tag field_pos bits s l (f, c, r) =
    let p = piece (tag / 2 ^ field_pos) bits s.final_pos width l in
    let chunk = bit_xor-lt width s.chunk (tag / 2 ^ field_pos % 2 ^ bits * 2 ^ s.final_pos) c p in
    elim (Bool-cases (leb width (s.final_pos + bits))) [
      | inl full ↦ rw (full) (omega arith, omega arith, bit_xor-lt width s.result _ r chunk)
      | inr room ↦ rw (room) (ground arith, chunk, r)
    ]

-- The loop on a field ends, since every turn takes a bit.
fold_field-Bounds :
    (fuel width tag field_width field_pos : ℕ) (s : Fold)
    → field_width ≤ field_pos + fuel
    → Bounds width s
    → (s' : Fold) × (fold_field fuel width tag field_width field_pos s ≡ some s') × Bounds width s'
unfolding fold_field
fold_field-Bounds zero width tag field_width field_pos s l b =
    let done : ltb field_pos field_width ≡ false = ground arith in rw (done) (s, refl, b)
fold_field-Bounds (suc fuel) width tag field_width field_pos s l b =
    let bits = min (field_width - field_pos) (width - s.final_pos) in
    let below = min-below (field_width - field_pos) (width - s.final_pos) in
    elim (Bool-cases (ltb field_pos field_width)) [
      | inl more ↦
          let taken =
            min-positive (field_width - field_pos) (width - s.final_pos) (ground arith)
              (ground arith) in
          rw (more) (
            fold_field-Bounds fuel width tag field_width (field_pos + bits)
              (take_bits width tag field_pos bits s) (omega arith)
              (take_bits-Bounds width tag field_pos bits s (omega arith) b))
      | inr done ↦ rw (done) (s, refl, b)
    ]

fold_fields-Bounds :
    (width : ℕ) (fields : List (ℕ × ℕ)) (s : Fold)
    → Bounds width s
    → (s' : Fold) × (fold_fields width fields s ≡ some s') × Bounds width s'
unfolding fold_fields
fold_fields-Bounds width [] s b = (s, refl, b)
fold_fields-Bounds width ((field_width, tag) ∷ fields) s b =
    let (s', e, b') = fold_field-Bounds field_width width tag field_width 0 s (omega arith) b in
    let (t, e', c) = fold_fields-Bounds width fields s' b' in
    (t, ap (λ m. m >>= fold_fields width fields) e ∙ e', c)

result-lt :
    (width : ℕ) (s : Fold)
    → Bounds width s
    → (if ltb 0 s.final_pos then bit_xor s.result s.chunk else s.result) < 2 ^ width
result-lt width s (f, c, r) = elim (Bool-cases (ltb 0 s.final_pos)) [
  | inl e ↦ rw (e) (bit_xor-lt width s.result s.chunk r c)
  | inr e ↦ rw (e) r
]

-- For a table whose size is a power of two above 1, `fold` ends for any fields, with a hash below the
-- size.
pub fold-lt :
    (fields : List (ℕ × ℕ)) (m : ℕ)
    → 0 < m
    → (hash : ℕ) × (fold fields (2 ^ m) ≡ some hash) × (hash < 2 ^ m)
unfolding fold
fold-lt fields m p =
    let start : Fold = record { result = 0; final_pos = 0; chunk = 0 } in
    let (s, e, b) = fold_fields-Bounds m fields start (p, positive m, positive m) in
    rw (log2-pow m) (
      _,
      ap (λ o. o >>= λ s. some (if ltb 0 s.final_pos then bit_xor s.result s.chunk else s.result))
          e,
      result-lt m s b,
    )

compute_hash-lt :
    (perm fields : List ℕ) (m : ℕ) {hash : ℕ}
    → 0 < m
    → compute_hash perm fields (2 ^ m) ≡ some hash
    → hash < 2 ^ m
unfolding compute_hash
compute_hash-lt perm fields m p e = folded (permute (length fields) perm fields 0) e
  where
    folded :
        (permuted : Option (List ℕ)) {hash : ℕ}
        → (permuted >>= λ bits. fold (one_wide bits) (2 ^ m)) ≡ some hash
        → hash < 2 ^ m
    folded none e = absurd (ground arith)
    folded (some bits) {hash} e =
        let (h, e', l) = fold-lt (one_wide bits) m p in
        let same : h ≡ hash = ground arith in rw (← same) l

all_hashes :
    (width m : ℕ) (perms : List (List ℕ)) (fields : List ℕ) {hashes : List ℕ}
    → 0 < m
    → compute_hashes_of perms fields (2 ^ m) ≡ some hashes
    → HashesIn width (2 ^ m) (length perms) hashes
unfolding compute_hashes_of
all_hashes width m [] fields {hashes} p e =
    let same : [] ≡ hashes = ground arith in rw (← same) (refl, tt)
all_hashes width m (perm ∷ perms) fields {hashes} p e =
    some-cases (compute_hash perm fields (2 ^ m)) _ e (λ h eh e1.
      some-cases (compute_hashes_of perms fields (2 ^ m)) _ e1 (λ rest er e2.
        let (n, a) = all_hashes width m perms fields p er in
        let same : h ∷ rest ≡ hashes = ground arith in
        rw (← same) (ap suc n, (compute_hash-lt perm fields m p eh, a))))

-- For a table whose size is a power of two above 1, the hashes that are computed from some tables of
-- permutations are one for each and lie below the size.
pub compute_hash_set-HashesIn :
    (width m : ℕ) (perms : List (List ℕ)) (bits : ℕ) (ops : Operands) {hashes : List ℕ}
    → 0 < m
    → compute_hash_set perms bits ops (2 ^ m) ≡ some hashes
    → HashesIn width (2 ^ m) (length perms) hashes
unfolding compute_hash_set
compute_hash_set-HashesIn width m perms bits ops p e =
    all_hashes width m perms (convert_to_bit_fields bits ops) p e
