-- ===== src/RuleCache/Dmhc/Hash.antt =====
-- The hash functions of validator/rule_cache/dmhc_rule_cache/compute_hash.cc: `log2`, `fold`, and the set
-- of hashes. `none` is a loop that does not end or an access outside a table.
use hope_policy_engine.Prelude.{
  ℕ, zero, suc, ◌+◌, ◌-◌, ◌*◌, ◌/◌, ◌%◌, ◌^◌, ltb, leb, if◌then◌else◌, true, List, [], ◌∷◌, ◌++◌,
  Option, none, some, bit_xor, get_elem?, length,
}
use hope_policy_engine.Isa.{Operands}

infixl 5 ◌>>=◌
abbrev pub ◌>>=◌ : {A B : Type 0} → Option A → (A → Option B) → Option B
some a >>= f = f a
none >>= f = none

unfoldable pub min : ℕ → ℕ → ℕ
min a b = if ltb a b then a else b

-- the loop of `log2`, on fuel
unfoldable pub log2_from : ℕ → ℕ → ℕ → ℕ
log2_from zero res a = res
log2_from (suc fuel) res a =
    let rest = log2_from fuel (res + 1) a in if ltb (2 ^ res) a then rest else res

unfoldable pub log2 : ℕ → ℕ
log2 a = log2_from a 0 a

-- `result`, `final_pos` and `chunk` of `fold`
pub record Fold : Type 0 where
  pub result : ℕ
  pub final_pos : ℕ
  pub chunk : ℕ

-- one turn of the loop on a field, from `field_pos`, with the bits that it takes; `% 2 ^ bits` is the mask
unfoldable pub take_bits : ℕ → ℕ → ℕ → ℕ → Fold → Fold
take_bits width tag field_pos bits s =
    let chunk = bit_xor s.chunk (tag / 2 ^ field_pos % 2 ^ bits * 2 ^ s.final_pos) in
    let final_pos = s.final_pos + bits in
    if leb width final_pos
    then record { result = bit_xor s.result chunk; final_pos = 0; chunk = 0 }
    else record s { final_pos = final_pos; chunk = chunk }

-- the loop on a field; with a width of 0 it does not end
unfoldable pub fold_field : ℕ → ℕ → ℕ → ℕ → ℕ → Fold → Option Fold
fold_field zero width tag field_width field_pos s =
    if ltb field_pos field_width then none else some s
fold_field (suc fuel) width tag field_width field_pos s =
    let bits = min (field_width - field_pos) (width - s.final_pos) in
    let rest =
      fold_field fuel width tag field_width (field_pos + bits)
        (take_bits width tag field_pos bits s) in
    if ltb field_pos field_width then rest else some s

-- the loop over the fields, each with its width and its tag
unfoldable pub fold_fields : ℕ → List (ℕ × ℕ) → Fold → Option Fold
fold_fields width [] s = some s
fold_fields width ((field_width, tag) ∷ fields) s = do
  s' ← fold_field field_width width tag field_width 0 s
  fold_fields width fields s'

unfoldable pub fold : List (ℕ × ℕ) → ℕ → Option ℕ
fold fields hash_table_size = do
  s ← fold_fields (log2 hash_table_size) fields (record { result = 0; final_pos = 0; chunk = 0 })
  some (if ltb 0 s.final_pos then bit_xor s.result s.chunk else s.result)

-- the bits of a field, the lowest first
unfoldable pub bits_of : ℕ → ℕ → List ℕ
bits_of zero tag = []
bits_of (suc width) tag = tag % 2 ∷ bits_of width (tag / 2)

-- `convert_to_bit_fields` on the six operands, which have the same width
unfoldable pub convert_to_bit_fields : ℕ → Operands → List ℕ
convert_to_bit_fields width ops =
    bits_of width ops.pc
    ++ bits_of width ops.ci
    ++ bits_of width ops.op1
    ++ bits_of width ops.op2
    ++ bits_of width ops.op3
    ++ bits_of width ops.mem

-- `while (tmp >= num_fields) tmp = perm[tmp]`; the fuel is the length of the table
unfoldable pub follow : ℕ → List ℕ → ℕ → ℕ → Option ℕ
follow zero perm num_fields tmp = none
follow (suc fuel) perm num_fields tmp = elim (ltb tmp num_fields) [
  | true ↦ some tmp
  | _ ↦ get_elem? perm tmp >>= follow fuel perm num_fields
]

-- `permute_fields` of the fields from `i` on, the first argument being how many there are
unfoldable pub permute : ℕ → List ℕ → List ℕ → ℕ → Option (List ℕ)
permute zero perm fields i = some []
permute (suc n) perm fields i = do
  start ← get_elem? perm i
  tmp ← follow (length perm) perm (length fields) start
  field ← get_elem? fields tmp
  rest ← permute n perm fields (suc i)
  some (field ∷ rest)

-- Every bit is a field of width 1.
unfoldable pub one_wide : List ℕ → List (ℕ × ℕ)
one_wide [] = []
one_wide (b ∷ bs) = (1, b) ∷ one_wide bs

-- The tables of perm4.c to perm7.c are parameters. `HASH_BASE` is 4, so they are used in turn and the cases
-- below 4 of `compute_hash` are not reached.
unfoldable pub compute_hash : List ℕ → List ℕ → ℕ → Option ℕ
compute_hash perm fields hash_table_size = do
  permuted ← permute (length fields) perm fields 0
  fold (one_wide permuted) hash_table_size

-- `perms` has the first `k` of the tables. (`exit(1)` for more than four is not reached.)
unfoldable pub compute_hashes_of : List (List ℕ) → List ℕ → ℕ → Option (List ℕ)
compute_hashes_of [] fields capacity = some []
compute_hashes_of (perm ∷ perms) fields capacity = do
  h ← compute_hash perm fields capacity
  rest ← compute_hashes_of perms fields capacity
  some (h ∷ rest)

unfoldable pub compute_hash_set : List (List ℕ) → ℕ → Operands → ℕ → Option (List ℕ)
compute_hash_set perms width ops capacity =
    compute_hashes_of perms (convert_to_bit_fields width ops) capacity
