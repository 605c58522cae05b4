-- ===== src/Tagging/SymbolTable/Nearest.antt =====
-- `find_nearest` of tagging_tools/symbol_table.cc.
use hope_policy_engine.Prelude.{
  ℕ, zero, suc, ◌+◌, ◌-◌, ◌%◌, ◌^◌, ◌<◌, ◌≤◌, ltb, leb, ◌==◌, true, ◌≡◌, ◌∙◌, refl, sym, ap, subst,
  List, [], ◌∷◌, ◌++◌, length, Option, none, some, All, arith, Bool-cases, Option-cases, inl, inr,
}
use hope_policy_engine.RuleCache.Table.{Table}
use hope_policy_engine.Factory.{name_key}
use hope_policy_engine.Tagging.SymbolTable.{
  Symbol, SymbolTable, new, put_address, push_back, first_from, first_above, lower_bound,
  upper_bound, address_at, find_nearest,
}

-- a table of some symbols, one after another
unfoldable pub table_of : List Symbol → SymbolTable → SymbolTable
table_of [] t = t
table_of (s ∷ ss) t = table_of ss (push_back s t)

-- Each entry has the index of a symbol with its address.
abbrev Points : List Symbol → ℕ × ℕ → Type 0
Points ss x = (x.1 < length ss) × (address_at ss x.1 ≡ x.0) × (x.0 < 2 ^ 64)

Points-more : (ss : List Symbol) (s : Symbol) (x : ℕ × ℕ) → Points ss x → Points (ss ++ (s ∷ [])) x
unfolding address_at
Points-more [] s (k, i) h = absurd (omega arith)
Points-more (s' ∷ ss) s (k, zero) h = (omega arith, h.1, h.2)
Points-more (s' ∷ ss) s (k, suc i) h =
    let (a, b, c) = Points-more ss s (k, i) (omega arith, h.1, h.2) in (omega arith, b, c)

Points-last :
    (ss : List Symbol) (s : Symbol)
    → s.address < 2 ^ 64
    → Points (ss ++ (s ∷ [])) (s.address, length ss)
unfolding address_at
Points-last [] s h = (omega arith, refl, h)
Points-last (s' ∷ ss) s h = let (a, b, c) = Points-last ss s h in (omega arith, b, c)

All-more :
    (ss : List Symbol) (s : Symbol) (t : Table ℕ ℕ)
    → All (Points ss) t
    → All (Points (ss ++ (s ∷ []))) t
All-more ss s [] h = tt
All-more ss s (x ∷ t) h = (Points-more ss s x h.0, All-more ss s t h.1)

put_address-All :
    (P : ℕ × ℕ → Type 0) (k i : ℕ) (t : Table ℕ ℕ) → P (k, i) → All P t → All P (put_address k i t)
unfolding put_address
put_address-All P k i [] h hs = (h, tt)
put_address-All P k i ((j, n) ∷ t) h hs = elim (Bool-cases (k == j)) [
  | inl same ↦ let equal : k ≡ j = ground arith in rw (same) (subst (λ q. P (q, i)) equal h, hs.1)
  | inr other ↦ elim (Bool-cases (ltb k j)) [
    | inl before ↦ rw (other, before) (h, hs)
    | inr after ↦ rw (other, after) (hs.0, put_address-All P k i t h hs.1)
  ]
]

-- Where the first address from one on is above it, the first above it is the same.
first_lem :
    (addr : ℕ) (ss : List Symbol) (t : Table ℕ ℕ)
    → All (Points ss) t
    → (i : ℕ) → first_from addr t ≡ some i
    → (address_at ss i < 2 ^ 64)
      × (addr ≤ address_at ss i)
      × (addr < address_at ss i → first_above addr t ≡ some i)
unfolding first_from first_above
first_lem addr ss [] h i e = absurd (cc e)
first_lem addr ss ((k, n) ∷ t) (p, h) i e = elim (Bool-cases (leb addr k)) [
  | inl here ↦
      let same : n ≡ i = ground arith in
      let place : address_at ss i ≡ k = ap (address_at ss) (sym same) ∙ p.1 in
      (ground arith, ground arith, λ above. ground arith)
  | inr later ↦
      let (x, y, z) = first_lem addr ss t h i (ground arith) in
      (x, y, λ above. let found = z above in ground arith)
]

above_lem :
    (addr : ℕ) (ss : List Symbol) (t : Table ℕ ℕ)
    → All (Points ss) t
    → (i : ℕ) → first_above addr t ≡ some i
    → (addr < address_at ss i)
      × (address_at ss i < 2 ^ 64)
      × ((j : ℕ) × (first_from addr t ≡ some j))
unfolding first_from first_above
above_lem addr ss [] h i e = absurd (cc e)
above_lem addr ss ((k, n) ∷ t) (p, h) i e = elim (Bool-cases (ltb addr k)) [
  | inl here ↦
      let same : n ≡ i = ground arith in
      let place : address_at ss i ≡ k = ap (address_at ss) (sym same) ∙ p.1 in
      (ground arith, ground arith, (n, ground arith))
  | inr later ↦
      let (x, y, (j, z)) = above_lem addr ss t h i (ground arith) in
      (
        x,
        y,
        elim (Bool-cases (leb addr k)) [
          | inl from ↦ (n, rw (from) refl)
          | inr below ↦ (j, rw (below) z)
        ],
      )
]

table_of-Points :
    (ss : List Symbol) (t : SymbolTable)
    → All (λ (s : Symbol). s.address < 2 ^ 64) ss
    → All (Points t.sym_list) t.addr_map
    → let t' = table_of ss t in All (Points t'.sym_list) t'.addr_map
unfolding table_of push_back
table_of-Points [] t low h = h
table_of-Points (s ∷ ss) t low h = table_of-Points ss (push_back s t) low.1 (
    put_address-All (Points (t.sym_list ++ (s ∷ []))) s.address (length t.sym_list) t.addr_map
      (Points-last t.sym_list s low.0) (All-more t.sym_list s t.addr_map h))

some_inj : {A : Type 0} {a b : A} → some a ≡ some b → a ≡ b
some_inj e = cc

nearest_lem :
    (addr : ℕ) (t : SymbolTable)
    → addr < 2 ^ 64
    → All (Points t.sym_list) t.addr_map
    → find_nearest addr t ≡ lower_bound addr t
unfolding find_nearest
nearest_lem addr t b h = elim (Option-cases (lower_bound addr t)) [
  | inl nothing ↦ elim (Option-cases (upper_bound addr t)) [
    | inl none_above ↦ rw (nothing, find_nearest) none_above
    | inr (i, above) ↦
        let (j, from) = (above_lem addr t.sym_list t.addr_map h i above).2 in
        absurd (cc (sym nothing ∙ from))
  ]
  | inr (low, from) ↦ elim (Option-cases (upper_bound addr t)) [
    | inl none_above ↦ ground arith
    | inr (high, above) ↦
        let (small, behind, same) = first_lem addr t.sym_list t.addr_map h low from in
        let (far, small', _) = above_lem addr t.sym_list t.addr_map h high above in
        elim (Bool-cases (ltb addr (address_at t.sym_list low))) [
          | inl apart ↦
              let equal : high ≡ low = some_inj (sym above ∙ same (ground arith)) in ground arith
          | inr at ↦
              let placed : address_at t.sym_list low ≡ addr = ground arith in
              let nearer : ltb ((addr + 2 ^ 64 - address_at t.sym_list low) % 2 ^ 64)
                    ((address_at t.sym_list high + 2 ^ 64 - addr) % 2 ^ 64)
                  ≡ true =
                rw (placed) (ground arith) in
              ground arith
        ]
  ]
]

-- What is found does not lie below the address.
abbrev pub NotBelow : ℕ → List Symbol → Option ℕ → Type 0
NotBelow addr ss none = Unit
NotBelow addr ss (some i) = addr ≤ address_at ss i

-- On a table of symbols with 64-bit addresses, the symbol nearest to an address is the first one from the
-- address on: a symbol below the address is never found.
pub find_nearest-lower_bound :
    (addr : ℕ) (ss : List Symbol)
    → addr < 2 ^ 64
    → All (λ (s : Symbol). s.address < 2 ^ 64) ss
    → let t = table_of ss new in
      (find_nearest addr t ≡ lower_bound addr t) × NotBelow addr t.sym_list (find_nearest addr t)
find_nearest-lower_bound addr ss b low =
    let t = table_of ss new in
    let points = table_of-Points ss new low tt in
    let same = nearest_lem addr t b points in
    (
      same,
      elim (Option-cases (lower_bound addr t)) [
        | inl nothing ↦ subst (NotBelow addr t.sym_list) (sym (same ∙ nothing)) tt
        | inr (i, from) ↦
            subst (NotBelow addr t.sym_list) (sym (same ∙ from))
              (first_lem addr t.sym_list t.addr_map points i from).1
      ],
    )
