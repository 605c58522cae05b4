-- ===== src/Tagging/TagFile/Coalesce.antt =====
-- `coalesce_ranges` of tagging_tools/tag_file.cc.
use hope_policy_engine.Prelude.{
  ℕ, ◌+◌, ◌-◌, ◌%◌, ◌^◌, ◌≤◌, ◌<◌, ◌≡◌, ◌⊎◌, refl, ◌==◌, Bool, true, false, ◌||◌, ◌&&◌, ltb, leb,
  if◌then◌else◌, Bool-cases, inl, inr, List, [], ◌∷◌, Option, none, some, All, arith,
}
use hope_policy_engine.Tagging.RangeMap.{Range}

-- `range_t::operator <`
unfoldable pub range_lt : Range → Range → Bool
range_lt a b = ltb a.start b.start || (a.start == b.start && ltb a.end b.end)

-- `sort`, which keeps the order of equal members
unfoldable pub insert_range : Range → List Range → List Range
insert_range r [] = r ∷ []
insert_range r (x ∷ xs) =
    let rest = insert_range r xs in if range_lt r x then r ∷ x ∷ xs else x ∷ rest

unfoldable pub sort_ranges : List Range → List Range
sort_ranges [] = []
sort_ranges (r ∷ rs) = insert_range r (sort_ranges rs)

-- The difference of two `uint64_t` is at most one.
unfoldable pub touches : Range → Range → Bool
touches previous current = leb ((2 ^ 64 + current.start - previous.end) % 2 ^ 64) 1

-- The loop, from the range before `current`.
unfoldable pub coalesce : Range → List Range → List Range
coalesce previous [] = previous ∷ []
coalesce previous (current ∷ ranges) = elim (leb current.end previous.end) [
  | true ↦ coalesce previous ranges
  | _ ↦ elim (touches previous current) [
    | true ↦ coalesce (record previous { end = current.end }) ranges
    | _ ↦ previous ∷ coalesce current ranges
  ]
]

-- On an empty list `std::next(ranges.begin())` has no meaning.
unfoldable pub coalesce_ranges : List Range → Option (List Range)
coalesce_ranges ranges = elim (sort_ranges ranges) [ [] ↦ none | r ∷ rs ↦ some (coalesce r rs) ]

-- Some range has the address.
abbrev pub Covered : ℕ → List Range → Type 0
Covered addr [] = ⊥
Covered addr (r ∷ rs) = ((r.start ≤ addr) × (addr < r.end)) ⊎ Covered addr rs

abbrev From : ℕ → List Range → Type 0
From start rs = All (λ r. start ≤ r.start) rs

unfoldable Sorted : List Range → Type 0
Sorted [] = Unit
Sorted (r ∷ rs) = From r.start rs × Sorted rs

From-weaken : (a b : ℕ) (rs : List Range) → a ≤ b → From b rs → From a rs
From-weaken a b [] l f = tt
From-weaken a b (r ∷ rs) l (p, f) = (omega arith, From-weaken a b rs l f)

starts : (r x : Range) → range_lt r x ≡ true → r.start ≤ x.start
unfolding range_lt
starts r x e = ground arith

starts_not : (r x : Range) → range_lt r x ≡ false → x.start ≤ r.start
unfolding range_lt
starts_not r x e = ground arith

coalesce-inside :
    (p c : Range) (rs : List Range) → leb c.end p.end ≡ true → coalesce p (c ∷ rs) ≡ coalesce p rs
unfolding coalesce
coalesce-inside p c rs e = rw (e, coalesce) refl

coalesce-touching :
    (p c : Range) (rs : List Range)
    → leb c.end p.end ≡ false
    → touches p c ≡ true
    → coalesce p (c ∷ rs) ≡ coalesce (record p { end = c.end }) rs
unfolding coalesce
coalesce-touching p c rs e t = rw (e, coalesce) (rw (t) refl)

coalesce-apart :
    (p c : Range) (rs : List Range)
    → leb c.end p.end ≡ false
    → touches p c ≡ false
    → coalesce p (c ∷ rs) ≡ p ∷ coalesce c rs
unfolding coalesce
coalesce-apart p c rs e t = rw (e, coalesce) (rw (t) refl)

-- A range within the first range adds nothing to it.
within :
    (addr : ℕ) (p c : Range) (rs : List Range)
    → p.start ≤ c.start
    → c.end ≤ p.end
    → Covered addr (p ∷ c ∷ rs)
    → Covered addr (p ∷ rs)
within addr p c rs s l (inl h) = inl h
within addr p c rs s l (inr (inl h)) = inl (omega arith, omega arith)
within addr p c rs s l (inr (inr h)) = inr h

joined :
    (addr : ℕ) (p c : Range) (rs : List Range)
    → p.start ≤ c.start
    → p.end ≤ c.end
    → Covered addr (p ∷ c ∷ rs)
    → Covered addr (record p { end = c.end } ∷ rs)
joined addr p c rs s l (inl h) = inl (h.0, omega arith)
joined addr p c rs s l (inr (inl h)) = inl (omega arith, h.1)
joined addr p c rs s l (inr (inr h)) = inr h

coalesce-Covered :
    (addr : ℕ) (p : Range) (rs : List Range)
    → From p.start rs
    → Sorted rs
    → Covered addr (p ∷ rs)
    → Covered addr (coalesce p rs)
unfolding Sorted
coalesce-Covered addr p [] f s c = unfold coalesce in c
coalesce-Covered addr p (r ∷ rs) (l, f) (g, s) c =
    let in_first = coalesce-Covered addr p rs f s in
    let in_joined = coalesce-Covered addr (record p { end = r.end }) rs f s in
    let in_rest = coalesce-Covered addr r rs g s in
    elim (Bool-cases (leb r.end p.end)) [
      | inl inside ↦
          rw (coalesce-inside p r rs inside) (in_first (within addr p r rs l (ground arith) c))
      | inr beyond ↦ elim (Bool-cases (touches p r)) [
        | inl t ↦
            rw (coalesce-touching p r rs beyond t)
              (in_joined (joined addr p r rs l (ground arith) c))
        | inr t ↦
            rw (coalesce-apart p r rs beyond t) (elim c [ inl h ↦ inl h | inr h ↦ inr (in_rest h) ])
      ]
    ]

insert-From :
    (start : ℕ) (r : Range) (rs : List Range)
    → start ≤ r.start
    → From start rs
    → From start (insert_range r rs)
unfolding insert_range
insert-From start r [] l f = (l, tt)
insert-From start r (x ∷ xs) l (p, f) = elim (Bool-cases (range_lt r x)) [
  | inl e ↦ rw (e) (l, (p, f))
  | inr e ↦ rw (e) (p, insert-From start r xs l f)
]

insert-Sorted : (r : Range) (rs : List Range) → Sorted rs → Sorted (insert_range r rs)
unfolding insert_range Sorted
insert-Sorted r [] s = (tt, tt)
insert-Sorted r (x ∷ xs) (f, s) = elim (Bool-cases (range_lt r x)) [
  | inl e ↦
      let l : r.start ≤ x.start = starts r x e in
      rw (e) ((l, From-weaken r.start x.start xs l f), (f, s))
  | inr e ↦
      let l : x.start ≤ r.start = starts_not r x e in
      rw (e) (insert-From x.start r xs l f, insert-Sorted r xs s)
]

insert-Covered :
    (addr : ℕ) (r : Range) (rs : List Range)
    → Covered addr (r ∷ rs)
    → Covered addr (insert_range r rs)
unfolding insert_range
insert-Covered addr r [] c = c
insert-Covered addr r (x ∷ xs) c =
    let tail = insert-Covered addr r xs in
    elim (Bool-cases (range_lt r x)) [
      | inl e ↦ rw (e) c
      | inr e ↦ rw (e) (elim c [
        | inl h ↦ inr (tail (inl h))
        | inr (inl h) ↦ inl h
        | inr (inr h) ↦ inr (tail (inr h))
      ])
    ]

sort-Sorted : (rs : List Range) → Sorted (sort_ranges rs)
unfolding sort_ranges Sorted
sort-Sorted [] = tt
sort-Sorted (r ∷ rs) = insert-Sorted r (sort_ranges rs) (sort-Sorted rs)

sort-Covered : (addr : ℕ) (rs : List Range) → Covered addr rs → Covered addr (sort_ranges rs)
unfolding sort_ranges
sort-Covered addr [] c = absurd c
sort-Covered addr (r ∷ rs) (inl h) = insert-Covered addr r (sort_ranges rs) (inl h)
sort-Covered addr (r ∷ rs) (inr h) =
    insert-Covered addr r (sort_ranges rs) (inr (sort-Covered addr rs h))

Sorted-Covered :
    (addr : ℕ) (rs : List Range)
    → Sorted rs
    → Covered addr rs
    → (result : List Range) × (elim rs [ [] ↦ none | r ∷ rest ↦ some (coalesce r rest) ]
        ≡ some result)
      × Covered addr result
unfolding Sorted
Sorted-Covered addr [] s c = absurd c
Sorted-Covered addr (r ∷ rs) (f, s) c = (coalesce r rs, refl, coalesce-Covered addr r rs f s c)

-- Ranges one of which has an address are coalesced into ranges one of which has it.
pub coalesce_ranges-Covered :
    (addr : ℕ) (ranges : List Range)
    → Covered addr ranges
    → (result : List Range) × (coalesce_ranges ranges ≡ some result) × Covered addr result
unfolding coalesce_ranges
coalesce_ranges-Covered addr ranges c =
    Sorted-Covered addr (sort_ranges ranges) (sort-Sorted ranges) (sort-Covered addr ranges c)
