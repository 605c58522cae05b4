-- ===== src/Tags/Bus/Lookup.antt =====
-- `get_provider` of the tag bus, validator/include/tag_utils.h.
use hope_policy_engine.Prelude.{
  ℕ, ◌^◌, ◌≤◌, ◌<◌, ltb, leb, ◌==◌, List, [], ◌∷◌, Option, none, some, All, ◌≡◌, subst, sym, false,
  if◌then◌else◌, arith, Bool-cases, inl, inr,
}
use hope_policy_engine.Tags.Provider.{Provider}
use hope_policy_engine.Tags.Provider.Laws.{Covers}
use hope_policy_engine.Tags.Bus.{Entry, Bus, key, add_provider, get_provider}

-- The keys rise along the list, as the map keeps them, and every vector covers its provider.
abbrev pub Sorted : Bus → Type 0
Sorted [] = Unit
Sorted (e ∷ bus) = All (λ f. key e.start < key f.start) bus × Sorted bus

abbrev pub AllCover : Bus → Type 0
AllCover bus = All (λ e. Covers e.provider) bus

-- Start addresses as the SOC configurations have them.
abbrev pub Low : Bus → Type 0
Low bus = All (λ e. e.start < 2 ^ 63) bus

pub All-add :
    (P : Entry → Type 0) (start : ℕ) (p : Provider) (bus : Bus)
    → P (record { start = start; provider = p })
    → All P bus
    → All P (add_provider start p bus)
unfolding add_provider
All-add P start p [] h hs = (h, tt)
All-add P start p (e ∷ bus) h hs = elim (Bool-cases (key start == key e.start)) [
  | inl same ↦ rw same (h, hs.1)
  | inr other ↦ elim (Bool-cases (ltb (key start) (key e.start))) [
    | inl before ↦ rw (other, before) (h, hs)
    | inr after ↦ rw (other, after) (hs.0, All-add P start p bus h hs.1)
  ]
]

All-key :
    (a b : ℕ) (bus : Bus)
    → key a ≤ key b
    → All (λ f. key b < key f.start) bus
    → All (λ f. key a < key f.start) bus
All-key a b [] h hs = tt
All-key a b (e ∷ bus) h hs = (omega arith, All-key a b bus h hs.1)

pub add_provider-Sorted :
    (start : ℕ) (p : Provider) (bus : Bus) → Sorted bus → Sorted (add_provider start p bus)
unfolding add_provider
add_provider-Sorted start p [] s = (tt, tt)
add_provider-Sorted start p (e ∷ bus) s = elim (Bool-cases (key start == key e.start)) [
  | inl same ↦ rw same (All-key start e.start bus (ground arith) s.0, s.1)
  | inr other ↦ elim (Bool-cases (ltb (key start) (key e.start))) [
    | inl before ↦
        rw (other, before) ((ground arith, All-key start e.start bus (ground arith) s.0), s)
    | inr after ↦
        rw (other, after)
          (
            All-add (λ f. key e.start < key f.start) start p bus (ground arith) s.0,
            add_provider-Sorted start p bus s.1,
          )
  ]
]

-- The provider found starts at or before the address, and none starts between the two; if none is found,
-- all start behind the address.
abbrev pub Nearest : ℕ → Bus → Option Entry → Type 0
Nearest addr bus none = All (λ f. addr < f.start) bus
Nearest addr bus (some e) = (e.start ≤ addr) × All (λ f. f.start ≤ addr → f.start ≤ e.start) bus

Nearest-cons :
    (addr : ℕ) (e : Entry) (bus : Bus) (o : Option Entry)
    → addr < e.start
    → Nearest addr bus o
    → Nearest addr (e ∷ bus) o
Nearest-cons addr e bus none h n = (h, n)
Nearest-cons addr e bus (some f) h n = (n.0, (λ g. absurd (omega arith), n.1))

-- The keys of low addresses are in the opposite order.
rising-below :
    (addr : ℕ) (e : Entry) (bus : Bus)
    → e.start < 2 ^ 63
    → All (λ f. key e.start < key f.start) bus
    → All (λ f. f.start < 2 ^ 63) bus
    → All (λ f. f.start ≤ addr → f.start ≤ e.start) bus
rising-below addr e [] h hs ls = tt
rising-below addr e (f ∷ fs) h hs ls = (λ _. omega arith, rising-below addr e fs h hs.1 ls.1)

pub get_provider-Nearest :
    (addr : ℕ) (bus : Bus)
    → addr < 2 ^ 63
    → Sorted bus
    → Low bus
    → Nearest addr bus (get_provider addr bus)
unfolding get_provider
get_provider-Nearest addr [] h s l = tt
get_provider-Nearest addr (e ∷ bus) h s l = elim (Bool-cases (leb (key addr) (key e.start))) [
  | inl here ↦
      rw (here, get_provider)
        (ground arith, (λ _. omega arith, rising-below addr e bus l.0 s.0 l.1))
  | inr later ↦
      rw (later, get_provider)
        (Nearest-cons addr e bus (get_provider addr bus) (ground arith)
          (get_provider-Nearest addr bus h s.1 l.1))
]

-- A bus built by `add_provider` alone.
unfoldable pub build : List (ℕ × Provider) → Bus
build [] = []
build ((start, p) ∷ ps) = add_provider start p (build ps)

-- The entry that an address has after one more provider: the new one, or that from before.
abbrev pub picked : ℕ → ℕ → Provider → Option Entry → Option Entry
picked addr start p o = if ltb (key start) (key addr) then o else elim o [
  | none ↦ some (record { start = start; provider = p })
  | some x ↦
      if leb (key start) (key x.start)
      then some (record { start = start; provider = p })
      else some x
]

pub get_provider-add_provider :
    (addr start : ℕ) (p : Provider) (bus : Bus)
    → get_provider addr (add_provider start p bus) ≡ picked addr start p (get_provider addr bus)
unfolding get_provider add_provider
get_provider-add_provider addr start p [] = ground arith
get_provider-add_provider addr start p (x ∷ bus) = elim (Bool-cases (key start == key x.start)) [
  | inl same ↦ rw (same) (ground arith)
  | inr other ↦ elim (Bool-cases (ltb (key start) (key x.start))) [
    | inl before ↦ rw (other, before) (ground arith)
    | inr after ↦
        rw (other, after)
          (elim (Bool-cases (leb (key addr) (key x.start))) [
            | inl here ↦ rw (here) (ground arith)
            | inr later ↦ rw (later) (get_provider-add_provider addr start p bus)
          ])
  ]
]

-- The provider that was added last under a start; `build` adds the first of a list last.
unfoldable pub added_last : ℕ → List (ℕ × Provider) → Option Provider
added_last start [] = none
added_last start ((s, p) ∷ ps) = if s == start then some p else added_last start ps

-- No provider, and all start above the address; or one that starts at or below the address, was added last
-- under its start, and has no other start between itself and the address.
abbrev pub IsProviderOf : ℕ → List (ℕ × Provider) → Option Entry → Type 0
IsProviderOf addr ps none = All (λ x. addr < x.0) ps
IsProviderOf addr ps (some e) =
    (e.start ≤ addr)
    × (added_last e.start ps ≡ some e.provider)
    × All (λ x. x.0 ≤ addr → x.0 ≤ e.start) ps

none_below :
    (addr start : ℕ) (ps : List (ℕ × Provider))
    → All (λ x. addr < x.0) ps
    → All (λ x. x.0 ≤ addr → x.0 ≤ start) ps
none_below addr start [] h = tt
none_below addr start ((s, p) ∷ ps) h = (λ l. absurd (omega arith), none_below addr start ps h.1)

not_above :
    (addr a b : ℕ) (ps : List (ℕ × Provider))
    → a ≤ b
    → All (λ x. x.0 ≤ addr → x.0 ≤ a) ps
    → All (λ x. x.0 ≤ addr → x.0 ≤ b) ps
not_above addr a b [] l h = tt
not_above addr a b ((s, p) ∷ ps) l h =
    (λ m. let n = h.0 m in omega arith, not_above addr a b ps l h.1)

picked-IsProviderOf :
    (addr start : ℕ) (p : Provider) (ps : List (ℕ × Provider)) (o : Option Entry)
    → addr < 2 ^ 63
    → start < 2 ^ 63
    → IsProviderOf addr ps o
    → IsProviderOf addr ((start, p) ∷ ps) (picked addr start p o)
unfolding added_last
picked-IsProviderOf addr start p ps none h l k = elim (Bool-cases (ltb (key start) (key addr))) [
  | inl above ↦ rw (above) (ground arith, k)
  | inr reached ↦
      rw (reached) (ground arith, ground arith, (λ _. omega arith, none_below addr start ps k))
]
picked-IsProviderOf addr start p ps (some x) h l (near, last, most) =
    elim (Bool-cases (ltb (key start) (key addr))) [
      | inl above ↦
          let other : (start == x.start) ≡ false = ground arith in
          rw (above, other) (near, last, (λ m. absurd (ground arith), most))
      | inr reached ↦ elim (Bool-cases (leb (key start) (key x.start))) [
        | inl nearer ↦
            rw (reached, nearer)
              (
                ground arith,
                ground arith,
                (λ _. omega arith, not_above addr x.start start ps (ground arith) most),
              )
        | inr farther ↦
            let other : (start == x.start) ≡ false = ground arith in
            rw (reached, farther, other) (near, last, (λ m. ground arith, most))
      ]
    ]

-- On a bus built by `add_provider` from start addresses below 2 ^ 63, an address below 2 ^ 63 has no
-- provider where every provider starts above it; otherwise the one found is the provider that was added
-- last under its start, which is the largest start that is not above the address.
pub get_provider-build :
    (addr : ℕ) (ps : List (ℕ × Provider))
    → addr < 2 ^ 63
    → All (λ e. e.0 < 2 ^ 63) ps
    → IsProviderOf addr ps (get_provider addr (build ps))
unfolding build get_provider
get_provider-build addr [] h l = tt
get_provider-build addr ((start, p) ∷ ps) h (low, l) =
    subst (IsProviderOf addr ((start, p) ∷ ps))
      (sym (get_provider-add_provider addr start p (build ps)))
      (picked-IsProviderOf addr start p ps (get_provider addr (build ps)) h low
        (get_provider-build addr ps h l))
