-- ===== src/Soc/Elements.antt =====
-- What the elements of validator/src/soc_tag_configuration.cc say of the memory, and the provider that
-- `apply` enters for each.
use hope_policy_engine.Prelude.{
  ℕ, zero, suc, ◌+◌, ◌-◌, ◌/◌, ◌%◌, ◌^◌, ◌<◌, ◌≤◌, ltb, leb, Bool, false, ◌≡◌, refl, subst, List,
  [], ◌∷◌, Option, none, some, All, ◌⊎◌, inl, inr, arith, Bool-cases, get_elem?, replicate,
  bit_and-le_left, if◌then◌else◌,
}
use hope_policy_engine.Tags.Provider.{
  Provider, uniform, ram, new_ram, align, data_cell, insn_cell, load,
}
use hope_policy_engine.Tags.Bus.{Entry, Bus, key, add_provider, get_provider}
use hope_policy_engine.Tags.Bus.Lookup.{get_provider-add_provider, All-add}
use hope_policy_engine.Soc.{SocElement, provider_of}

-- Whether an element has an address, up to its end without it; and the tag of the address, of the last element that has it.
unfoldable pub has : ℕ → SocElement → Bool
has addr e = if ltb addr e.start then false else ltb addr e.end

unfoldable pub tag_of : ℕ → List SocElement → Option ℕ
tag_of addr [] = none
tag_of addr (e ∷ es) = elim (tag_of addr es) [
  | some t ↦ some t
  | none ↦ if has addr e then some e.tag else none
]

-- elements as a memory has them: none is empty, all end at 2 ^ 63 or below, and no two have an address
abbrev pub Proper : SocElement → Type 0
Proper e = (e.start < e.end) × (e.end ≤ 2 ^ 63)

abbrev pub Disjoint : List SocElement → Type 0
Disjoint [] = Unit
Disjoint (e ∷ es) =
    Proper e × All (λ (f : SocElement). (e.end ≤ f.start) ⊎ (f.end ≤ e.start)) es × Disjoint es

abbrev pub size_of : Provider → ℕ
size_of (uniform size tag g) = size
size_of (ram size w g tags) = size

abbrev pub Apart : SocElement → Entry → Type 0
Apart e x = (x.start + size_of x.provider ≤ e.start) ⊎ (e.end ≤ x.start)

abbrev pub entry_of : SocElement → Entry
entry_of e = record { start = e.start; provider = provider_of e }

-- The entry that an address has after one more element: the new one, or that from before.
abbrev pub picked : ℕ → SocElement → Option Entry → Option Entry
picked addr e o = if ltb (key e.start) (key addr) then o else elim o [
  | none ↦ some (entry_of e)
  | some x ↦ if leb (key e.start) (key x.start) then some (entry_of e) else some x
]

pub get_provider-add :
    (addr : ℕ) (e : SocElement) (bus : Bus)
    → get_provider addr (add_provider e.start (provider_of e) bus)
      ≡ picked addr e (get_provider addr bus)
get_provider-add addr e bus = get_provider-add_provider addr e.start (provider_of e) bus

-- the tag that a read finds in a provider
abbrev pub data_of : Provider → ℕ → Option ℕ
data_of p addr = elim (data_cell p addr) [ none ↦ none | some i ↦ load p i ]

abbrev pub insn_of : Provider → ℕ → Option ℕ
insn_of p addr = elim (insn_cell p addr) [ none ↦ none | some i ↦ load p i ]

abbrev pub within : ℕ → SocElement → Option ℕ
within addr e = if ltb addr (size_of (provider_of e)) then some e.tag else none

get_elem?-replicate : (n i a : ℕ) → i < n → get_elem? (replicate n a) i ≡ some a
get_elem?-replicate zero i a h = absurd (omega arith)
get_elem?-replicate (suc n) zero a h = refl
get_elem?-replicate (suc n) (suc i) a h = get_elem?-replicate n i a (omega arith)

data_of-ram :
    (size w g n tag addr : ℕ)
    → size / 4 < n
    → data_of (ram size w g (replicate n tag)) addr ≡ (if ltb addr size then some tag else none)
unfolding data_cell load align
data_of-ram size w g n tag addr h = elim (Bool-cases (ltb addr size)) [
  | inr outside ↦ ground arith
  | inl inside ↦
      let found =
        get_elem?-replicate n (align addr g / 4) tag
          (ground (arith, bit_and-le_left addr ((2 ^ 64 - g) % 2 ^ 64))) in
      ground arith
]

insn_of-ram :
    (size w g n tag addr : ℕ)
    → size / 4 < n
    → insn_of (ram size w g (replicate n tag)) addr ≡ (if ltb addr size then some tag else none)
unfolding insn_cell load
insn_of-ram size w g n tag addr h = elim (Bool-cases (ltb addr size)) [
  | inr outside ↦ ground arith
  | inl inside ↦ let found = get_elem?-replicate n (addr / 4) tag (ground arith) in ground arith
]

pub data_of-fresh : (e : SocElement) (addr : ℕ) → data_of (provider_of e) addr ≡ within addr e
unfolding provider_of new_ram data_cell load
data_of-fresh e addr = elim (Bool-cases e.heterogeneous) [
  | inr one ↦ rw (one) (ground arith)
  | inl many ↦ rw (many) (
      data_of-ram ((e.end + 2 ^ 64 - e.start) % 2 ^ 64) e.word_size e.tag_granularity
        ((e.end + 2 ^ 64 - e.start) % 2 ^ 64 / 4 + 1) e.tag addr (omega arith))
]

pub data_of-outside : (p : Provider) (addr : ℕ) → size_of p ≤ addr → data_of p addr ≡ none
unfolding data_cell
data_of-outside (uniform size tag g) addr h = ground arith
data_of-outside (ram size w g tags) addr h = ground arith

pub insn_of-fresh : (e : SocElement) (addr : ℕ) → insn_of (provider_of e) addr ≡ within addr e
unfolding provider_of new_ram insn_cell load
insn_of-fresh e addr = elim (Bool-cases e.heterogeneous) [
  | inr one ↦ rw (one) (ground arith)
  | inl many ↦ rw (many) (
      insn_of-ram ((e.end + 2 ^ 64 - e.start) % 2 ^ 64) e.word_size e.tag_granularity
        ((e.end + 2 ^ 64 - e.start) % 2 ^ 64 / 4 + 1) e.tag addr (omega arith))
]

pub insn_of-outside : (p : Provider) (addr : ℕ) → size_of p ≤ addr → insn_of p addr ≡ none
unfolding insn_cell
insn_of-outside (uniform size tag g) addr h = ground arith
insn_of-outside (ram size w g tags) addr h = ground arith

pub size_of-provider :
    (e : SocElement) → size_of (provider_of e) ≡ (e.end + 2 ^ 64 - e.start) % 2 ^ 64
unfolding provider_of new_ram
size_of-provider e = elim (Bool-cases e.heterogeneous) [
  | inl many ↦ rw (many) refl
  | inr one ↦ rw (one) refl
]

pub All-found :
    (addr : ℕ) (x : Entry) (bus : Bus) (P : Entry → Type 0)
    → All P bus
    → get_provider addr bus ≡ some x
    → P x
unfolding get_provider
All-found addr x [] P h found = cc
All-found addr x (y ∷ bus) P h found = elim (Bool-cases (leb (key addr) (key y.start))) [
  | inl here ↦ let same : y ≡ x = ground arith in subst P same h.0
  | inr later ↦ All-found addr x bus P h.1 (ground arith)
]

pub Apart-add :
    (e : SocElement) (es : List SocElement) (bus : Bus)
    → Proper e
    → All (λ (f : SocElement). (e.end ≤ f.start) ⊎ (f.end ≤ e.start)) es
    → All (λ f. All (Apart f) bus) es
    → All (λ f. All (Apart f) (add_provider e.start (provider_of e) bus)) es
Apart-add e [] bus proper others apart = tt
Apart-add e (f ∷ es) bus proper (other, others) (here, apart) =
    let size = size_of-provider e in
    (
      All-add (Apart f) e.start (provider_of e) bus
          (rw (size) (elim other [ inl before ↦ inl (omega arith) | inr behind ↦ inr behind ]))
          here,
      Apart-add e es bus proper others apart,
    )
