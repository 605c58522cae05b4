-- ===== src/Tags/Bus/Writes.antt =====
-- The writes of the tag bus, validator/include/tag_utils.h.
use hope_policy_engine.Prelude.{
  ℕ, leb, ◌==◌, ◌≡◌, ◌∙◌, ap, true, ◌⊎◌, [], ◌∷◌, none, some, arith, Bool-cases, Option-cases, inl,
  inr,
}
use hope_policy_engine.Tags.Provider.{Provider, data_cell, load, store}
use hope_policy_engine.Tags.Provider.Laws.{
  Covers, load-data_cell, load-store, data_cell-store, store-Covers,
}
use hope_policy_engine.Tags.Bus.{
  Entry, Bus, key, get_provider, offset, data_tag_at, read_data, put_provider, write_data,
}
use hope_policy_engine.Tags.Bus.Lookup.{AllCover}

pub provider-key :
    (addr : ℕ) (bus : Bus) (e : Entry)
    → get_provider addr bus ≡ some e
    → leb (key addr) (key e.start) ≡ true
unfolding get_provider
provider-key addr [] e h = cc
provider-key addr (f ∷ bus) e h = elim (Bool-cases (leb (key addr) (key f.start))) [
  | inl here ↦ let same : f ≡ e = ground arith in rw (← same) here
  | inr later ↦ provider-key addr bus e (ground arith)
]

pub ==_refl : (n : ℕ) → (n == n) ≡ true
==_refl n = ground arith

pub get_provider-put :
    (addr : ℕ) (p : Provider) (bus : Bus) (e : Entry)
    → get_provider addr bus ≡ some e
    → get_provider addr (put_provider e.start p bus) ≡ some (record e { provider = p })
unfolding get_provider put_provider
get_provider-put addr p [] e h = cc
get_provider-put addr p (f ∷ bus) e h = elim (Bool-cases (leb (key addr) (key f.start))) [
  | inl here ↦
      let same : f ≡ e = ground arith in
      let start : (f.start == e.start) ≡ true =
        ap (λ (x : Entry). x.start == e.start) same ∙ ==_refl e.start in
      rw (start, put_provider)
        (rw (here, get_provider) (ap (λ (x : Entry). some (record x { provider = p })) same))
  | inr later ↦ elim (Bool-cases (f.start == e.start)) [
    | inl start ↦
        let same : f.start ≡ e.start = ground arith in
        let found = provider-key addr bus e (ground arith) in
        absurd (cc (ap (λ (n : ℕ). leb (key addr) (key n)) same))
    | inr other ↦
        rw (other, put_provider)
          (rw (later, get_provider) (get_provider-put addr p bus e (ground arith)))
  ]
]

pub get_provider-Covers :
    (addr : ℕ) (bus : Bus) (e : Entry)
    → AllCover bus
    → get_provider addr bus ≡ some e
    → Covers e.provider
unfolding get_provider
get_provider-Covers addr [] e c h = cc
get_provider-Covers addr (f ∷ bus) e c h = elim (Bool-cases (leb (key addr) (key f.start))) [
  | inl here ↦ let same : f ≡ e = ground arith in rw (← same) c.0
  | inr later ↦ get_provider-Covers addr bus e c.1 (ground arith)
]

pub put_provider-AllCover :
    (start : ℕ) (p : Provider) (bus : Bus)
    → Covers p
    → AllCover bus
    → AllCover (put_provider start p bus)
unfolding put_provider
put_provider-AllCover start p [] h c = tt
put_provider-AllCover start p (f ∷ bus) h c = elim (Bool-cases (f.start == start)) [
  | inl here ↦ rw (here, put_provider) (h, c.1)
  | inr later ↦ rw (later, put_provider) (c.0, put_provider-AllCover start p bus h c.1)
]

-- The location of an address, if it has one, and the tag there.
located :
    (addr : ℕ) (bus : Bus) (l : Entry × ℕ)
    → AllCover bus
    → data_tag_at addr bus ≡ some l
    → (old : ℕ) × (get_provider addr bus ≡ some l.0)
      × (data_cell l.0.provider (offset addr l.0.start) ≡ some l.1)
      × (load l.0.provider l.1 ≡ some old)
      × Covers l.0.provider
unfolding data_tag_at
located addr bus (e, i) c h =
    let found : get_provider addr bus ≡ some e = ground arith in
    let cell : data_cell e.provider (offset addr e.start) ≡ some i = ground arith in
    let covers = get_provider-Covers addr bus e c found in
    let (old, loaded) = load-data_cell e.provider (offset addr e.start) i covers cell in
    (old, found, cell, loaded, covers)

data_tag_at-put :
    (addr tag : ℕ) (bus : Bus) (e : Entry) (i : ℕ)
    → get_provider addr bus ≡ some e
    → data_cell e.provider (offset addr e.start) ≡ some i
    → data_tag_at addr (put_provider e.start (store e.provider i tag) bus)
      ≡ some (record e { provider = store e.provider i tag }, i)
unfolding data_tag_at
data_tag_at-put addr tag bus e i found cell = ground (
  arith,
  get_provider-put addr (store e.provider i tag) bus e found,
  data_cell-store e.provider i tag (offset addr e.start),
)

-- On a bus whose vectors cover their providers, an address has a location exactly when it can be read
-- and written; a write then succeeds, the tag read back is the one written, and the vectors still cover
-- their providers. Without a location both reading and writing raise the exception.
pub read_data-write_data :
    (addr tag : ℕ) (bus : Bus)
    → AllCover bus
    → ((read_data addr bus ≡ none) × (write_data addr tag bus ≡ none))
      ⊎ ((old : ℕ) × (bus' : Bus) × (read_data addr bus ≡ some old)
          × (write_data addr tag bus ≡ some bus')
          × (read_data addr bus' ≡ some tag)
          × AllCover bus')
unfolding read_data write_data
read_data-write_data addr tag bus c = elim (Option-cases (data_tag_at addr bus)) [
  | inl out ↦ inl (ground arith, ground arith)
  | inr ((e, i), h) ↦
      let (old, found, cell, loaded, covers) = located addr bus (e, i) c h in
      inr (
        old,
        put_provider e.start (store e.provider i tag) bus,
        ground arith,
        ground arith,
        ground (
          arith,
          data_tag_at-put addr tag bus e i found cell,
          load-store e.provider i tag old loaded,
        ),
        put_provider-AllCover e.start _ bus (store-Covers e.provider i tag covers) c,
      )
]
