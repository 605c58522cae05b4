-- ===== src/Tags/Bus/InsnWrites.antt =====
-- The instruction tags of the bus, validator/include/tag_utils.h, as `insn_tag_at` gives their locations.
use hope_policy_engine.Prelude.{
  ℕ, zero, suc, leb, ◌==◌, ◌≡◌, ◌∙◌, refl, sym, ap, subst, false, ◌⊎◌, List, [], ◌∷◌, none, some,
  get_elem?, set, arith, Bool-cases, Option-cases, inl, inr,
}
use hope_policy_engine.Tags.Provider.{Provider, uniform, ram, insn_cell, load, store}
use hope_policy_engine.Tags.Provider.Laws.{Covers, load-insn_cell, load-store, store-Covers}
use hope_policy_engine.Tags.Bus.{
  Entry, Bus, key, get_provider, offset, insn_tag_at, read_insn, put_provider, write_insn,
}
use hope_policy_engine.Tags.Bus.Lookup.{AllCover}
use hope_policy_engine.Tags.Bus.Writes.{
  provider-key, get_provider-put, get_provider-Covers, put_provider-AllCover,
}

insn_cell-store : (p : Provider) (i t addr : ℕ) → insn_cell (store p i t) addr ≡ insn_cell p addr
unfolding insn_cell store
insn_cell-store (uniform size tag g) i t addr = refl
insn_cell-store (ram size w g tags) i t addr = refl

-- A cell with the tag that is written elsewhere keeps it.
get_elem?-set_same :
    (xs : List ℕ) (i j v : ℕ) → get_elem? xs j ≡ some v → get_elem? (set xs i v) j ≡ some v
get_elem?-set_same [] i j v h = h
get_elem?-set_same (x ∷ xs) zero zero v h = refl
get_elem?-set_same (x ∷ xs) zero (suc j) v h = h
get_elem?-set_same (x ∷ xs) (suc i) zero v h = h
get_elem?-set_same (x ∷ xs) (suc i) (suc j) v h = get_elem?-set_same xs i j v h

load-store_same : (p : Provider) (i j t : ℕ) → load p j ≡ some t → load (store p i t) j ≡ some t
unfolding load store
load-store_same (uniform size tag g) i j t h = refl
load-store_same (ram size w g tags) i j t h = get_elem?-set_same tags i j t h

-- Two addresses whose providers have the same start have the same provider.
one_provider :
    (a b : ℕ) (bus : Bus) (e e' : Entry)
    → get_provider a bus ≡ some e
    → get_provider b bus ≡ some e'
    → e'.start ≡ e.start
    → e' ≡ e
unfolding get_provider
one_provider a b [] e e' h h' s = cc
one_provider a b (f ∷ bus) e e' h h' s = elim (Bool-cases (leb (key a) (key f.start))) [
  | inl here ↦ elim (Bool-cases (leb (key b) (key f.start))) [
    | inl here' ↦ ground arith
    | inr later' ↦
        let same : f ≡ e = ground arith in
        let start : e'.start ≡ f.start = s ∙ ap (λ (x : Entry). x.start) (sym same) in
        let found = provider-key b bus e' (ground arith) in
        absurd (cc (ap (λ (n : ℕ). leb (key b) (key n)) start))
  ]
  | inr later ↦ elim (Bool-cases (leb (key b) (key f.start))) [
    | inl here' ↦
        let same : f ≡ e' = ground arith in
        let start : f.start ≡ e.start = ap (λ (x : Entry). x.start) same ∙ s in
        let found = provider-key a bus e (ground arith) in
        absurd (cc (ap (λ (n : ℕ). leb (key a) (key n)) start))
    | inr later' ↦ one_provider a b bus e e' (ground arith) (ground arith) s
  ]
]

-- Another provider stays where it is.
get_provider-put_other :
    (b start : ℕ) (p : Provider) (bus : Bus) (e : Entry)
    → get_provider b bus ≡ some e
    → (e.start == start) ≡ false
    → get_provider b (put_provider start p bus) ≡ some e
unfolding get_provider put_provider
get_provider-put_other b start p [] e h n = cc
get_provider-put_other b start p (f ∷ bus) e h n = elim (Bool-cases (f.start == start)) [
  | inl replaced ↦ elim (Bool-cases (leb (key b) (key f.start))) [
    | inl here ↦
        let same : f ≡ e = ground arith in absurd (cc (ap (λ (x : Entry). x.start == start) same))
    | inr later ↦ rw (replaced, put_provider) (rw (later, get_provider) (ground arith))
  ]
  | inr kept ↦ elim (Bool-cases (leb (key b) (key f.start))) [
    | inl here ↦ rw (kept, put_provider) (rw (here, get_provider) (ground arith))
    | inr later ↦
        rw (kept, put_provider)
          (rw (later, get_provider) (get_provider-put_other b start p bus e (ground arith) n))
  ]
]

-- The location of an instruction, and the tag there.
insn_located :
    (addr : ℕ) (bus : Bus) (l : Entry × ℕ)
    → AllCover bus
    → insn_tag_at addr bus ≡ some l
    → (old : ℕ) × (get_provider addr bus ≡ some l.0)
      × (insn_cell l.0.provider (offset addr l.0.start) ≡ some l.1)
      × (load l.0.provider l.1 ≡ some old)
      × Covers l.0.provider
unfolding insn_tag_at
insn_located addr bus (e, i) c h =
    let found : get_provider addr bus ≡ some e = ground arith in
    let cell : insn_cell e.provider (offset addr e.start) ≡ some i = ground arith in
    let covers = get_provider-Covers addr bus e c found in
    let (old, loaded) = load-insn_cell e.provider (offset addr e.start) i covers cell in
    (old, found, cell, loaded, covers)

insn_tag_at-put :
    (addr tag i : ℕ) (bus : Bus) (e : Entry) (j : ℕ)
    → get_provider addr bus ≡ some e
    → insn_cell e.provider (offset addr e.start) ≡ some j
    → insn_tag_at addr (put_provider e.start (store e.provider i tag) bus)
      ≡ some (record e { provider = store e.provider i tag }, j)
unfolding insn_tag_at
insn_tag_at-put addr tag i bus e j found cell = ground (
  arith,
  get_provider-put addr (store e.provider i tag) bus e found,
  insn_cell-store e.provider i tag (offset addr e.start),
)

-- An address with the tag that is written keeps it, wherever the write is.
insn_kept :
    (addr tag b i : ℕ) (bus : Bus) (e : Entry)
    → AllCover bus
    → get_provider addr bus ≡ some e
    → read_insn b bus ≡ some tag
    → read_insn b (put_provider e.start (store e.provider i tag) bus) ≡ some tag
unfolding read_insn insn_tag_at
insn_kept addr tag b i bus e c at_addr h = elim (Option-cases (insn_tag_at b bus)) [
  | inl out ↦ absurd (ground arith)
  | inr ((f, j), l) ↦
      let (old, found, cell, loaded, _) = insn_located b bus (f, j) c l in
      let tagged : load f.provider j ≡ some tag = ground arith in
      elim (Bool-cases (f.start == e.start)) [
        | inl start ↦
            let same : f ≡ e = one_provider addr b bus e f at_addr found (ground arith) in
            subst
              (λ (x : Entry).
                read_insn b (put_provider x.start (store x.provider i tag) bus) ≡ some tag)
              same
              (ground (
                arith,
                insn_tag_at-put b tag i bus f j found cell,
                load-store_same f.provider i j tag tagged,
              ))
        | inr other ↦
            ground
              (arith, get_provider-put_other b e.start (store e.provider i tag) bus f found other)
      ]
]

-- On a bus whose vectors cover their providers, an instruction tag is written, or the address has no
-- location. A written tag is read back, and every address that had this very tag still has it.
pub read_insn-write_insn :
    (addr tag : ℕ) (bus : Bus)
    → AllCover bus
    → (write_insn addr tag bus ≡ none)
      ⊎ ((bus' : Bus) × (write_insn addr tag bus ≡ some bus')
          × (read_insn addr bus' ≡ some tag)
          × AllCover bus'
          × ((b : ℕ) → read_insn b bus ≡ some tag → read_insn b bus' ≡ some tag))
unfolding read_insn write_insn
read_insn-write_insn addr tag bus c = elim (Option-cases (insn_tag_at addr bus)) [
  | inl out ↦ inl (ground arith)
  | inr ((e, i), h) ↦
      let (old, found, cell, loaded, covers) = insn_located addr bus (e, i) c h in
      inr (
        put_provider e.start (store e.provider i tag) bus,
        ground arith,
        ground (
          arith,
          insn_tag_at-put addr tag i bus e i found cell,
          load-store e.provider i tag old loaded,
        ),
        put_provider-AllCover e.start _ bus (store-Covers e.provider i tag covers) c,
        λ b k. insn_kept addr tag b i bus e c found k,
      )
]
