-- ===== src/Soc/Reads.antt =====
-- The tags that the elements of validator/src/soc_tag_configuration.cc give the memory.
use hope_policy_engine.Prelude.{
  ℕ, ◌^◌, ◌<◌, ◌≤◌, ltb, leb, true, false, ◌≡◌, ◌∙◌, refl, sym, ap, subst, List, [], ◌∷◌, Option,
  none, some, All, inl, inr, arith, Bool-cases, Option-cases, if◌then◌else◌,
}
use hope_policy_engine.Tags.Provider.{Provider}
use hope_policy_engine.Tags.Bus.{
  Entry, Bus, key, add_provider, get_provider, offset, data_tag_at, insn_tag_at, read_data,
  read_insn,
}
use hope_policy_engine.Tags.Bus.Lookup.{
  Sorted, Low, Nearest, get_provider-Nearest, All-add, add_provider-Sorted,
}
use hope_policy_engine.Soc.{SocElement, provider_of, apply}
use hope_policy_engine.Soc.Elements.{
  has, tag_of, Proper, Disjoint, size_of, Apart, data_of, insn_of, within, picked, get_provider-add,
  data_of-fresh, data_of-outside, insn_of-fresh, insn_of-outside, size_of-provider, All-found,
  Apart-add,
}

module _ (R : Provider → ℕ → Option ℕ)
    (fresh : (e : SocElement) (addr : ℕ) → R (provider_of e) addr ≡ within addr e)
    (outside : (p : Provider) (addr : ℕ) → size_of p ≤ addr → R p addr ≡ none) where
  abbrev seen : ℕ → Option Entry → Option ℕ
  seen addr none = none
  seen addr (some x) = R x.provider (offset addr x.start)

  seen_fresh :
      (addr : ℕ) (e : SocElement)
      → addr < 2 ^ 63
      → Proper e
      → e.start ≤ addr
      → R (provider_of e) (offset addr e.start) ≡ (if ltb addr e.end then some e.tag else none)
  seen_fresh addr e h proper above =
      let read = fresh e (offset addr e.start) in
      let size = size_of-provider e in
      elim (Bool-cases (ltb addr e.end)) [
        | inl inside ↦
            let small : ltb (offset addr e.start) (size_of (provider_of e)) ≡ true =
              rw (size) (ground arith) in
            read ∙ rw (small, inside) refl
        | inr past ↦
            let large : ltb (offset addr e.start) (size_of (provider_of e)) ≡ false =
              rw (size) (ground arith) in
            read ∙ rw (large, past) refl
      ]

  -- What the entry found before the element was added is near, and apart from it.
  abbrev Close : ℕ → SocElement → Option Entry → Type 0
  Close addr e none = Unit
  Close addr e (some x) = (x.start ≤ addr) × (x.start < 2 ^ 63) × Apart e x

  seen-picked :
      (addr : ℕ) (e : SocElement) (o : Option Entry)
      → addr < 2 ^ 63
      → Proper e
      → Close addr e o
      → seen addr (picked addr e o) ≡ (if has addr e then some e.tag else seen addr o)
  unfolding has
  seen-picked addr e none h proper close = elim (Bool-cases (ltb addr e.start)) [
    | inl before ↦
        let first : ltb (key e.start) (key addr) ≡ true = ground arith in rw (first, before) refl
    | inr after ↦
        let later : ltb (key e.start) (key addr) ≡ false = ground arith in
        rw (later, after) (seen_fresh addr e h proper (ground arith))
  ]
  seen-picked addr e (some x) h proper (near, low, apart) = elim (Bool-cases (ltb addr e.start)) [
    | inl before ↦
        let first : ltb (key e.start) (key addr) ≡ true = ground arith in rw (first, before) refl
    | inr after ↦
        let later : ltb (key e.start) (key addr) ≡ false = ground arith in
        elim (Bool-cases (leb (key e.start) (key x.start))) [
          | inl nearer ↦
              rw (later, nearer, after)
                (elim (Bool-cases (ltb addr e.end)) [
                  | inl inside ↦ seen_fresh addr e h proper (ground arith) ∙ rw (inside) refl
                  | inr past ↦
                      seen_fresh addr e h proper (ground arith)
                      ∙ rw (past) (sym (outside x.provider (offset addr x.start) (ground arith)))
                ])
          | inr farther ↦
              let past : ltb addr e.end ≡ false = ground arith in
              rw (later, farther, after, past) refl
        ]
  ]

  Close-found :
      (addr : ℕ) (e : SocElement) (bus : Bus)
      → Nearest addr bus (get_provider addr bus)
      → Low bus
      → All (Apart e) bus
      → Close addr e (get_provider addr bus)
  Close-found addr e bus nearest low apart = elim (Option-cases (get_provider addr bus)) [
    | inl empty ↦ rw (empty) tt
    | inr (x, found) ↦
        let near : Nearest addr bus (some x) = subst (Nearest addr bus) found nearest in
        let below = All-found addr x bus (λ y. y.start < 2 ^ 63) low found in
        let far = All-found addr x bus (Apart e) apart found in
        subst (Close addr e) (sym found) (near.0, below, far)
  ]

  -- One more element gives its addresses its tag, and leaves the others theirs.
  seen-add :
      (addr : ℕ) (e : SocElement) (bus : Bus)
      → addr < 2 ^ 63
      → Proper e
      → Sorted bus
      → Low bus
      → All (Apart e) bus
      → seen addr (get_provider addr (add_provider e.start (provider_of e) bus))
        ≡ (if has addr e then some e.tag else seen addr (get_provider addr bus))
  seen-add addr e bus h proper s l apart =
      ap (seen addr) (get_provider-add addr e bus)
      ∙ seen-picked addr e (get_provider addr bus) h proper
          (Close-found addr e bus (get_provider-Nearest addr bus h s l) l apart)

  seen-apply :
      (addr : ℕ) (es : List SocElement) (bus : Bus)
      → addr < 2 ^ 63
      → Disjoint es
      → Sorted bus
      → Low bus
      → All (λ e. All (Apart e) bus) es
      → seen addr (get_provider addr (apply es bus))
        ≡ (elim (tag_of addr es) [ none ↦ seen addr (get_provider addr bus) | some t ↦ some t ])
  unfolding apply tag_of
  seen-apply addr [] bus h d s l apart = refl
  seen-apply addr (e ∷ es) bus h (proper, others, d) s l (here, apart) =
      let step = seen-add addr e bus h proper s l here in
      let low : e.start < 2 ^ 63 = omega arith in
      let rest =
        seen-apply addr es (add_provider e.start (provider_of e) bus) h d
          (add_provider-Sorted e.start (provider_of e) bus s)
          (All-add (λ x. x.start < 2 ^ 63) e.start (provider_of e) bus low l)
          (Apart-add e es bus proper others apart) in
      elim (Option-cases (tag_of addr es)) [
        | inr (t, later) ↦ rest ∙ rw (later) refl
        | inl not_later ↦
            rest
            ∙ rw (not_later) (
                step ∙ (elim (Bool-cases (has addr e)) [
                  | inl inside ↦ rw (inside) refl
                  | inr past ↦ rw (past) refl
                ]))
      ]

read_data-seen :
    (addr : ℕ) (bus : Bus)
    → read_data addr bus ≡ seen data_of data_of-fresh data_of-outside addr (get_provider addr bus)
unfolding read_data data_tag_at
read_data-seen addr bus = ground arith

read_insn-seen :
    (addr : ℕ) (bus : Bus)
    → read_insn addr bus ≡ seen insn_of insn_of-fresh insn_of-outside addr (get_provider addr bus)
unfolding read_insn insn_tag_at
read_insn-seen addr bus = ground arith

no_entry-Apart : (es : List SocElement) → All (λ f. All (Apart f) []) es
no_entry-Apart [] = tt
no_entry-Apart (e ∷ es) = (tt, no_entry-Apart es)

found_or : (o : Option ℕ) → (elim o [ none ↦ none | some t ↦ some t ]) ≡ o
found_or none = refl
found_or (some t) = refl

-- For elements that are not empty, end at 2 ^ 63 or below and share no address, the bus that `apply`
-- makes gives each address below 2 ^ 63, for data and for instructions, the tag of the element that has
-- it, and no tag where none has it. An element has the addresses from its start up to its end, without
-- the end.
pub reads-tag_of :
    (addr : ℕ) (es : List SocElement)
    → addr < 2 ^ 63
    → Disjoint es
    → (read_data addr (apply es []) ≡ tag_of addr es)
      × (read_insn addr (apply es []) ≡ tag_of addr es)
unfolding get_provider
reads-tag_of addr es h d = (
  read_data-seen addr (apply es [])
      ∙ seen-apply data_of data_of-fresh data_of-outside addr es [] h d tt tt (no_entry-Apart es)
      ∙ found_or (tag_of addr es),
  read_insn-seen addr (apply es [])
      ∙ seen-apply insn_of insn_of-fresh insn_of-outside addr es [] h d tt tt (no_entry-Apart es)
      ∙ found_or (tag_of addr es),
)
