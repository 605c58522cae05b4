-- ===== src/Factory/MetaSets.antt =====
-- `meta_set_factory_t` of validator/riscv/meta_set_factory.h and meta_set_factory.cc: the tag of the
-- metadata under a name; and the tags that the constructor in validator/riscv/rv_validator.cc takes from
-- it.
use Prim.Native.String.{String}
use hope_policy_engine.Prelude.{
  ℕ, Bool, true, false, ◌≡◌, ◌∙◌, refl, ap, subst, if◌then◌else◌, List, Option, none, some,
  Option-cases, inl, inr, arith,
}
use hope_policy_engine.Isa.{bad_tag_value}
use hope_policy_engine.Tags.Bus.NoMiss.{IsTag}
use hope_policy_engine.Tags.MetaCache.{at, at-canonize}
use hope_policy_engine.Tagging.TagFile.Metadata.{Metadata}
use hope_policy_engine.Validator.State.{Platform}
use hope_policy_engine.Validator.Construct.{InitialTags}
use hope_policy_engine.Validator.ApplyMetadata.{add_bits, canonize_metadata}
use hope_policy_engine.Factory.{Factory, lookup_metadata}
use hope_policy_engine.Factory.Lookup.{meaning, Agrees, lookup_metadata-Faithful}
use hope_policy_engine.Factory.Apply.{SameNames}

unfoldable pub has_meta_set : String → Factory → Bool × Factory
has_meta_set path f =
    let r = lookup_metadata path f in (elim r.0 [ none ↦ false | some md ↦ true ], r.1)

module _ (p : Platform) (ms_bit_add : p.MetaSet → ℕ → p.MetaSet) where
  -- The tag, and what the call leaves of the factory and the metadata sets.
  unfoldable pub get_tag : String → Factory → List p.MetaSet → ℕ × Factory × List p.MetaSet
  get_tag path f sets =
      let r = lookup_metadata path f in
      elim r.0 [
        | none ↦ (bad_tag_value, r.1, sets)
        | some md ↦ let t = canonize_metadata p ms_bit_add md sets in (t.0, r.1, t.1)
      ]

  -- the tag of register 0, if there is such a name
  unfoldable pub zero_tag : Factory → List p.MetaSet → Option ℕ × Factory × List p.MetaSet
  zero_tag f sets =
      let has = has_meta_set "ISA.RISCV.Reg.RZero" f in
      let t = get_tag "ISA.RISCV.Reg.RZero" has.1 sets in
      if has.0 then (some t.0, t.1, t.2) else (none, has.1, sets)

  unfoldable pub initial_tags : Factory → List p.MetaSet → InitialTags × Factory × List p.MetaSet
  initial_tags f sets =
      let reg = get_tag "ISA.RISCV.Reg.Default" f sets in
      let zero = zero_tag reg.1 reg.2 in
      let csr = get_tag "ISA.RISCV.CSR.Default" zero.1 zero.2 in
      let env = get_tag "ISA.RISCV.Reg.Env" csr.1 csr.2 in
      (
        record { reg_default = reg.0; reg_zero = zero.0; csr_default = csr.0; env = env.0 },
        env.1,
        env.2,
      )

  -- the set that a tag stands for
  abbrev pub set_at : List p.MetaSet → ℕ → Option p.MetaSet
  set_at sets t = at ⦃eq = p.meta_set_eq⦄ sets t

  -- What the tag of a name stands for: nothing, with `BAD_TAG_VALUE`, or the set of its metadata.
  abbrev pub StandsFor : List p.MetaSet → Option Metadata → ℕ → Type 0
  StandsFor sets none t = t ≡ bad_tag_value
  StandsFor sets (some md) t = IsTag t × (set_at sets t ≡ some (add_bits p ms_bit_add md p.empty))

  -- Tags that stood for a set still do.
  abbrev pub Extends : List p.MetaSet → List p.MetaSet → Type 0
  Extends sets sets' = (t : ℕ) (m : p.MetaSet) → set_at sets t ≡ some m → set_at sets' t ≡ some m

  pub StandsFor-Extends :
      (sets sets' : List p.MetaSet) (o : Option Metadata) (t : ℕ)
      → Extends sets sets'
      → StandsFor sets o t
      → StandsFor sets' o t
  StandsFor-Extends sets sets' none t more h = h
  StandsFor-Extends sets sets' (some md) t more (tag, found) =
      (tag, more t (add_bits p ms_bit_add md p.empty) found)

  -- The tag of a name stands for what the name stands for, and nothing else changes its meaning.
  pub get_tag-StandsFor :
      (path : String) (f : Factory) (sets : List p.MetaSet)
      → Agrees f
      → let r = get_tag path f sets in
        StandsFor r.2 (meaning f path) r.0 × SameNames f r.1 × Extends sets r.2
  unfolding get_tag canonize_metadata
  get_tag-StandsFor path f sets agrees =
      let (value, agrees', same) = lookup_metadata-Faithful path f agrees in
      elim (Option-cases (meaning f path)) [
        | inl nothing ↦
            let looked : (lookup_metadata path f).0 ≡ none = value ∙ nothing in
            rw (looked, get_tag) (rw (nothing, StandsFor) (refl, (agrees', same), λ t m h. h))
        | inr (md, known) ↦
            let looked : (lookup_metadata path f).0 ≡ some md = value ∙ known in
            let (positive, back, more) =
              at-canonize ⦃eq = p.meta_set_eq⦄ (add_bits p ms_bit_add md p.empty) sets in
            rw (looked, get_tag)
              (rw (known, StandsFor) ((ground (arith, positive), back), (agrees', same), more))
      ]

  has_meta_set_lem :
      (path : String) (f : Factory)
      → Agrees f
      → let r = has_meta_set path f in
        (r.0 ≡ elim (meaning f path) [ none ↦ false | some md ↦ true ]) × SameNames f r.1
  unfolding has_meta_set
  has_meta_set_lem path f agrees =
      let (value, agrees', same) = lookup_metadata-Faithful path f agrees in
      (ap (λ o. elim o [ none ↦ false | some md ↦ true ]) value, (agrees', same))

  -- The tag of register 0 stands for its name, where that stands for something.
  abbrev pub ZeroStandsFor : List p.MetaSet → Option Metadata → Option ℕ → Type 0
  ZeroStandsFor sets none o = o ≡ none
  ZeroStandsFor sets (some md) o = (t : ℕ) × (o ≡ some t) × StandsFor sets (some md) t

  pub SameNames-trans : (f g h : Factory) → SameNames f g → SameNames g h → SameNames f h
  SameNames-trans f g h (_, same) (agrees, same') = (agrees, λ q. same' q ∙ same q)

  zero_tag-StandsFor :
      (f : Factory) (sets : List p.MetaSet)
      → Agrees f
      → let r = zero_tag f sets in
        ZeroStandsFor r.2 (meaning f "ISA.RISCV.Reg.RZero") r.0 × SameNames f r.1 × Extends sets r.2
  unfolding zero_tag
  zero_tag-StandsFor f sets agrees =
      let (has, same) = has_meta_set_lem "ISA.RISCV.Reg.RZero" f agrees in
      let t = get_tag "ISA.RISCV.Reg.RZero" (has_meta_set "ISA.RISCV.Reg.RZero" f).1 sets in
      let (stands, same', more) =
        get_tag-StandsFor "ISA.RISCV.Reg.RZero" (has_meta_set "ISA.RISCV.Reg.RZero" f).1 sets
          same.0 in
      elim (Option-cases (meaning f "ISA.RISCV.Reg.RZero")) [
        | inl nothing ↦
            let no : (has_meta_set "ISA.RISCV.Reg.RZero" f).0 ≡ false =
              has ∙ ap (λ o. elim o [ none ↦ false | some md ↦ true ]) nothing in
            rw (no) (rw (nothing, ZeroStandsFor) (refl, same, λ t m h. h))
        | inr (md, known) ↦
            let yes : (has_meta_set "ISA.RISCV.Reg.RZero" f).0 ≡ true =
              has ∙ ap (λ o. elim o [ none ↦ false | some md ↦ true ]) known in
            rw (yes) (
              rw (known, ZeroStandsFor)
                (
                  (
                    t.0,
                    refl,
                    subst (λ o. StandsFor t.2 o t.0) (same.1 "ISA.RISCV.Reg.RZero" ∙ known) stands,
                  ),
                  SameNames-trans f (has_meta_set "ISA.RISCV.Reg.RZero" f).1 t.1 same same',
                  more,
                ))
      ]

  pub ZeroStandsFor-Extends :
      (sets sets' : List p.MetaSet) (o : Option Metadata) (t : Option ℕ)
      → Extends sets sets'
      → ZeroStandsFor sets o t
      → ZeroStandsFor sets' o t
  ZeroStandsFor-Extends sets sets' none t more h = h
  ZeroStandsFor-Extends sets sets' (some md) t more (n, e, h) =
      (n, e, StandsFor-Extends sets sets' (some md) n more h)

  -- Each of the tags that the validator starts with stands for its name.
  pub record Named (f : Factory) (sets : List p.MetaSet) (tags : InitialTags) : Type 0 where
    pub reg_default : StandsFor sets (meaning f "ISA.RISCV.Reg.Default") tags.reg_default
    pub reg_zero : ZeroStandsFor sets (meaning f "ISA.RISCV.Reg.RZero") tags.reg_zero
    pub csr_default : StandsFor sets (meaning f "ISA.RISCV.CSR.Default") tags.csr_default
    pub env : StandsFor sets (meaning f "ISA.RISCV.Reg.Env") tags.env

  -- With a `path_map` that has what the names stand for, each tag that the validator starts with stands in
  -- the metadata sets at the end for the metadata of its name, and is `BAD_TAG_VALUE` where the name stands
  -- for nothing; the tag of register 0 is there exactly where its name stands for something.
  pub initial_tags-Named :
      (f : Factory) (sets : List p.MetaSet)
      → Agrees f
      → let r = initial_tags f sets in Named f r.2 r.0 × SameNames f r.1
  unfolding initial_tags
  initial_tags-Named f sets agrees =
      let reg = get_tag "ISA.RISCV.Reg.Default" f sets in
      let (reg_stands, reg_same, _) = get_tag-StandsFor "ISA.RISCV.Reg.Default" f sets agrees in
      let zero = zero_tag reg.1 reg.2 in
      let (zero_stands, zero_same, zero_more) = zero_tag-StandsFor reg.1 reg.2 reg_same.0 in
      let same1 = SameNames-trans f reg.1 zero.1 reg_same zero_same in
      let csr = get_tag "ISA.RISCV.CSR.Default" zero.1 zero.2 in
      let (csr_stands, csr_same, csr_more) =
        get_tag-StandsFor "ISA.RISCV.CSR.Default" zero.1 zero.2 same1.0 in
      let same2 = SameNames-trans f zero.1 csr.1 same1 csr_same in
      let env = get_tag "ISA.RISCV.Reg.Env" csr.1 csr.2 in
      let (env_stands, env_same, env_more) =
        get_tag-StandsFor "ISA.RISCV.Reg.Env" csr.1 csr.2 same2.0 in
      (
        record {
          reg_default =
              StandsFor-Extends reg.2 env.2 (meaning f "ISA.RISCV.Reg.Default") reg.0
                (λ t m h. env_more t m (csr_more t m (zero_more t m h))) reg_stands;
          reg_zero =
              ZeroStandsFor-Extends zero.2 env.2 (meaning f "ISA.RISCV.Reg.RZero") zero.0
                (λ t m h. env_more t m (csr_more t m h))
                (subst (λ o. ZeroStandsFor zero.2 o zero.0) (reg_same.1 "ISA.RISCV.Reg.RZero")
                  zero_stands);
          csr_default =
              StandsFor-Extends csr.2 env.2 (meaning f "ISA.RISCV.CSR.Default") csr.0 env_more
                (subst (λ o. StandsFor csr.2 o csr.0) (same1.1 "ISA.RISCV.CSR.Default") csr_stands);
          env = subst (λ o. StandsFor env.2 o env.0) (same2.1 "ISA.RISCV.Reg.Env") env_stands;
        },
        SameNames-trans f csr.1 env.1 same2 env_same,
      )
