-- ===== src/Validator/ApplyMetadata/Words.antt =====
-- The instruction tags that `apply_metadata` of validator/riscv/rv_validator.cc leaves.
use hope_policy_engine.Prelude.{
  ℕ, zero, suc, ◌+◌, ◌-◌, ◌*◌, ◌%◌, ◌^◌, ◌≤◌, ◌<◌, Bool, ltb, ◌≡◌, ◌∙◌, refl, ap, subst, true,
  false, if◌then◌else◌, List, some, Bool-cases, inl, inr, arith,
}
use hope_policy_engine.RuleCache.Interface.{RuleCache}
use hope_policy_engine.Tags.Bus.{read_insn}
use hope_policy_engine.Tags.Bus.Lookup.{AllCover}
use hope_policy_engine.Tags.Bus.NoMiss.{IsTag, NoMiss, write_insn-NoMiss}
use hope_policy_engine.Tags.Bus.InsnWrites.{read_insn-write_insn}
use hope_policy_engine.Tags.MetaCache.{at-canonize, canonize_again}
use hope_policy_engine.Tagging.TagFile.Metadata.{Metadata}
use hope_policy_engine.Validator.State.{Platform, Fault, configuration}
use hope_policy_engine.Validator.Outcomes.{Ends, Ends-bind, Ends-map}
use hope_policy_engine.Validator.Validate.{Validator}
use hope_policy_engine.Validator.ApplyMetadata.{add_bits, canonize_metadata, put_insn, put_words}

abbrev pub IsConfiguration : Fault → Type 0
IsConfiguration e = e ≡ configuration

module _ (p : Platform) (c : RuleCache) (ms_bit_add : p.MetaSet → ℕ → p.MetaSet) where
  -- the tag of the metadata, and the sets once it has one
  abbrev pub tag_of : Metadata → Validator p c → ℕ
  tag_of md s = (canonize_metadata p ms_bit_add md s.ms_cache).0

  abbrev pub sets_of : Metadata → Validator p c → List p.MetaSet
  sets_of md s = (canonize_metadata p ms_bit_add md s.ms_cache).1

  -- Only the bus and the metadata sets change; the vectors cover their providers, and no tag is missing
  -- that was there.
  pub record Retagged (s s' : Validator p c) : Type 0 where
    pub rest : s' ≡ record s { tag_bus = s'.tag_bus; ms_cache = s'.ms_cache }
    pub covers : AllCover s'.tag_bus
    pub no_miss : NoMiss s.tag_bus → NoMiss s'.tag_bus

  -- Every word of the range has the tag, and so has every address that had it.
  pub record Painted (start end tag : ℕ) (s s' : Validator p c) : Type 0 where
    pub retagged : Retagged s s'
    pub words : (i : ℕ) → start + i * 4 < end → read_insn (start + i * 4) s'.tag_bus ≡ some tag
    pub kept : (b : ℕ) → read_insn b s.tag_bus ≡ some tag → read_insn b s'.tag_bus ≡ some tag

  tag_of-IsTag : (md : Metadata) (s : Validator p c) → IsTag (tag_of md s)
  unfolding canonize_metadata
  tag_of-IsTag md s =
      ground
        (arith, (at-canonize ⦃eq = p.meta_set_eq⦄ (add_bits p ms_bit_add md p.empty) s.ms_cache).0)

  put_insn-Ends :
      (start : ℕ) (md : Metadata) (s : Validator p c)
      → AllCover s.tag_bus
      → Ends IsConfiguration
          (λ s'.
            Retagged s s'
            × (s'.ms_cache ≡ sets_of md s)
            × (read_insn start s'.tag_bus ≡ some (tag_of md s))
            × ((b : ℕ)
                → read_insn b s.tag_bus ≡ some (tag_of md s)
                → read_insn b s'.tag_bus ≡ some (tag_of md s)))
          (put_insn p c ms_bit_add start (some md) s)
  unfolding put_insn
  put_insn-Ends start md s covers =
      elim (read_insn-write_insn start (tag_of md s) s.tag_bus covers) [
        | inl out ↦ rw (out, put_insn) refl
        | inr (bus, e, back, covers', kept) ↦
            rw (e, put_insn)
              (
                record {
                  rest = refl;
                  covers = covers';
                  no_miss = λ h.
                      write_insn-NoMiss start (tag_of md s) s.tag_bus bus h (tag_of-IsTag md s) e;
                },
                refl,
                back,
                kept,
              )
      ]

  -- Once the metadata has its tag it keeps it.
  tag_of-again :
      (md : Metadata) (s s' : Validator p c)
      → s'.ms_cache ≡ sets_of md s
      → canonize_metadata p ms_bit_add md s'.ms_cache ≡ canonize_metadata p ms_bit_add md s.ms_cache
  unfolding canonize_metadata
  tag_of-again md s s' e =
      rw (e) (canonize_again ⦃eq = p.meta_set_eq⦄ (add_bits p ms_bit_add md p.empty) s.ms_cache)

  pub Retagged-trans : (s s' s'' : Validator p c) → Retagged s s' → Retagged s' s'' → Retagged s s''
  Retagged-trans s s' s'' h k = record {
    rest =
        k.rest
        ∙ ap (λ (v : Validator p c). record v { tag_bus = s''.tag_bus; ms_cache = s''.ms_cache })
            h.rest;
    covers = k.covers;
    no_miss = λ n. k.no_miss (h.no_miss n);
  }

  abbrev pub PaintedSets : ℕ → ℕ → Metadata → Validator p c → Validator p c → Type 0
  PaintedSets start end md s s' =
      Painted start end (tag_of md s) s s'
      × (s'.ms_cache ≡ (if ltb start end then sets_of md s else s.ms_cache))

  no_words :
      (start end : ℕ) (md : Metadata) (s : Validator p c)
      → AllCover s.tag_bus
      → ltb start end ≡ false
      → PaintedSets start end md s s
  no_words start end md s covers e = (
    record {
      retagged = record { rest = refl; covers = covers; no_miss = λ h. h };
      words = λ i l. absurd (ground arith);
      kept = λ b h. h;
    },
    rw (e) refl,
  )

  -- the first word, and then the others
  more_words :
      (start end : ℕ) (md : Metadata) (s s' s'' : Validator p c)
      → ltb start end ≡ true
      → Retagged s s'
      → s'.ms_cache ≡ sets_of md s
      → read_insn start s'.tag_bus ≡ some (tag_of md s)
      → ((b : ℕ)
          → read_insn b s.tag_bus ≡ some (tag_of md s)
          → read_insn b s'.tag_bus ≡ some (tag_of md s))
      → PaintedSets (start + 4) end md s' s''
      → PaintedSets start end md s s''
  more_words start end md s s' s'' l first sets back kept (painted, sets') =
      let again = tag_of-again md s s' sets in
      let same : tag_of md s' ≡ tag_of md s = ap (λ r. r.0) again in
      let rest = subst (λ t. Painted (start + 4) end t s' s'') same painted in
      (
        record {
          retagged = Retagged-trans s s' s'' first rest.retagged;
          words = λ i. word i rest;
          kept = λ b h. rest.kept b (kept b h);
        },
        rw (l) (sets' ∙ either (ltb (start + 4) end) (ap (λ r. r.1) again)),
      )
    where
      either :
          (b : Bool)
          → sets_of md s' ≡ sets_of md s
          → (if b then sets_of md s' else s'.ms_cache) ≡ sets_of md s
      either true e = e
      either false e = sets

      word :
          (i : ℕ)
          → Painted (start + 4) end (tag_of md s) s' s''
          → start + i * 4 < end
          → read_insn (start + i * 4) s''.tag_bus ≡ some (tag_of md s)
      word zero rest m =
          let n : start + zero * 4 ≡ start = omega arith in rw (n) (rest.kept start back)
      word (suc i) rest m =
          let n : start + 4 + i * 4 ≡ start + suc i * 4 = omega arith in
          rw (← n) (rest.words i (omega arith))

  -- A range that ends at 2 ^ 64 - 4 or below, given as many turns as it has addresses: unless a word has no
  -- location in the bus, which is the configuration exception, each of its words has the tag of the
  -- metadata afterwards, whatever other words share its location.
  pub put_words-Ends :
      (fuel start end : ℕ) (md : Metadata) (s : Validator p c)
      → AllCover s.tag_bus
      → end ≤ 2 ^ 64 - 4
      → end ≤ start + fuel
      → Ends IsConfiguration
          (PaintedSets start end md s)
          (put_words p c ms_bit_add fuel start end (some md) s)
  unfolding put_words
  put_words-Ends zero start end md s covers top enough =
      let out : ltb start end ≡ false = ground arith in
      rw (out, put_words) (no_words start end md s covers out)
  put_words-Ends (suc fuel) start end md s covers top enough = elim (Bool-cases (ltb start end)) [
    | inr out ↦ rw (out, put_words) (no_words start end md s covers out)
    | inl more ↦
        let next : (start + 4) % 2 ^ 64 ≡ start + 4 = ground arith in
        rw (more, put_words, next)
          (Ends-bind IsConfiguration _ (PaintedSets start end md s)
            (put_insn p c ms_bit_add start (some md) s)
            (λ s'. put_words p c ms_bit_add fuel (start + 4) end (some md) s')
            (put_insn-Ends start md s covers)
            (λ s' (first, sets, back, kept).
              Ends-map IsConfiguration (PaintedSets (start + 4) end md s')
                (PaintedSets start end md s)
                (put_words p c ms_bit_add fuel (start + 4) end (some md) s')
                (λ s'' rest. more_words start end md s s' s'' more first sets back kept rest)
                (put_words-Ends fuel (start + 4) end md s' first.covers top (omega arith))))
  ]
