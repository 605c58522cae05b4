-- ===== src/Validator/ApplyMetadata/Ranges.antt =====
-- `apply_metadata` of validator/riscv/rv_validator.cc on the ranges of a map.
use hope_policy_engine.Prelude.{
  ℕ, zero, suc, ◌+◌, ◌-◌, ◌*◌, ◌/◌, ◌%◌, ◌^◌, ◌∙◌, ◌++◌, false, Bool-cases, inl, inr, ◌≤◌, ◌<◌, ltb,
  ◌≡◌, refl, true, List, [], ◌∷◌, none, some, All, arith,
}
use hope_policy_engine.RuleCache.Interface.{RuleCache}
use hope_policy_engine.Tags.Bus.{read_insn}
use hope_policy_engine.Tags.Bus.Lookup.{AllCover}
use hope_policy_engine.Tags.MetaCache.{at, at-canonize}
use hope_policy_engine.Tagging.TagFile.Metadata.{Metadata}
use hope_policy_engine.Tagging.MemoryMap.{MemRegion}
use hope_policy_engine.Tagging.MemoryMap.Ranges.{TaggedWords, iterate}
use hope_policy_engine.Validator.State.{Platform, Outcome, ok, fault, ◌>>=◌}
use hope_policy_engine.Validator.Outcomes.{Ends, Ends-bind, Ends-map}
use hope_policy_engine.Validator.Validate.{Validator}
use hope_policy_engine.Validator.ApplyMetadata.{
  add_bits, canonize_metadata, put_insn, put_words, put_ranges, apply_metadata,
}
use hope_policy_engine.Validator.ApplyMetadata.Words.{
  IsConfiguration, tag_of, Retagged, PaintedSets, Retagged-trans, put_words-Ends,
}

-- A range with a set of tags, whose end leaves the address counter room.
abbrev pub Applies : TaggedWords → Type 0
Applies (range, none) = ⊥
Applies (range, some md) = range.end ≤ 2 ^ 64 - 4

-- `n` words from an address on, each with the metadata
unfoldable pub words_from : ℕ → ℕ → Metadata → List (ℕ × Metadata)
words_from zero start md = []
words_from (suc n) start md = (start, md) ∷ words_from n (start + 4) md

-- The words of ranges, in order: a range has one for every four addresses, and one for the rest.
unfoldable pub words_of : List TaggedWords → List (ℕ × Metadata)
words_of [] = []
words_of ((range, none) ∷ ts) = words_of ts
words_of ((range, some md) ∷ ts) =
    words_from ((range.end - range.start + 3) / 4) range.start md ++ words_of ts

module _ (p : Platform) (c : RuleCache) (ms_bit_add : p.MetaSet → ℕ → p.MetaSet) where
  -- One word after another gets its tag.
  unfoldable pub put_all : List (ℕ × Metadata) → Validator p c → Outcome (Validator p c)
  put_all [] s = ok s
  put_all ((a, md) ∷ ws) s = do s' ← put_insn p c ms_bit_add a (some md) s; put_all ws s'

  put_words-put_all :
      (fuel start end : ℕ) (md : Metadata) (ws : List (ℕ × Metadata)) (s : Validator p c)
      → end ≤ 2 ^ 64 - 4
      → end ≤ start + fuel
      → (put_words p c ms_bit_add fuel start end (some md) s >>= put_all ws)
        ≡ put_all (words_from ((end - start + 3) / 4) start md ++ ws) s
  unfolding put_words words_from put_all
  put_words-put_all zero start end md ws s top enough =
      let out : ltb start end ≡ false = ground arith in
      let none_left : (end - start + 3) / 4 ≡ 0 = omega arith in
      rw (none_left) (rw (out, put_words) refl)
  put_words-put_all (suc fuel) start end md ws s top enough = elim (Bool-cases (ltb start end)) [
    | inr out ↦
        let none_left : (end - start + 3) / 4 ≡ 0 = ground arith in
        rw (none_left) (rw (out, put_words) refl)
    | inl more ↦
        let next : (start + 4) % 2 ^ 64 ≡ start + 4 = ground arith in
        let left : (end - start + 3) / 4 ≡ suc ((end - (start + 4) + 3) / 4) = ground arith in
        rw (left) (
          rw (more, put_words, next)
            (after (put_insn p c ms_bit_add start (some md) s)
              (put_words p c ms_bit_add fuel (start + 4) end (some md))
              (put_all (words_from ((end - (start + 4) + 3) / 4) (start + 4) md ++ ws)) (put_all ws)
              (λ s'. put_words-put_all fuel (start + 4) end md ws s' top (omega arith))))
  ]
    where
      after :
          (m : Outcome (Validator p c)) (f g k : Validator p c → Outcome (Validator p c))
          → ((s' : Validator p c) → (f s' >>= k) ≡ g s')
          → ((m >>= f) >>= k) ≡ (m >>= g)
      after (ok s') f g k same = same s'
      after (fault e) f g k same = refl

  put_ranges-put_all :
      (ts : List TaggedWords) (s : Validator p c)
      → All Applies ts
      → put_ranges p c ms_bit_add ts s ≡ put_all (words_of ts) s
  unfolding put_ranges words_of put_all
  put_ranges-put_all [] s all = refl
  put_ranges-put_all ((range, none) ∷ ts) s (first, all) = absurd first
  put_ranges-put_all ((range, some md) ∷ ts) s (first, all) =
      same_rest
        (put_words p c ms_bit_add (range.end - range.start) range.start range.end (some md) s)
        (λ s'. put_ranges-put_all ts s' all)
      ∙ put_words-put_all (range.end - range.start) range.start range.end md (words_of ts) s first
          (omega arith)
    where
      same_rest :
          (m : Outcome (Validator p c)) {f g : Validator p c → Outcome (Validator p c)}
          → ((s' : Validator p c) → f s' ≡ g s')
          → (m >>= f) ≡ (m >>= g)
      same_rest (ok s') same = same s'
      same_rest (fault e) same = refl

  put_ranges-Ends :
      (ts : List TaggedWords) (s : Validator p c)
      → AllCover s.tag_bus
      → All Applies ts
      → Ends IsConfiguration (Retagged p c ms_bit_add s) (put_ranges p c ms_bit_add ts s)
  unfolding put_ranges
  put_ranges-Ends [] s covers all = record { rest = refl; covers = covers; no_miss = λ h. h }
  put_ranges-Ends ((range, none) ∷ ts) s covers (first, all) = absurd first
  put_ranges-Ends ((range, some md) ∷ ts) s covers (first, all) =
      Ends-bind IsConfiguration (PaintedSets p c ms_bit_add range.start range.end md s)
        (Retagged p c ms_bit_add s)
        (put_words p c ms_bit_add (range.end - range.start) range.start range.end (some md) s)
        (put_ranges p c ms_bit_add ts)
        (put_words-Ends p c ms_bit_add (range.end - range.start) range.start range.end md s covers
          first (omega arith))
        (λ s' (painted, _).
          Ends-map IsConfiguration (Retagged p c ms_bit_add s') (Retagged p c ms_bit_add s)
            (put_ranges p c ms_bit_add ts s')
            (λ s''. Retagged-trans p c ms_bit_add s s' s'' painted.retagged)
            (put_ranges-Ends ts s' painted.retagged.covers all))

  -- For ranges of a map, each with tags and an end of 2 ^ 64 - 4 or below: `apply_metadata` gives every
  -- word of every range, in order, the tag of the metadata of its range. It returns, or a word has no
  -- location in the bus, which is the configuration exception. Only the bus and the metadata sets
  -- change, the vectors still cover their providers, and where no memory location lacked a tag none
  -- does.
  pub apply_metadata-Ends :
      (mrs : List MemRegion) (ts : List TaggedWords) (s : Validator p c)
      → AllCover s.tag_bus
      → iterate mrs ≡ some ts
      → All Applies ts
      → (apply_metadata p c ms_bit_add mrs s ≡ put_all (words_of ts) s)
        × Ends IsConfiguration (Retagged p c ms_bit_add s) (apply_metadata p c ms_bit_add mrs s)
  unfolding apply_metadata
  apply_metadata-Ends mrs ts s covers e all =
      rw (e, apply_metadata) (put_ranges-put_all ts s all, put_ranges-Ends ts s covers all)

  -- Of a range with tags that ends at 2 ^ 64 - 4 or below, every word is left with an instruction tag that
  -- stands for the set of those tags, unless a word has no location in the bus.
  pub put_words-at :
      (start end : ℕ) (md : Metadata) (s : Validator p c)
      → AllCover s.tag_bus
      → end ≤ 2 ^ 64 - 4
      → Ends IsConfiguration
          (λ s'.
            (i : ℕ)
            → start + i * 4 < end
            → (t : ℕ) × (read_insn (start + i * 4) s'.tag_bus ≡ some t)
              × (at ⦃eq = p.meta_set_eq⦄ s'.ms_cache t ≡ some (add_bits p ms_bit_add md p.empty)))
          (put_words p c ms_bit_add (end - start) start end (some md) s)
  unfolding canonize_metadata
  put_words-at start end md s covers top =
      Ends-map IsConfiguration (PaintedSets p c ms_bit_add start end md s) _
        (put_words p c ms_bit_add (end - start) start end (some md) s)
        (λ s' (painted, sets) i l.
          let some_word : ltb start end ≡ true = ground arith in
          (
            tag_of p c ms_bit_add md s,
            painted.words i l,
            rw (sets, some_word)
                (at-canonize ⦃eq = p.meta_set_eq⦄ (add_bits p ms_bit_add md p.empty) s.ms_cache).1,
          ))
        (put_words-Ends p c ms_bit_add (end - start) start end md s covers top (omega arith))
