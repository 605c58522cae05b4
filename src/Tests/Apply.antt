-- ===== src/Tests/Apply.antt =====
-- Metadata of two ranges of one region, applied to the small machine.
use hope_policy_engine.Prelude.{ℕ, ◌+◌, ◌*◌, ◌<◌, ◌≡◌, refl, List, [], ◌∷◌, some, arith, ◌-◌}
use hope_policy_engine.RuleCache.Ideal.Laws.{ideal_rule_cache}
use hope_policy_engine.Tags.Bus.{read_insn}
use hope_policy_engine.Tags.MetaCache.{at}
use hope_policy_engine.Tagging.MemoryMap.{MemRegion, get_metadata}
use hope_policy_engine.Tagging.MemoryMap.Region.{region}
use hope_policy_engine.Tagging.MemoryMap.Ranges.{
  TaggedWords, index_to_addr, ranges_from, ranges_of, iterate, tags_in,
}
use hope_policy_engine.Tagging.IndexMap.{metadata_eq}
use hope_policy_engine.Tagging.MemoryMap.Ranges.Regions.{iterate-get_metadata}
use hope_policy_engine.Validator.Outcomes.{Ends}
use hope_policy_engine.Validator.ApplyMetadata.{add_bits, put_words, apply_metadata}
use hope_policy_engine.Validator.ApplyMetadata.Words.{IsConfiguration, Retagged}
use hope_policy_engine.Validator.ApplyMetadata.Ranges.{
  put_all, words_of, apply_metadata-Ends, put_words-at,
}
use hope_policy_engine.Tests.Demo.{demo, start}

abbrev three_words : List MemRegion
three_words = region 2 (some (5 ∷ []) ∷ some (5 ∷ []) ∷ some (6 ∷ []) ∷ []) ∷ []

abbrev two_ranges : List TaggedWords
two_ranges =
    (record { start = 8; end = 16 }, some (5 ∷ []))
    ∷ (record { start = 16; end = 20 }, some (6 ∷ []))
    ∷ []

two_ranges_lem : iterate three_words ≡ some two_ranges
unfolding index_to_addr ranges_from ranges_of iterate metadata_eq
two_ranges_lem = refl

iterate-get_metadata_example :
    (ts : List TaggedWords) × (iterate three_words ≡ some ts)
    × ((addr : ℕ) → get_metadata addr three_words ≡ some (tags_in addr ts))
iterate-get_metadata_example = iterate-get_metadata three_words ((omega arith, refl), tt)

apply_metadata-Ends_example :
    (apply_metadata demo ideal_rule_cache ◌+◌ three_words start
      ≡ put_all demo ideal_rule_cache ◌+◌ (words_of two_ranges) start)
    × Ends IsConfiguration
        (Retagged demo ideal_rule_cache ◌+◌ start)
        (apply_metadata demo ideal_rule_cache ◌+◌ three_words start)
apply_metadata-Ends_example =
    apply_metadata-Ends demo ideal_rule_cache ◌+◌ three_words two_ranges start (omega arith, tt)
      two_ranges_lem (omega arith, (omega arith, tt))

put_words-at_example :
    Ends IsConfiguration
      (λ s'.
        (i : ℕ)
        → 8 + i * 4 < 16
        → (t : ℕ) × (read_insn (8 + i * 4) s'.tag_bus ≡ some t)
          × (at ⦃eq = demo.meta_set_eq⦄ s'.ms_cache t
              ≡ some (add_bits demo ◌+◌ (5 ∷ []) demo.empty)))
      (put_words demo ideal_rule_cache ◌+◌ (16 - 8) 8 16 (some (5 ∷ [])) start)
put_words-at_example =
    put_words-at demo ideal_rule_cache ◌+◌ 8 16 (5 ∷ []) start (omega arith, tt) (omega arith)
