-- ===== src/Validator/ApplyMetadata.antt =====
-- `apply_metadata` of validator/riscv/rv_validator.cc, and `canonize` of metadata in
-- validator/riscv/meta_cache.cc. `ms_bit_add` comes with the policy, as the metadata sets do.
pub mod Words
pub mod Ranges
use hope_policy_engine.Prelude.{
  ℕ, zero, suc, ◌+◌, ◌-◌, ◌%◌, ◌^◌, ltb, true, false, if◌then◌else◌, List, [], ◌∷◌, Option, none,
  some,
}
use hope_policy_engine.RuleCache.Interface.{RuleCache}
use hope_policy_engine.Tags.Bus.{write_insn}
use hope_policy_engine.Tags.MetaCache.{canonize}
use hope_policy_engine.Tagging.TagFile.Metadata.{Metadata}
use hope_policy_engine.Tagging.MemoryMap.{MemRegion}
use hope_policy_engine.Tagging.MemoryMap.Ranges.{TaggedWords, iterate}
use hope_policy_engine.Validator.State.{
  Platform, Outcome, ok, fault, configuration, null_pointer, out_of_bounds, unfinished, ◌>>=◌,
}
use hope_policy_engine.Validator.Validate.{Validator}

module _ (p : Platform) (ms_bit_add : p.MetaSet → ℕ → p.MetaSet) where
  unfoldable pub add_bits : Metadata → p.MetaSet → p.MetaSet
  add_bits [] ms = ms
  add_bits (e ∷ md) ms = add_bits md (ms_bit_add ms e)

  unfoldable pub canonize_metadata : Metadata → List p.MetaSet → ℕ × List p.MetaSet
  canonize_metadata md sets = canonize ⦃eq = p.meta_set_eq⦄ (add_bits md p.empty) sets

module _ (p : Platform) (c : RuleCache) (ms_bit_add : p.MetaSet → ℕ → p.MetaSet) where
  -- `tag_bus.insn_tag_at(start) = ms_cache.canonize(*metadata)`, and the exception that it becomes
  unfoldable pub put_insn : ℕ → Option Metadata → Validator p c → Outcome (Validator p c)
  put_insn start none s = fault null_pointer
  put_insn start (some md) s =
      let r = canonize_metadata p ms_bit_add md s.ms_cache in
      elim (write_insn start r.0 s.tag_bus) [
        | none ↦ fault configuration
        | some bus ↦ ok (record s { tag_bus = bus; ms_cache = r.1 })
      ]

  -- `for (start = range.start; start < range.end; start += 4)`, on fuel
  unfoldable pub put_words : ℕ → ℕ → ℕ → Option Metadata → Validator p c → Outcome (Validator p c)
  put_words zero start end md s = if ltb start end then fault unfinished else ok s
  put_words (suc fuel) start end md s = elim (ltb start end) [
    | false ↦ ok s
    | true ↦ do s' ← put_insn start md s; put_words fuel ((start + 4) % 2 ^ 64) end md s'
  ]

  -- As many turns as a range has addresses.
  unfoldable pub put_ranges : List TaggedWords → Validator p c → Outcome (Validator p c)
  put_ranges [] s = ok s
  put_ranges ((range, md) ∷ ts) s = do
    s' ← put_words (range.end - range.start) range.start range.end md s
    put_ranges ts s'

  unfoldable pub apply_metadata : List MemRegion → Validator p c → Outcome (Validator p c)
  apply_metadata mrs s = elim (iterate mrs) [
    | none ↦ fault out_of_bounds
    | some ts ↦ put_ranges ts s
  ]
