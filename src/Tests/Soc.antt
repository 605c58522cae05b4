-- ===== src/Tests/Soc.antt =====
-- A SOC document with a memory and a device.
use Prim.Native.String.{String}
use hope_policy_engine.Prelude.{
  ℕ, ◌+◌, ◌≡◌, refl, inl, inr, true, false, List, [], ◌∷◌, none, some, arith,
}
use hope_policy_engine.RuleCache.Ideal.Laws.{ideal_rule_cache}
use hope_policy_engine.Tags.Bus.{read_data, read_insn}
use hope_policy_engine.Validator.Validate.{Validator}
use hope_policy_engine.Factory.{Factory}
use hope_policy_engine.Factory.Apply.{SameNames}
use hope_policy_engine.Factory.Yaml.{Node, Pairs, scalar, mapping, no_pairs, pair}
use hope_policy_engine.Soc.{
  SocElement, Config, configured, refused, apply, converted, field_or, required, process_element,
  process_elements, read_soc,
}
use hope_policy_engine.Soc.Elements.{tag_of}
use hope_policy_engine.Soc.Reads.{reads-tag_of}
use hope_policy_engine.Soc.Boot.{boot, Booted, boot-Booted}
use hope_policy_engine.Tests.Demo.{demo, start}
use hope_policy_engine.Tests.Factory.{factory, factory-Agrees}

abbrev element : String → ℕ → ℕ → Pairs → Node
element name start end pairs = mapping (
    pair "name" (scalar name none none)
      (pair "start" (scalar "" (some start) none) (pair "end" (scalar "" (some end) none) pairs)))

abbrev nodes : Pairs
nodes =
    pair "memory"
      (element "ISA.RISCV.Reg.Env" 4096 8192
        (pair "heterogeneous" (scalar "true" none (some true)) no_pairs))
      (pair "uart" (element "ISA.RISCV.CSR.Default" 64 128 no_pairs) no_pairs)

abbrev soc : Node
soc = mapping (pair "SOC" (mapping nodes) no_pairs)

abbrev elements : List SocElement
elements =
    record {
      start = 4096;
      end = 8192;
      heterogeneous = true;
      tag_granularity = 4;
      word_size = 4;
      tag = 7;
    }
    ∷ record {
      start = 64;
      end = 128;
      heterogeneous = false;
      tag_granularity = 4;
      word_size = 4;
      tag = 9;
    }
    ∷ []

reads-tag_of_example :
    (read_data 100 (apply elements []) ≡ tag_of 100 elements)
    × (read_insn 100 (apply elements []) ≡ tag_of 100 elements)
reads-tag_of_example =
    reads-tag_of 100 elements (omega arith)
      ((omega arith, omega arith), (inr (omega arith), tt), ((omega arith, omega arith), tt, tt))

abbrev result : Config (Validator demo ideal_rule_cache × Factory)
result = boot demo ideal_rule_cache ◌+◌ 32 soc factory [] start

abbrev booted : Validator demo ideal_rule_cache × Factory
booted = elim result [ configured r ↦ r | refused e ↦ (start, factory) ]

boots : result ≡ configured booted
unfolding boot read_soc converted process_elements process_element required field_or
boots = refl

boot-Booted_example :
    Booted demo ideal_rule_cache ◌+◌ nodes factory booted.0 × SameNames factory booted.1
boot-Booted_example =
    boot-Booted demo ideal_rule_cache ◌+◌ 32 soc nodes factory [] start booted (inl refl)
      factory-Agrees refl boots
