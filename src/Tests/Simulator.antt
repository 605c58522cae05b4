-- ===== src/Tests/Simulator.antt =====
-- A simulation on the small machine: an addition, its commit, a store, a flush and a program counter out
-- of range.
use hope_policy_engine.Prelude.{
  ℕ, ◌^◌, ◌≡◌, refl, false, inl, List, [], ◌∷◌, some, All, length, replicate, arith,
}
use hope_policy_engine.Tags.Bus.NoMiss.{IsTag}
use hope_policy_engine.RuleCache.Table.{find}
use hope_policy_engine.RuleCache.Ideal.Laws.{ideal_rule_cache}
use hope_policy_engine.Validator.State.{ok}
use hope_policy_engine.Validator.Validate.{Validator}
use hope_policy_engine.Validator.Outcomes.{Ends, Never}
use hope_policy_engine.Validator.Live.{NamesTags, Answers, Live}
use hope_policy_engine.Simulator.{
  Simulator, Call, validates, validates_cached, commits, flushes, watches_reg, calls,
}
use hope_policy_engine.Simulator.Stopped.{AllRefused, out_of_range-stops}
use hope_policy_engine.Simulator.Progress.{IsLive, calls-return}
use hope_policy_engine.Tests.Demo.{demo, registers, add_word, store_word, start}

abbrev begun : Validator demo ideal_rule_cache
begun = record start { res = record start.res { rd = 1 } }

begun-Live : Live demo ideal_rule_cache begun
unfolding find
begun-Live = record {
  width = inl refl;
  regs_length = refl;
  csrs_length = refl;
  covers = (omega arith, tt);
  rd_below = λ e. absurd (cc e);
  csr_below = λ e. absurd (cc e);
  no_miss = (tags, tt);
  res_tagged = ground arith;
  cache_tagged = λ q r e. absurd (cc e);
}
  where
    tags : All IsTag (replicate 17 7)
    tags = ground arith

demo-NamesTags : NamesTags demo
demo-NamesTags ctx q r h = ground arith

ideal-Answers : Answers Never ideal_rule_cache
ideal-Answers = record { allows = λ q t. refl; installs = λ q r t. refl }

abbrev simulation : List (Call demo ideal_rule_cache)
simulation =
    watches_reg 1
    ∷ validates registers 0 add_word
    ∷ commits
    ∷ flushes
    ∷ validates_cached registers 4 store_word 16
    ∷ commits
    ∷ validates registers (2 ^ 32) add_word
    ∷ []

abbrev simulator : Simulator demo ideal_rule_cache
simulator = record { rv_validator = some begun; doa = false }

calls-return_example :
    (s : Simulator demo ideal_rule_cache) × (results : List ℕ) × (calls demo ideal_rule_cache
        simulation simulator
      ≡ ok (s, results))
    × (length results ≡ 7)
    × IsLive demo ideal_rule_cache s
calls-return_example =
    calls-return demo ideal_rule_cache ideal-Answers demo-NamesTags simulation simulator begun-Live

out_of_range-stops_example :
    Ends Never
      (AllRefused demo ideal_rule_cache begun)
      (calls demo ideal_rule_cache (validates registers (2 ^ 32) add_word ∷ simulation) simulator)
out_of_range-stops_example =
    out_of_range-stops demo ideal_rule_cache registers (2 ^ 32) add_word simulation begun false
      (omega arith)
