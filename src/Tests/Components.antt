-- ===== src/Tests/Components.antt =====
-- The decoder, the rule caches and the tags at concrete inputs.
use hope_policy_engine.Prelude.{
  ℕ, ◌<◌, ◌≤◌, ◌≡◌, refl, true, false, inl, [], ◌∷◌, ◌++◌, List, none, some, length, ◌⊎◌, ==_iff,
  ◌==◌, arith,
}
use hope_policy_engine.Isa.{Operands, Results, DecodedInstruction}
use hope_policy_engine.Decoder.Decode.{decode}
use hope_policy_engine.Decoder.Range.{InRange}
use hope_policy_engine.Decoder.Range.Decode.{decode-InRange}
use hope_policy_engine.RuleCache.Table.{Eq, find}
use hope_policy_engine.RuleCache.Keys.{operands_key}
use hope_policy_engine.RuleCache.Ideal
use hope_policy_engine.RuleCache.Ideal.{Call, install, clear, latest, allow-run}
use hope_policy_engine.RuleCache.Finite
use hope_policy_engine.RuleCache.Finite.Ring.{Rules}
use hope_policy_engine.RuleCache.Finite.Offers.{offers, window, offers_lem}
use hope_policy_engine.Tagging.RangeMap.{
  RangeMap, add_range, get_tags, first_at, extended, get_tags-add_range,
}
use hope_policy_engine.Tagging.Uleb.{read_uleb, write_uleb, write_from}
use hope_policy_engine.Tagging.Uleb.RoundTrip.{read_uleb-write_uleb}
use hope_policy_engine.Tags.Provider.{uniform, ram}
use hope_policy_engine.Tags.Bus.{Bus, get_provider, read_data, write_data}
use hope_policy_engine.Tags.Bus.Lookup.{AllCover, IsProviderOf, build, get_provider-build}
use hope_policy_engine.Tags.Bus.Writes.{read_data-write_data}
use hope_policy_engine.Tags.MetaCache.{canonize, at, at-canonize}

abbrev query : Operands
query = record { pc = 1; ci = 2; op1 = 3; op2 = 0; op3 = 0; mem = 0 }

abbrev results : Results
results = record {
  pc = 1;
  rd = 9;
  csr = 0;
  pc_result = false;
  rd_result = true;
  csr_result = false;
}

abbrev bus : Bus
bus = record { start = 0; provider = ram 8 4 4 (7 ∷ 8 ∷ 9 ∷ []) } ∷ []

abbrev sets : List ℕ
sets = 4 ∷ []

instance abbrev key_ℕ : Eq ℕ
key_ℕ = record { beq = ◌==◌; beq_iff = ==_iff }

decode-InRange_example : (d : DecodedInstruction) × (decode 0x003100b3 32 ≡ some d) × InRange d
decode-InRange_example = decode-InRange 0x003100b3 32 (inl refl)

allow-run_example :
    Ideal.allow query (Ideal.run (install query results ∷ []) Ideal.init)
    ≡ latest (install query results ∷ []) query none
allow-run_example = allow-run (install query results ∷ []) query

abbrev one_rule : Rules
one_rule = (query, results) ∷ []

offers_lem_example :
    ((q : Operands)
      → Finite.allow q (offers one_rule (Finite.init 1)) ≡ find q (window 1 one_rule []))
    × (length (offers one_rule (Finite.init 1)).rule_cache_table ≤ 1)
    × ((offers one_rule (Finite.init 1)).internal_errors ≡ 0)
offers_lem_example = offers_lem 1 one_rule (omega arith)

get_provider-build_example :
    IsProviderOf 20
      ((0, uniform 8 1 4) ∷ (16, uniform 8 2 4) ∷ [])
      (get_provider 20 (build ((0, uniform 8 1 4) ∷ (16, uniform 8 2 4) ∷ [])))
get_provider-build_example =
    get_provider-build 20 ((0, uniform 8 1 4) ∷ (16, uniform 8 2 4) ∷ []) (omega arith)
      (omega arith, (omega arith, tt))

read_data-write_data_example :
    ((read_data 4 bus ≡ none) × (write_data 4 5 bus ≡ none))
    ⊎ ((old : ℕ) × (bus' : Bus) × (read_data 4 bus ≡ some old)
        × (write_data 4 5 bus ≡ some bus')
        × (read_data 4 bus' ≡ some 5)
        × AllCover bus')
read_data-write_data_example = read_data-write_data 4 5 bus (omega arith, tt)

at-canonize_example :
    (0 < (canonize {M = ℕ} 5 sets).0)
    × (at (canonize {M = ℕ} 5 sets).1 (canonize {M = ℕ} 5 sets).0 ≡ some 5)
    × ((t : ℕ) (m : ℕ) → at sets t ≡ some m → at (canonize {M = ℕ} 5 sets).1 t ≡ some m)
at-canonize_example = at-canonize 5 sets

abbrev ranges : RangeMap
ranges = record { range = record { start = 0; end = 8 }; tags = "a" ∷ [] } ∷ []

get_tags-add_range_example :
    get_tags 4 (add_range (record { start = 0; end = 8 }) ("b" ∷ []) ranges)
    ≡ extended (record { start = 0; end = 8 }) ("b" ∷ []) 4 (first_at 4 ranges)
get_tags-add_range_example = get_tags-add_range 4 (record { start = 0; end = 8 }) ("b" ∷ []) ranges

read_uleb-write_uleb_example :
    read_uleb 64 (write_uleb 300 ++ 5 ∷ []) ≡ some (300, length (write_uleb 300), 5 ∷ [])
read_uleb-write_uleb_example = read_uleb-write_uleb 64 300 (5 ∷ []) (omega arith)

-- 300 takes two bytes.
two_bytes : write_uleb 300 ≡ 172 ∷ 2 ∷ []
unfolding write_uleb write_from
two_bytes = refl
