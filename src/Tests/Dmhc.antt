-- ===== src/Tests/Dmhc.antt =====
-- A hashed rule cache with two hash tables of four cells, for two rules.
use hope_policy_engine.Prelude.{
  ℕ, ◌^◌, ◌+◌, ◌%◌, ◌≡◌, refl, true, false, List, [], ◌∷◌, none, some, replicate, arith,
}
use hope_policy_engine.Isa.{Operands, Results}
use hope_policy_engine.RuleCache.Run.{Run, ok, stop, abort, out_of_bounds}
use hope_policy_engine.RuleCache.Dmhc.State.{
  Dmhc, Slot, Consider, at_index, empty_cell, zero_operands, zero_results, clear_slots, reset,
}
use hope_policy_engine.RuleCache.Dmhc.Lookup.{lookup, hit_slot, any_zero}
use hope_policy_engine.RuleCache.Dmhc.Cells.{
  xor_cells, free_slot, cell_at, adjust_cell, claim_cells, claim,
}
use hope_policy_engine.RuleCache.Dmhc.Evict.{real_insert, merge_inputs}
use hope_policy_engine.RuleCache.Keys.{results_eq}
use hope_policy_engine.RuleCache.Dmhc.Insert.{insert, conflicts, insert_hops, place}
use hope_policy_engine.RuleCache.Dmhc.Cache.{DmhcRuleCache, considered, allow, install_rule, flush}
use hope_policy_engine.RuleCache.Dmhc.Fit.{Ends, HashesIn}
use hope_policy_engine.RuleCache.Dmhc.Hash.{
  compute_hash_set, convert_to_bit_fields, bits_of, compute_hashes_of, compute_hash, permute,
  follow, one_wide, fold, log2, log2_from, fold_fields, fold_field, take_bits, min,
}
use hope_policy_engine.RuleCache.Dmhc.HashBounds.{compute_hash_set-HashesIn}
use hope_policy_engine.RuleCache.Dmhc.Safe.{Wf, reset-Wf}
use hope_policy_engine.RuleCache.Dmhc.SafeInsert.{insert-Wf}
use hope_policy_engine.RuleCache.Dmhc.Hit.{Counted, Answers, lookup-real_insert, lookup-hit}
use hope_policy_engine.RuleCache.Dmhc.Stores.{allow-install_rule}
use hope_policy_engine.RuleCache.Dmhc.Fresh.{allow-flush}

abbrev hasher : Operands → List ℕ
hasher ops = (ops.pc % 4) ∷ (ops.ci % 4) ∷ []

bounded : (ops : Operands) → HashesIn 1 4 2 (hasher ops)
bounded ops = (refl, (omega arith, (omega arith, tt)))

abbrev never : Consider
never = record { pc = false; ci = false; op1 = false; op2 = false; op3 = false; mem = false }

abbrev unused : Slot
unused = record {
  use_flag = false;
  inputs = zero_operands;
  outputs = zero_results;
  consider = never;
  hashes = none ∷ none ∷ [];
}

abbrev two_rules : Dmhc
two_rules = record {
  capacity = 2;
  k = 2;
  c = 2;
  no_evict = false;
  next_entry = 1;
  gtable = replicate 2 (replicate 4 empty_cell);
  mtable = unused ∷ unused ∷ [];
  hits = 0;
  misses = 0;
  false_hits = 0;
  direct_conflicts = 0;
  inserts = 0;
}

abbrev store_ops : Operands
store_ops = record { pc = 6; ci = 9; op1 = 3; op2 = 0; op3 = 0; mem = 4 }

abbrev store_results : Results
store_results = record {
  pc = 6;
  rd = 12;
  csr = 0;
  pc_result = true;
  rd_result = true;
  csr_result = false;
}

abbrev or_else : {A : Type 0} → A → Run A → A
or_else d (ok a) = a
or_else d (stop n) = d
or_else d abort = d
or_else d out_of_bounds = d

abbrev rule_cache : DmhcRuleCache
rule_cache = record {
  ops_copy = zero_operands;
  res_copy = zero_results;
  consider = considered zero_operands;
  the_rule_cache = two_rules;
}

abbrev after_miss : DmhcRuleCache
after_miss = (or_else (none, rule_cache) (allow hasher store_ops rule_cache)).1

abbrev after_install : DmhcRuleCache
after_install = or_else rule_cache (install_rule hasher store_ops store_results after_miss)

abbrev after_hit : DmhcRuleCache
after_hit = (or_else (none, rule_cache) (allow hasher store_ops after_install)).1

missed : allow hasher store_ops rule_cache ≡ ok (none, after_miss)
unfolding allow lookup any_zero
missed = refl

installed : install_rule hasher store_ops store_results after_miss ≡ ok after_install
unfolding allow lookup any_zero install_rule insert conflicts insert_hops place free_slot
    real_insert cell_at xor_cells adjust_cell claim_cells claim merge_inputs hit_slot results_eq
    considered
installed = refl

fresh-Wf : Wf 1 4 2 (reset two_rules)
fresh-Wf = reset-Wf 1 4 2 two_rules (omega arith) refl refl refl refl

-- no rule is stored, so the first entry is not used
abbrev fresh_rule_cache : DmhcRuleCache
fresh_rule_cache = record rule_cache { the_rule_cache = reset two_rules }

missing : any_zero fresh_rule_cache.the_rule_cache.gtable (hasher store_ops) ≡ ok true
unfolding any_zero reset
missing = refl

first_entry :
    (slot : Slot) × (at_index fresh_rule_cache.the_rule_cache.mtable
        fresh_rule_cache.the_rule_cache.next_entry
      ≡ ok slot)
    × (slot.use_flag ≡ false)
unfolding reset clear_slots
first_entry = (_, refl, refl)

allow-install_rule_example :
    (before : DmhcRuleCache) × (installed : DmhcRuleCache) × (after : DmhcRuleCache) × (allow hasher
        store_ops fresh_rule_cache
      ≡ ok (none, before))
    × (install_rule hasher store_ops store_results before ≡ ok installed)
    × (allow hasher store_ops installed ≡ ok (some store_results, after))
allow-install_rule_example =
    allow-install_rule 1 4 2 hasher bounded store_ops store_results fresh_rule_cache first_entry.0
      (omega arith) fresh-Wf first_entry.1 first_entry.2 missing

allow-flush_example :
    (after : DmhcRuleCache) × (allow hasher store_ops (flush rule_cache) ≡ ok (none, after))
allow-flush_example =
    allow-flush hasher store_ops rule_cache (omega arith) refl (omega arith, (omega arith, tt))

insert-Wf_example :
    Ends (Wf 1 4 2) (insert hasher store_ops store_results (considered store_ops) (reset two_rules))
insert-Wf_example =
    insert-Wf 1 4 2 hasher bounded store_ops store_results (considered store_ops) (reset two_rules)
      (omega arith) (omega arith) fresh-Wf

abbrev stored : Dmhc
stored =
    or_else two_rules
      (real_insert 1 store_ops store_results (hasher store_ops) 0 (considered store_ops) two_rules)

stores :
    real_insert 1 store_ops store_results (hasher store_ops) 0 (considered store_ops) two_rules
    ≡ ok stored
unfolding real_insert cell_at xor_cells adjust_cell claim_cells claim merge_inputs considered
stores = refl

lookup-real_insert_example :
    lookup hasher store_ops (considered store_ops) stored
    ≡ ok (some store_results, record stored { hits = stored.hits + 1 })
lookup-real_insert_example =
    lookup-real_insert hasher 1 store_ops store_results 0 (considered store_ops) two_rules stores

stored_again :
    lookup hasher store_ops (considered store_ops) after_install.the_rule_cache
    ≡ ok (some store_results, after_hit.the_rule_cache)
unfolding allow lookup any_zero install_rule insert conflicts insert_hops place free_slot
    real_insert cell_at xor_cells adjust_cell claim_cells claim merge_inputs hit_slot results_eq
    considered
stored_again = refl

lookup-hit_example :
    (addr : ℕ) × (slot : Slot) × Counted after_install.the_rule_cache.gtable (hasher store_ops)
    × (xor_cells 0 after_install.the_rule_cache.gtable (hasher store_ops) ≡ ok addr)
    × (at_index after_install.the_rule_cache.mtable addr ≡ ok slot)
    × Answers store_ops (considered store_ops) slot
    × (slot.outputs ≡ store_results)
    × (after_hit.the_rule_cache
        ≡ record after_install.the_rule_cache { hits = after_install.the_rule_cache.hits + 1 })
lookup-hit_example =
    lookup-hit hasher store_ops (considered store_ops) after_install.the_rule_cache stored_again

-- two permutations of six bits
abbrev perms : List (List ℕ)
perms = (5 ∷ 4 ∷ 3 ∷ 2 ∷ 1 ∷ 0 ∷ []) ∷ (6 ∷ 0 ∷ 1 ∷ 2 ∷ 3 ∷ 4 ∷ 5 ∷ []) ∷ []

computed : compute_hash_set perms 1 store_ops (2 ^ 2) ≡ some (3 ∷ 3 ∷ [])
unfolding compute_hash_set convert_to_bit_fields bits_of compute_hashes_of compute_hash permute
    follow one_wide fold log2 log2_from fold_fields fold_field take_bits min
computed = refl

compute_hash_set-HashesIn_example : HashesIn 1 4 2 (3 ∷ 3 ∷ [])
compute_hash_set-HashesIn_example =
    compute_hash_set-HashesIn 1 2 perms 1 store_ops (omega arith) computed
