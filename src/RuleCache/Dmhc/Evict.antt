-- ===== src/RuleCache/Dmhc/Evict.antt =====
-- `evict_mtable_entry` and `real_insert` of validator/rule_cache/dmhc_rule_cache/dmhc.cc.
use hope_policy_engine.Prelude.{
  ℕ, true, false, ◌==◌, if◌then◌else◌, List, map, Option, some, bit_xor, set,
}
use hope_policy_engine.Isa.{Operands, Results}
use hope_policy_engine.RuleCache.Run.{Run, ok, stop, abort, ◌>>=◌}
use hope_policy_engine.RuleCache.Dmhc.State.{
  Dmhc, Slot, Consider, at_index, zero_operands, zero_results,
}
use hope_policy_engine.RuleCache.Dmhc.Cells.{
  xor_cells, release_cells, claim_cells, adjust_cell, cell_at,
}

-- `victim_address`, `victim_ops`, `victim_res` and `consider_evict`
pub record Victim : Type 0 where
  pub address : ℕ
  pub ops : Operands
  pub res : Results
  pub consider : Consider

-- the slot after its eviction
unfoldable pub vacate : Slot → Slot
vacate slot = record slot { use_flag = false; inputs = zero_operands; outputs = zero_results }

-- `if (consider_mtable_input[f][address]) mtable_inputs[address].f = ops.f` for each operand
unfoldable pub merge_inputs : Consider → Operands → Operands → Operands
merge_inputs c ops old = record {
  pc = if c.pc then ops.pc else old.pc;
  ci = if c.ci then ops.ci else old.ci;
  op1 = if c.op1 then ops.op1 else old.op1;
  op2 = if c.op2 then ops.op2 else old.op2;
  op3 = if c.op3 then ops.op3 else old.op3;
  mem = if c.mem then ops.mem else old.mem;
}

module _ (hasher : Operands → List ℕ) where
  unfoldable pub evict_mtable_entry : ℕ → Option (List ℕ) → Dmhc → Run (Victim × Dmhc)
  evict_mtable_entry address spared d = if d.no_evict then stop 100 else do
    slot ← at_index d.mtable address
    rows ← release_cells address 0 d.gtable (hasher slot.inputs) spared
    ok (
      record { address = address; ops = slot.inputs; res = slot.outputs; consider = slot.consider },
      record d { mtable = set d.mtable address (vacate slot); gtable = rows },
    )

-- With the assertion on the free slot.
unfoldable pub real_insert : ℕ → Operands → Results → List ℕ → ℕ → Consider → Dmhc → Run Dmhc
real_insert address ops res hashes free consider d = do
  slot ← at_index d.mtable address
  cell ← cell_at d.gtable hashes free
  if cell.cnt == 0
      then (do
        current ← xor_cells 0 d.gtable hashes
        rows ← adjust_cell (bit_xor current address) d.gtable hashes free
        rows' ← claim_cells address rows hashes
        ok (record d {
          mtable = set d.mtable address (record {
            use_flag = true;
            inputs = merge_inputs consider ops slot.inputs;
            outputs = res;
            consider = consider;
            hashes = map some hashes;
          });
          gtable = rows';
        }))
      else abort
