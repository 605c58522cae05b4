-- ===== src/RuleCache/Dmhc/Lookup.antt =====
-- `hit` and `lookup` of validator/rule_cache/dmhc_rule_cache/dmhc.cc. `hasher` stands for
-- `compute_hashes`.
use hope_policy_engine.Prelude.{
  ℕ, ◌+◌, Bool, true, false, not, ◌&&◌, ◌||◌, ◌==◌, if◌then◌else◌, List, [], ◌∷◌, Option, none,
  some,
}
use hope_policy_engine.Isa.{Operands, Results}
use hope_policy_engine.RuleCache.Run.{Run, ok, out_of_bounds, ◌>>=◌}
use hope_policy_engine.RuleCache.Dmhc.State.{Dmhc, Slot, Row, Consider, at_index}
use hope_policy_engine.RuleCache.Dmhc.Cells.{xor_cells}

-- `consider[i] && mtable_inputs[address].f != ops.f` does not hold
abbrev pub agrees : Bool → ℕ → ℕ → Bool
agrees c stored queried = not c || stored == queried

unfoldable pub hit_slot : Operands → Slot → Consider → Bool
hit_slot ops slot c =
    slot.use_flag
    && agrees c.pc slot.inputs.pc ops.pc
    && agrees c.ci slot.inputs.ci ops.ci
    && agrees c.op1 slot.inputs.op1 ops.op1
    && agrees c.op2 slot.inputs.op2 ops.op2
    && agrees c.op3 slot.inputs.op3 ops.op3
    && agrees c.mem slot.inputs.mem ops.mem

-- Some count is zero. The loop of `lookup` stops at the first.
unfoldable pub any_zero : List Row → List ℕ → Run Bool
any_zero [] hashes = ok false
any_zero (row ∷ rows) [] = out_of_bounds
any_zero (row ∷ rows) (h ∷ hashes) = do
  cell ← at_index row h
  let rest = any_zero rows hashes
  if cell.cnt == 0 then ok true else rest

module _ (hasher : Operands → List ℕ) where
  -- the results on a hit, and the counted statistics
  unfoldable pub lookup : Operands → Consider → Dmhc → Run (Option Results × Dmhc)
  lookup ops consider d = do
    let hashes = hasher ops
    missing ← any_zero d.gtable hashes
    if missing then ok (none, record d { misses = d.misses + 1 }) else do
      addr ← xor_cells 0 d.gtable hashes
      slot ← at_index d.mtable addr
      if hit_slot ops slot consider
          then ok (some slot.outputs, record d { hits = d.hits + 1 })
          else ok (none, record d { false_hits = d.false_hits + 1 })
