-- ===== src/RuleCache/Dmhc/Cells.antt =====
-- The loops of `dmhc_t` over its hash tables, validator/rule_cache/dmhc_rule_cache/dmhc.cc: the row `i` is
-- accessed at `hashes[i]`.
use hope_policy_engine.Prelude.{
  ℕ, suc, zero, ◌+◌, ◌-◌, Bool, true, not, ◌||◌, ltb, ◌==◌, if◌then◌else◌, List, [], ◌∷◌, Option,
  none, some, bit_xor, set,
}
use hope_policy_engine.RuleCache.Run.{Run, ok, out_of_bounds, ◌>>=◌}
use hope_policy_engine.RuleCache.Dmhc.State.{
  Cell, Row, at_index, empty_cell, gtable_max_count, invalid_last_user,
}

-- `addr = addr ^ gtable[i][hashes[i]]` for each row
unfoldable pub xor_cells : ℕ → List Row → List ℕ → Run ℕ
xor_cells acc [] hashes = ok acc
xor_cells acc (row ∷ rows) [] = out_of_bounds
xor_cells acc (row ∷ rows) (h ∷ hashes) = do
  cell ← at_index row h
  xor_cells (bit_xor acc cell.value) rows hashes

-- The lowest row whose count is zero. The loop of `insert` counts down and keeps the last.
unfoldable pub free_slot : ℕ → List Row → List ℕ → Run (Option ℕ)
free_slot i [] hashes = ok none
free_slot i (row ∷ rows) [] = out_of_bounds
free_slot i (row ∷ rows) (h ∷ hashes) = do
  cell ← at_index row h
  rest ← free_slot (suc i) rows hashes
  ok (if cell.cnt == 0 then some i else rest)

-- `do_not_victimize` is NULL, or does not name the cell `h` of row `i`.
unfoldable pub may_take : Option (List ℕ) → ℕ → ℕ → Run Bool
may_take none i h = ok true
may_take (some spared) i h = do s ← at_index spared i; ok (not (h == s))

-- `minuse` and `minusers` after a row with `n` users
unfoldable pub smaller : Option (ℕ × ℕ) → ℕ → ℕ → ℕ × ℕ
smaller none i n = (i, n)
smaller (some (j, m)) i n = if ltb n m then (i, n) else (j, m)

-- `minuse` and `minusers` of `insert`: the first row with the smallest count among those that may be
-- taken
unfoldable pub min_use :
    ℕ → Option (ℕ × ℕ) → List Row → List ℕ → Option (List ℕ) → Run (Option (ℕ × ℕ))
min_use i best [] hashes spared = ok best
min_use i best (row ∷ rows) [] spared = out_of_bounds
min_use i best (row ∷ rows) (h ∷ hashes) spared = do
  free ← may_take spared i h
  best' ← if free then (do cell ← at_index row h; ok (some (smaller best i cell.cnt))) else ok best
  min_use (suc i) best' rows hashes spared

-- What the eviction of `address` leaves of a cell of the victim: its count is lowered, but not to zero if
-- the cell is spared.
unfoldable pub release : ℕ → Bool → Cell → Cell
release address free cell =
    let cnt = if free || ltb 1 cell.cnt then cell.cnt - 1 else cell.cnt in
    if cnt == 0 then empty_cell else record cell {
      cnt = cnt;
      lastinsert = if cell.lastinsert == address then invalid_last_user else cell.lastinsert;
    }

-- the loop of `evict_mtable_entry`
unfoldable pub release_cells : ℕ → ℕ → List Row → List ℕ → Option (List ℕ) → Run (List Row)
release_cells address i [] hashes spared = ok []
release_cells address i (row ∷ rows) [] spared = out_of_bounds
release_cells address i (row ∷ rows) (h ∷ hashes) spared = do
  cell ← at_index row h
  free ← may_take spared i h
  rest ← release_cells address (suc i) rows hashes spared
  ok (set row h (release address free cell) ∷ rest)

-- `gtable_cnt[i][hashes[i]]++` up to the largest count, and `gtable_lastinsert`
unfoldable pub claim : ℕ → Cell → Cell
claim address cell = record cell {
  cnt = if cell.cnt == gtable_max_count then cell.cnt else cell.cnt + 1;
  lastinsert = address;
}

-- the second loop of `real_insert`
unfoldable pub claim_cells : ℕ → List Row → List ℕ → Run (List Row)
claim_cells address [] hashes = ok []
claim_cells address (row ∷ rows) [] = out_of_bounds
claim_cells address (row ∷ rows) (h ∷ hashes) = do
  cell ← at_index row h
  rest ← claim_cells address rows hashes
  ok (set row h (claim address cell) ∷ rest)

-- `gtable[i][hashes[i]] ^ difference`, in the row `i`
unfoldable pub adjust_cell : ℕ → List Row → List ℕ → ℕ → Run (List Row)
adjust_cell difference [] hashes i = out_of_bounds
adjust_cell difference (row ∷ rows) [] i = out_of_bounds
adjust_cell difference (row ∷ rows) (h ∷ hashes) zero = do
  cell ← at_index row h
  ok (set row h (record cell { value = bit_xor cell.value difference }) ∷ rows)
adjust_cell difference (row ∷ rows) (h ∷ hashes) (suc i) = do
  rest ← adjust_cell difference rows hashes i
  ok (row ∷ rest)

-- `gtable_cnt[i][hashes[i]]`, and the rest of the cell
unfoldable pub cell_at : List Row → List ℕ → ℕ → Run Cell
cell_at rows hashes i = do row ← at_index rows i; h ← at_index hashes i; at_index row h
