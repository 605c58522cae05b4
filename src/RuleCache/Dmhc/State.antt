-- ===== src/RuleCache/Dmhc/State.antt =====
-- The tables of `dmhc_t`, validator/rule_cache/dmhc_rule_cache/dmhc.h and dmhc.cc, and `reset`. The arrays
-- of one index are one list of records. `next_entry` and the addresses are `int`s that are never
-- negative.
use hope_policy_engine.Prelude.{
  ℕ, ◌*◌, Bool, false, List, [], ◌∷◌, Option, none, some, replicate, get_elem?,
}
use hope_policy_engine.Isa.{Operands, Results}
use hope_policy_engine.RuleCache.Run.{Run, ok, out_of_bounds}

-- `bool consider[OPS_LEN]`: the operands that count
pub record Consider : Type 0 where
  pub pc : Bool
  pub ci : Bool
  pub op1 : Bool
  pub op2 : Bool
  pub op3 : Bool
  pub mem : Bool

-- One entry of `gtable`, `gtable_cnt` and `gtable_lastinsert`.
pub record Cell : Type 0 where
  pub value : ℕ
  pub cnt : ℕ
  pub lastinsert : ℕ

abbrev pub Row : Type 0
Row = List Cell

-- One entry of `mtable_use`, `mtable_inputs`, `mtable_outputs`, `consider_mtable_input` and
-- `mtable_hashes`. A hash of -1 is none.
pub record Slot : Type 0 where
  pub use_flag : Bool
  pub inputs : Operands
  pub outputs : Results
  pub consider : Consider
  pub hashes : List (Option ℕ)

pub record Dmhc : Type 0 where
  pub capacity : ℕ
  pub k : ℕ
  pub c : ℕ
  pub no_evict : Bool
  pub next_entry : ℕ
  pub gtable : List Row
  pub mtable : List Slot
  pub hits : ℕ
  pub misses : ℕ
  pub false_hits : ℕ
  pub direct_conflicts : ℕ
  pub inserts : ℕ

-- `INVALID_LAST_USER`
abbrev pub invalid_last_user : ℕ
invalid_last_user = 0

-- `GTABLE_MAX_COUNT`
abbrev pub gtable_max_count : ℕ
gtable_max_count = 3

abbrev pub empty_cell : Cell
empty_cell = record { value = 0; cnt = 0; lastinsert = invalid_last_user }

abbrev pub zero_operands : Operands
zero_operands = record { pc = 0; ci = 0; op1 = 0; op2 = 0; op3 = 0; mem = 0 }

abbrev pub zero_results : Results
zero_results = record {
  pc = 0;
  rd = 0;
  csr = 0;
  pc_result = false;
  rd_result = false;
  csr_result = false;
}

-- `mtable_use`, the inputs, the outputs and the hashes are cleared; `consider_mtable_input` is not.
unfoldable pub clear_slots : ℕ → List Slot → List Slot
clear_slots k [] = []
clear_slots k (slot ∷ slots) =
    record {
      use_flag = false;
      inputs = zero_operands;
      outputs = zero_results;
      consider = slot.consider;
      hashes = replicate k none;
    }
    ∷ clear_slots k slots

unfoldable pub reset : Dmhc → Dmhc
reset d = record d {
  next_entry = 1;
  gtable = replicate d.k (replicate (d.c * d.capacity) empty_cell);
  mtable = clear_slots d.k d.mtable;
  hits = 0;
  misses = 0;
  false_hits = 0;
  direct_conflicts = 0;
  inserts = 0;
}

-- an unchecked access to an array
abbrev pub at_index : {A : Type 0} → List A → ℕ → Run A
at_index xs i = elim (get_elem? xs i) [ none ↦ out_of_bounds | some x ↦ ok x ]
