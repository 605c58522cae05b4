-- ===== src/Tests/Symbols.antt =====
-- A table of two symbols.
use hope_policy_engine.Prelude.{◌≡◌, refl, true, false, List, [], ◌∷◌, some, none, arith}
use hope_policy_engine.RuleCache.Table.{find, put}
use hope_policy_engine.Tagging.SymbolTable.{
  Symbol, new, put_address, push_back, first_from, first_above, lower_bound, address_at,
  find_nearest, find_reported, zero_size_error,
}
use hope_policy_engine.Tagging.SymbolTable.Nearest.{table_of, NotBelow, find_nearest-lower_bound}

abbrev symbols : List Symbol
symbols =
    record { name = "main"; address = 4096; size = 16 }
    ∷ record { name = "_end"; address = 8192; size = 0 }
    ∷ []

find_nearest-lower_bound_example :
    (find_nearest 4100 (table_of symbols new) ≡ lower_bound 4100 (table_of symbols new))
    × NotBelow 4100 (table_of symbols new).sym_list (find_nearest 4100 (table_of symbols new))
find_nearest-lower_bound_example =
    find_nearest-lower_bound 4100 symbols (omega arith) (omega arith, (omega arith, tt))

nearest_end : find_nearest 4100 (table_of symbols new) ≡ some 1
unfolding find_nearest first_from first_above address_at table_of push_back put_address
nearest_end = refl

size_missing :
    find_reported "_end" true false (table_of symbols new) ≡ (none, zero_size_error "_end" ∷ [])
unfolding find_reported table_of push_back put find
size_missing = refl
