-- ===== src/Tagging/SymbolTable.antt =====
-- `symbol_table_t` of tagging_tools/symbol_table.h and symbol_table.cc, with iterators as indexes, of which
-- `none` is `end()`. What ELF files say of a symbol beside its name, address and size is left out.
pub mod Nearest
use Prim.Native.String.{String}
use hope_policy_engine.Prelude.{
  Bool, ℕ, zero, suc, ◌+◌, ◌-◌, ◌%◌, ◌^◌, ◌<◌, ◌≤◌, ltb, leb, ◌==◌, true, false, if◌then◌else◌, ◌≡◌,
  ◌∙◌, refl, sym, ap, subst, List, [], ◌∷◌, ◌++◌, length, get_elem?, Option, none, some, All, arith,
  Bool-cases, Option-cases, inl, inr,
}
use hope_policy_engine.RuleCache.Table.{Table, find, put}
use hope_policy_engine.Factory.{name_key}

pub record Symbol : Type 0 where
  pub name : String
  pub address : ℕ
  pub size : ℕ

pub record SymbolTable : Type 0 where
  pub sym_list : List Symbol
  pub addr_map : Table ℕ ℕ
  pub name_map : Table String ℕ

abbrev pub new : SymbolTable
new = record { sym_list = []; addr_map = []; name_map = [] }

-- `addr_map[address] = i`, in the order of the addresses
unfoldable pub put_address : ℕ → ℕ → Table ℕ ℕ → Table ℕ ℕ
put_address address i [] = (address, i) ∷ []
put_address address i ((k, j) ∷ t) =
    let rest = put_address address i t in
    if address == k
    then (k, i) ∷ t
    else if ltb address k
    then (address, i) ∷ (k, j) ∷ t
    else (k, j) ∷ rest

unfoldable pub push_back : Symbol → SymbolTable → SymbolTable
push_back s t = record {
  sym_list = t.sym_list ++ (s ∷ []);
  addr_map = put_address s.address (length t.sym_list) t.addr_map;
  name_map = put s.name (length t.sym_list) t.name_map;
}

unfoldable pub first_from : ℕ → Table ℕ ℕ → Option ℕ
first_from addr [] = none
first_from addr ((k, i) ∷ t) = let rest = first_from addr t in if leb addr k then some i else rest

unfoldable pub first_above : ℕ → Table ℕ ℕ → Option ℕ
first_above addr [] = none
first_above addr ((k, i) ∷ t) = let rest = first_above addr t in if ltb addr k then some i else rest

abbrev pub lower_bound : ℕ → SymbolTable → Option ℕ
lower_bound addr t = first_from addr t.addr_map

abbrev pub upper_bound : ℕ → SymbolTable → Option ℕ
upper_bound addr t = first_above addr t.addr_map

-- the address of the symbol at an index, 0 where there is none
unfoldable pub address_at : List Symbol → ℕ → ℕ
address_at ss i = elim (get_elem? ss i) [ none ↦ 0 | some s ↦ s.address ]

unfoldable pub find_nearest : ℕ → SymbolTable → Option ℕ
find_nearest addr t = elim (lower_bound addr t) [
  | none ↦ upper_bound addr t
  | some low ↦ elim (upper_bound addr t) [
    | none ↦ some low
    | some high ↦
        if ltb ((addr + 2 ^ 64 - address_at t.sym_list low) % 2 ^ 64)
          ((address_at t.sym_list high + 2 ^ 64 - addr) % 2 ^ 64)
        then some low
        else some high
  ]
]

-- what is reported of a symbol
pub data Report : Type 0 where
  zero_size_warning : String → Report
  zero_size_error : String → Report
  not_found_error : String → Report

abbrev pub size_at : List Symbol → ℕ → ℕ
size_at ss i = elim (get_elem? ss i) [ none ↦ 0 | some s ↦ s.size ]

abbrev pub find_name : String → SymbolTable → Option ℕ
find_name name t = find name t.name_map

-- `find` with the reports
unfoldable pub find_reported : String → Bool → Bool → SymbolTable → Option ℕ × List Report
find_reported name needs_size optional t = elim (find_name name t) [
  | none ↦ (none, if optional then [] else not_found_error name ∷ [])
  | some i ↦
      if needs_size
      then (if size_at t.sym_list i == 0
          then (if optional
              then (some i, zero_size_warning name ∷ [])
              else (none, zero_size_error name ∷ []))
          else (some i, []))
      else (some i, [])
]
