-- ===== src/Tags/Bus.antt =====
-- `tag_bus_t` of validator/include/tag_utils.h: the providers under the negated start addresses. The map
-- is ordered by signed keys; `key` adds 2 ^ 63, so that the order is that of the numbers.
pub mod Lookup
pub mod Writes
pub mod NoMiss
pub mod InsnWrites
use hope_policy_engine.Prelude.{
  ℕ, ◌+◌, ◌-◌, ◌%◌, ◌^◌, ltb, leb, if◌then◌else◌, ◌==◌, List, [], ◌∷◌, Option, none, some,
}
use hope_policy_engine.Tags.Provider.{Provider, data_cell, insn_cell, load, store}

pub record Entry : Type 0 where
  pub start : ℕ
  pub provider : Provider

abbrev pub Bus : Type 0
Bus = List Entry

-- `-addr` as an `int64_t`, plus 2 ^ 63
abbrev pub key : ℕ → ℕ
key addr = (2 ^ 64 - addr + 2 ^ 63) % 2 ^ 64

-- `provider_map[-start_addr] = provider`, with the map kept in the order of its keys
unfoldable pub add_provider : ℕ → Provider → Bus → Bus
add_provider start p [] = record { start = start; provider = p } ∷ []
add_provider start p (e ∷ bus) =
    if key start == key e.start
    then record { start = start; provider = p } ∷ bus
    else if ltb (key start) (key e.start)
    then record { start = start; provider = p } ∷ e ∷ bus
    else e ∷ add_provider start p bus

-- `lower_bound(-addr)`: the first key that is not less
unfoldable pub get_provider : ℕ → Bus → Option Entry
get_provider addr [] = none
get_provider addr (e ∷ bus) = if leb (key addr) (key e.start) then some e else get_provider addr bus

-- `addr - -base`, on 64 bits
abbrev pub offset : ℕ → ℕ → ℕ
offset addr start = (addr + 2 ^ 64 - start) % 2 ^ 64

-- the location that `data_tag_at` returns: its provider and the index there
unfoldable pub data_tag_at : ℕ → Bus → Option (Entry × ℕ)
data_tag_at addr bus = elim (get_provider addr bus) [
  | none ↦ none
  | some e ↦ elim (data_cell e.provider (offset addr e.start)) [
    | none ↦ none
    | some i ↦ some (e, i)
  ]
]

unfoldable pub insn_tag_at : ℕ → Bus → Option (Entry × ℕ)
insn_tag_at addr bus = elim (get_provider addr bus) [
  | none ↦ none
  | some e ↦ elim (insn_cell e.provider (offset addr e.start)) [
    | none ↦ none
    | some i ↦ some (e, i)
  ]
]

-- reading through the location
unfoldable pub read_data : ℕ → Bus → Option ℕ
read_data addr bus = elim (data_tag_at addr bus) [ none ↦ none | some l ↦ load l.0.provider l.1 ]

unfoldable pub read_insn : ℕ → Bus → Option ℕ
read_insn addr bus = elim (insn_tag_at addr bus) [ none ↦ none | some l ↦ load l.0.provider l.1 ]

-- the provider under a start address, written in place
unfoldable pub put_provider : ℕ → Provider → Bus → Bus
put_provider start p [] = []
put_provider start p (e ∷ bus) =
    if e.start == start then record e { provider = p } ∷ bus else e ∷ put_provider start p bus

-- `tag_bus.data_tag_at(addr) = tag`
unfoldable pub write_data : ℕ → ℕ → Bus → Option Bus
write_data addr tag bus = elim (data_tag_at addr bus) [
  | none ↦ none
  | some l ↦ some (put_provider l.0.start (store l.0.provider l.1 tag) bus)
]

-- `tag_bus.insn_tag_at(addr) = tag`
unfoldable pub write_insn : ℕ → ℕ → Bus → Option Bus
write_insn addr tag bus = elim (insn_tag_at addr bus) [
  | none ↦ none
  | some l ↦ some (put_provider l.0.start (store l.0.provider l.1 tag) bus)
]
