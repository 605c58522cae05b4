-- ===== src/Tags/Provider.antt =====
-- The tag providers of validator/include/tag_utils.h. A `tag_t&` is a location: it is read by `load` and
-- written by `store`. The exception `std::out_of_range` is `none`.
pub mod Laws
use hope_policy_engine.Prelude.{
  ℕ, ◌+◌, ◌-◌, ◌/◌, ◌%◌, ◌^◌, Bool, ltb, if◌then◌else◌, List, Option, none, some, get_or, get_elem?,
  set, replicate, bit_and,
}

abbrev pub min_tag_granularity : ℕ
min_tag_granularity = 4

-- `uniform` has one tag for `size` bytes; `ram` has one for each 4 bytes.
pub data Provider : Type 0 where
  uniform : (size tag tag_granularity : ℕ) → Provider
  ram : (size word_size tag_granularity : ℕ) → List ℕ → Provider

-- the constructor of `platform_ram_tag_provider_t`
unfoldable pub new_ram : ℕ → ℕ → ℕ → ℕ → Provider
new_ram size tag word_size tag_granularity =
    ram size word_size tag_granularity (replicate (size / min_tag_granularity + 1) tag)

-- `addr & -tag_granularity` on 64 bits
unfoldable pub align : ℕ → ℕ → ℕ
align addr granularity = bit_and addr ((2 ^ 64 - granularity) % 2 ^ 64)

-- Which of the provider's tags an address has, if it is in range.
unfoldable pub data_cell : Provider → ℕ → Option ℕ
data_cell (uniform size tag g) addr = if ltb addr size then some 0 else none
data_cell (ram size w g tags) addr =
    if ltb addr size then some (align addr g / min_tag_granularity) else none

unfoldable pub insn_cell : Provider → ℕ → Option ℕ
insn_cell (uniform size tag g) addr = if ltb addr size then some 0 else none
insn_cell (ram size w g tags) addr =
    if ltb addr size then some (addr / min_tag_granularity) else none

unfoldable pub load : Provider → ℕ → Option ℕ
load (uniform size tag g) i = some tag
load (ram size w g tags) i = get_elem? tags i

unfoldable pub store : Provider → ℕ → ℕ → Provider
store (uniform size tag g) i t = uniform size t g
store (ram size w g tags) i t = ram size w g (set tags i t)
