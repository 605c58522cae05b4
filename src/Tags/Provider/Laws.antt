-- ===== src/Tags/Provider/Laws.antt =====
-- The vectors of the providers of validator/include/tag_utils.h, and the tags that they hold.
use hope_policy_engine.Prelude.{
  ℕ, ◌+◌, ◌-◌, ◌/◌, ◌%◌, ◌^◌, ◌<◌, ◌≡◌, ◌≢◌, refl, ap, suc, zero, List, [], ◌∷◌, some, length,
  length-set, length-replicate, get_elem?, set, bit_and-le_left, arith,
}
use hope_policy_engine.Tags.Provider.{
  Provider, uniform, ram, new_ram, align, data_cell, insn_cell, load, store, min_tag_granularity,
}

-- The vector covers the size, as the constructor makes it.
abbrev pub Covers : Provider → Type 0
Covers (uniform size tag g) = Unit
Covers (ram size w g tags) = size / min_tag_granularity < length tags

pub new_ram-Covers : (size tag w g : ℕ) → Covers (new_ram size tag w g)
unfolding new_ram
new_ram-Covers size tag w g = ground (arith, length-replicate (size / 4 + 1) tag)

pub store-Covers : (p : Provider) (i t : ℕ) → Covers p → Covers (store p i t)
unfolding store
store-Covers (uniform size tag g) i t h = tt
store-Covers (ram size w g tags) i t h = ground (arith, length-set tags i t)

get_elem?-below : (xs : List ℕ) (i : ℕ) → i < length xs → (a : ℕ) × (get_elem? xs i ≡ some a)
get_elem?-below [] i h = absurd (omega arith)
get_elem?-below (x ∷ xs) zero h = (x, refl)
get_elem?-below (x ∷ xs) (suc i) h = get_elem?-below xs i (omega arith)

get_elem?-set :
    (xs : List ℕ) (i v old : ℕ) → get_elem? xs i ≡ some old → get_elem? (set xs i v) i ≡ some v
get_elem?-set [] i v old h = cc
get_elem?-set (x ∷ xs) zero v old h = refl
get_elem?-set (x ∷ xs) (suc i) v old h = get_elem?-set xs i v old h

get_elem?-set_ne : (xs : List ℕ) (i j v : ℕ) → i ≢ j → get_elem? (set xs i v) j ≡ get_elem? xs j
get_elem?-set_ne [] i j v h = refl
get_elem?-set_ne (x ∷ xs) zero zero v h = absurd (h refl)
get_elem?-set_ne (x ∷ xs) zero (suc j) v h = refl
get_elem?-set_ne (x ∷ xs) (suc i) zero v h = refl
get_elem?-set_ne (x ∷ xs) (suc i) (suc j) v h = get_elem?-set_ne xs i j v (λ e. h (ap suc e))

-- An address in range has a tag: its index lies within the vector.
pub load-data_cell :
    (p : Provider) (addr i : ℕ)
    → Covers p
    → data_cell p addr ≡ some i
    → (t : ℕ) × (load p i ≡ some t)
unfolding data_cell load align
load-data_cell (uniform size tag g) addr i c h = (tag, refl)
load-data_cell (ram size w g tags) addr i c h =
    get_elem?-below tags i (ground (arith, bit_and-le_left addr ((2 ^ 64 - g) % 2 ^ 64)))

pub load-insn_cell :
    (p : Provider) (addr i : ℕ)
    → Covers p
    → insn_cell p addr ≡ some i
    → (t : ℕ) × (load p i ≡ some t)
unfolding insn_cell load
load-insn_cell (uniform size tag g) addr i c h = (tag, refl)
load-insn_cell (ram size w g tags) addr i c h = get_elem?-below tags i (ground arith)

pub load-store : (p : Provider) (i t old : ℕ) → load p i ≡ some old → load (store p i t) i ≡ some t
unfolding load store
load-store (uniform size tag g) i t old h = refl
load-store (ram size w g tags) i t old h = get_elem?-set tags i t old h

pub load-store_ne :
    (size w g : ℕ) (tags : List ℕ) (i j t : ℕ)
    → i ≢ j
    → load (store (ram size w g tags) i t) j ≡ load (ram size w g tags) j
unfolding load store
load-store_ne size w g tags i j t h = get_elem?-set_ne tags i j t h

-- A write does not change which tag an address has.
pub data_cell-store :
    (p : Provider) (i t addr : ℕ) → data_cell (store p i t) addr ≡ data_cell p addr
unfolding data_cell store
data_cell-store (uniform size tag g) i t addr = refl
data_cell-store (ram size w g tags) i t addr = refl
