-- ===== src/Tagging/MemoryMap.antt =====
-- `metadata_memory_map_t` of tagging_tools/metadata_memory_map.cc and metadata_memory_map.h: regions of
-- words, each with its set of tags. A pointer to a set of the cache is the set; a null pointer is `none`.
pub mod Words
pub mod Region
pub mod Ranges
use hope_policy_engine.Prelude.{
  ℕ, zero, suc, ◌+◌, ◌-◌, ◌*◌, ◌/◌, ◌%◌, ◌^◌, ◌==◌, ltb, leb, Bool, true, false, ◌&&◌, ◌||◌,
  if◌then◌else◌, List, [], ◌∷◌, ◌++◌, Option, none, some, length, replicate, get_elem?,
}
use hope_policy_engine.Tagging.RangeMap.{Range, contains}
use hope_policy_engine.Tagging.TagFile.Metadata.{Metadata, insert_all}

abbrev pub stride : ℕ
stride = 4

pub record MemRegion : Type 0 where
  pub range : Range
  pub mem : List (Option Metadata)

unfoldable pub resize : ℕ → List (Option Metadata) → List (Option Metadata)
resize n mem = mem ++ replicate (n - length mem) none

-- the tags of a word with others
unfoldable pub merge : Metadata → Option Metadata → Metadata
merge metadata none = metadata
merge metadata (some old) = insert_all old metadata

-- `while (s < e)`: `n` words from the word `s` on
unfoldable pub paint : Metadata → ℕ → ℕ → List (Option Metadata) → List (Option Metadata)
paint metadata s n [] = []
paint metadata zero zero (word ∷ words) = word ∷ words
paint metadata zero (suc n) (word ∷ words) =
    some (merge metadata word) ∷ paint metadata zero n words
paint metadata (suc s) n (word ∷ words) = word ∷ paint metadata s n words

-- The region from `start` on: the first range sets it, a lower start puts words before it. `none` is the
-- failed assertion that a region without addresses has no words.
unfoldable pub lower : ℕ → MemRegion → Option MemRegion
lower start r =
    if r.range.start == r.range.end
    then elim r.mem [
      | [] ↦ some (record r { range = record r.range { start = start } })
      | word ∷ words ↦ none
    ]
    else if ltb start r.range.start
    then some (record {
      range = record r.range { start = start };
      mem = replicate ((r.range.start - start) / stride) none ++ r.mem;
    })
    else some r

-- the rest of `mem_region_t::add_range`
unfoldable pub cover : ℕ → ℕ → Metadata → MemRegion → MemRegion
cover start end metadata r =
    let s = (start - r.range.start) / stride in
    let e = (end - r.range.start) / stride in
    let grown =
      if ltb (length r.mem) e
      then record {
        range = record r.range { end = r.range.start + e * stride };
        mem = resize e r.mem;
      }
      else r in
    record grown { mem = paint metadata s (e - s) grown.mem }

-- `mem_region_t::add_range`, on addresses whose differences are those of numbers, and up to 2 ^ 31 words,
-- which the indexes of type `int` hold
unfoldable pub region_add_range : ℕ → ℕ → Metadata → MemRegion → Option MemRegion
region_add_range start end metadata region = elim (lower start region) [
  | none ↦ none
  | some r ↦ some (cover start end metadata r)
]

-- `range.start - stride` is unsigned.
unfoldable pub adjacent : MemRegion → ℕ → Bool
adjacent r addr =
    leb ((2 ^ 64 + r.range.start - stride) % 2 ^ 64) addr
    && ltb addr ((r.range.end + stride) % 2 ^ 64)

abbrev pub new_region : MemRegion
new_region = record { range = record { start = 0; end = 0 }; mem = [] }

-- `insert` before the first region that starts above `end`
unfoldable pub insert_region : ℕ → MemRegion → List MemRegion → List MemRegion
insert_region end mr [] = mr ∷ []
insert_region end mr (r ∷ mrs) =
    let rest = insert_region end mr mrs in if ltb end r.range.start then mr ∷ r ∷ mrs else r ∷ rest

-- the search for an adjacent region, and what `add_range` makes of it
unfoldable pub extend_adjacent :
    ℕ → ℕ → Metadata → List MemRegion → Option (Option (List MemRegion))
extend_adjacent start end metadata [] = none
extend_adjacent start end metadata (r ∷ mrs) =
    let rest = extend_adjacent start end metadata mrs in
    if adjacent r start || adjacent r end
    then elim (region_add_range start end metadata r) [
      | none ↦ some none
      | some r' ↦ some (some (r' ∷ mrs))
    ]
    else elim rest [
      | none ↦ none
      | some none ↦ some none
      | some (some mrs') ↦ some (some (r ∷ mrs'))
    ]

unfoldable pub map_add_range : ℕ → ℕ → Metadata → List MemRegion → Option (List MemRegion)
map_add_range start end metadata mrs =
    if leb end start then some mrs else elim (extend_adjacent start end metadata mrs) [
      | some result ↦ result
      | none ↦ elim (region_add_range start end metadata new_region) [
        | none ↦ none
        | some mr ↦ some (insert_region end mr mrs)
      ]
    ]

-- `at` throws out of range, which is the outer `none`; the inner one is a null pointer.
unfoldable pub get_metadata : ℕ → List MemRegion → Option (Option Metadata)
get_metadata addr [] = some none
get_metadata addr (r ∷ mrs) =
    let rest = get_metadata addr mrs in
    if contains r.range addr then get_elem? r.mem ((addr - r.range.start) / stride) else rest
