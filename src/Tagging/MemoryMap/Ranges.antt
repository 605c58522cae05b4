-- ===== src/Tagging/MemoryMap/Ranges.antt =====
-- The iterator of tagging_tools/metadata_memory_map.h: the ranges of words with the same set of tags. A
-- null pointer in place of a set is `none`.
pub mod Lookup
pub mod Regions
use hope_policy_engine.Prelude.{
  ℕ, zero, suc, ◌+◌, ◌*◌, ◌==◌, Bool, true, false, ◌&&◌, if◌then◌else◌, List, [], ◌∷◌, ◌++◌, Option,
  none, some,
}
use hope_policy_engine.Tagging.RangeMap.{Range, contains}
use hope_policy_engine.Tagging.TagFile.Metadata.{Metadata}
use hope_policy_engine.Tagging.IndexMap.{metadata_eq}
use hope_policy_engine.Tagging.TagFile.Read.{◌>>=◌}
use hope_policy_engine.Tagging.MemoryMap.{stride, MemRegion}

abbrev pub TaggedWords : Type 0
TaggedWords = Range × Option Metadata

-- `*mr_it == *(mr_it - 1)`: the pointers into the cache of sets are those of their sets.
abbrev pub same_tags : Option Metadata → Option Metadata → Bool
same_tags none none = true
same_tags (some a) (some b) = metadata_eq a b
same_tags _ _ = false

unfoldable pub index_to_addr : MemRegion → ℕ → ℕ
index_to_addr r idx = r.range.start + idx * stride

-- From a word on: the range that began at the word `first`, and those after it. `idx` is the index of the
-- next word. The last range ends where the region does.
unfoldable pub ranges_from :
    MemRegion → ℕ → Option Metadata → ℕ → List (Option Metadata) → List TaggedWords
ranges_from r first current idx [] =
    (record { start = index_to_addr r first; end = r.range.end }, current) ∷ []
ranges_from r first current idx (word ∷ words) = elim (same_tags word current) [
  | true ↦ ranges_from r first current (suc idx) words
  | false ↦
      (record { start = index_to_addr r first; end = index_to_addr r idx }, current)
      ∷ ranges_from r idx word (suc idx) words
]

-- From the first word of a region on; `none` is a read past the end of a region without words.
unfoldable pub ranges_of : List MemRegion → Option (List TaggedWords)
ranges_of [] = some []
ranges_of (r ∷ mrs) = elim r.mem [
  | [] ↦ none
  | word ∷ words ↦ do rest ← ranges_of mrs; some (ranges_from r 0 word 1 words ++ rest)
]

-- From `begin()` to `end()`: a first region without words is passed over. What the comparison with `end()`
-- reads behind the last region is not modelled: it does not change the ranges.
unfoldable pub iterate : List MemRegion → Option (List TaggedWords)
iterate [] = some []
iterate (r ∷ mrs) = elim r.mem [
  | [] ↦ ranges_of mrs
  | word ∷ words ↦ do rest ← ranges_of mrs; some (ranges_from r 0 word 1 words ++ rest)
]

-- the tags of the first range that has the address
unfoldable pub tags_in : ℕ → List TaggedWords → Option Metadata
tags_in addr [] = none
tags_in addr ((range, md) ∷ ts) = if contains range addr then md else tags_in addr ts
