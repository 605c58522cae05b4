-- ===== src/Tagging/MemoryMap/Region.antt =====
-- `mem_region_t::add_range` of tagging_tools/metadata_memory_map.cc on a region of whole words.
use hope_policy_engine.Prelude.{
  ℕ, ◌+◌, ◌-◌, ◌*◌, ltb, leb, if◌then◌else◌, List, ◌++◌, Option, none, length, replicate,
}
use hope_policy_engine.Tagging.TagFile.Metadata.{Metadata}
use hope_policy_engine.Tagging.MemoryMap.{MemRegion}
use hope_policy_engine.Tagging.MemoryMap.Words.{word}

-- A region of words from the word `c` on.
abbrev pub region : ℕ → List (Option Metadata) → MemRegion
region c mem = record { range = record { start = c * 4; end = c * 4 + length mem * 4 }; mem = mem }

-- the tags of the word `w` of the memory
unfoldable pub tags_at : ℕ → List (Option Metadata) → ℕ → Option Metadata
tags_at c mem w = if leb c w then word mem (w - c) else none

lowered : (a c : ℕ) (mem : List (Option Metadata)) → ℕ × List (Option Metadata)
lowered a c mem = if ltb a c then (a, replicate (c - a) none ++ mem) else (c, mem)
