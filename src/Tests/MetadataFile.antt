-- ===== src/Tests/MetadataFile.antt =====
-- A file with the metadata of two ranges, loaded into a map with one region.
use hope_policy_engine.Prelude.{◌≡◌, List, [], ◌∷◌, some, arith, All}
use hope_policy_engine.Tagging.RangeMap.{Range}
use hope_policy_engine.Tagging.TagFile.Read.{◌>>=◌}
use hope_policy_engine.Tagging.TagFile.Metadata.{Metadata}
use hope_policy_engine.Tagging.TagFile.Distinct.{Increasing}
use hope_policy_engine.Tagging.MemoryMap.{MemRegion}
use hope_policy_engine.Tagging.MemoryMap.Region.{region}
use hope_policy_engine.Tagging.MetadataFile.{save_metadata, load_metadata, add_all}
use hope_policy_engine.Tagging.MetadataFile.RoundTrip.{TaggedFits, load_metadata-save_metadata}

abbrev tagged : List (Range × Metadata)
tagged =
    (record { start = 0x1000; end = 0x1010 }, 3 ∷ 9 ∷ [])
    ∷ (record { start = 0x8000; end = 0x8004 }, 4 ∷ [])
    ∷ []

abbrev old_map : List MemRegion
old_map = region 0x400 (some (1 ∷ []) ∷ []) ∷ []

tagged-TaggedFits : All TaggedFits tagged
unfolding Increasing
tagged-TaggedFits = (
  (
    (omega arith, omega arith),
    (omega arith, (omega arith, (omega arith, tt)), ((omega arith, tt), (tt, tt))),
  ),
  (((omega arith, omega arith), (omega arith, (omega arith, tt), (tt, tt))), tt),
)

load_metadata-save_metadata_example :
    load_metadata old_map (save_metadata tagged 32)
    ≡ (add_all tagged old_map >>= λ map'. some (32, map'))
load_metadata-save_metadata_example =
    load_metadata-save_metadata tagged 32 old_map (omega arith) tagged-TaggedFits
