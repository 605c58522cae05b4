-- ===== src/Tests/MemoryMap.antt =====
-- A region of two words, to which a lower range of three words is added.
use hope_policy_engine.Prelude.{List, [], ◌∷◌, Option, some}
use hope_policy_engine.Tagging.TagFile.Metadata.{Metadata}

abbrev two_words : List (Option Metadata)
two_words = some (1 ∷ []) ∷ some (2 ∷ []) ∷ []

abbrev tags : Metadata
tags = 7 ∷ []
