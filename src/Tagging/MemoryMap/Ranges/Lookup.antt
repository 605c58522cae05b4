-- ===== src/Tagging/MemoryMap/Ranges/Lookup.antt =====
-- What the ranges of tagging_tools/metadata_memory_map.h say of an address.
use hope_policy_engine.Prelude.{
  ℕ, suc, ◌+◌, ◌-◌, ◌*◌, ◌≤◌, ◌<◌, ◌≡◌, ◌∙◌, refl, ap, ltb, leb, true, false, ◌&&◌, if◌then◌else◌,
  Bool-cases, inl, inr, List, [], ◌∷◌, ◌++◌, Option, none, some, get_or, length, arith,
}
use hope_policy_engine.Tagging.RangeMap.{contains}
use hope_policy_engine.Tagging.TagFile.Metadata.{Metadata}
use hope_policy_engine.Tagging.IndexMap.{metadata_eq_lem}
use hope_policy_engine.Tagging.MemoryMap.Ranges.{
  TaggedWords, same_tags, index_to_addr, ranges_from, tags_in,
}

same_tags-eq : (a b : Option Metadata) → same_tags a b ≡ true → a ≡ b
same_tags-eq none none e = refl
same_tags-eq none (some b) e = cc
same_tags-eq (some a) none e = cc
same_tags-eq (some a) (some b) e = ap some (metadata_eq_lem a b e)

abbrev pub word_of : List (Option Metadata) → ℕ → Option Metadata
word_of words w = get_or words w none

pub word_of-later :
    (word : Option Metadata) (words : List (Option Metadata)) (idx w : ℕ)
    → idx ≤ w
    → word_of (word ∷ words) (w - idx)
      ≡ (if ltb w (suc idx) then word else word_of words (w - suc idx))
word_of-later word words idx w l = elim (Bool-cases (ltb w (suc idx))) [
  | inl here ↦ let n : w - idx ≡ 0 = ground arith in rw (here, n) refl
  | inr later ↦ let n : w - idx ≡ suc (w - suc idx) = ground arith in rw (later, n) refl
]

-- The words of a range of whole words.
contains-words :
    (b first end w j : ℕ)
    → j < 4
    → contains (record { start = b + first * 4; end = b + end * 4 }) (b + w * 4 + j)
      ≡ (leb first w && ltb w end)
unfolding contains
contains-words b first end w j l = ground arith

-- what the ranges from the word `first` on say of the word `w`
abbrev pub at_word :
    (first last idx w : ℕ)
    → Option Metadata
    → List (Option Metadata)
    → Option Metadata
    → Option Metadata
at_word first last idx w current words otherwise =
    if leb first w && ltb w last
    then (if ltb w idx then current else word_of words (w - idx))
    else otherwise

-- one more word with the current tags
at_word-same :
    (first last idx w : ℕ) (current : Option Metadata) (words : List (Option Metadata))
    (otherwise : Option Metadata)
    → at_word first last (suc idx) w current words otherwise
      ≡ at_word first last idx w current (current ∷ words) otherwise
at_word-same first last idx w current words otherwise = elim (Bool-cases (ltb w idx)) [
  | inl before ↦ let next : ltb w (suc idx) ≡ true = ground arith in rw (before, next) refl
  | inr after ↦ rw (after, word_of-later current words idx w (ground arith)) refl
]

-- a word with other tags
at_word-other :
    (first last idx w : ℕ) (current word : Option Metadata) (words : List (Option Metadata))
    (otherwise : Option Metadata)
    → first < idx
    → idx < last
    → (if leb first w && ltb w idx
        then current
        else at_word idx last (suc idx) w word words otherwise)
      ≡ at_word first last idx w current (word ∷ words) otherwise
at_word-other first last idx w current word words otherwise l m = elim (Bool-cases (ltb w idx)) [
  | inl before ↦
      let low : leb idx w ≡ false = ground arith in
      let high : ltb w last ≡ true = ground arith in
      rw (before, low, high)
        (elim (Bool-cases (leb first w)) [
          | inl from ↦ rw (from) refl
          | inr below ↦ rw (below) refl
        ])
  | inr after ↦
      let from : leb first w ≡ true = ground arith in
      let low : leb idx w ≡ true = ground arith in
      rw (after, from, low, word_of-later word words idx w (ground arith)) refl
]

pub tags_in-ranges_from :
    (b last first idx w j : ℕ) (current : Option Metadata) (words mem : List (Option Metadata))
    (more : List TaggedWords)
    → j < 4
    → first < idx
    → last ≡ idx + length words
    → tags_in (b + w * 4 + j) (
        ranges_from
          (record { range = record { start = b; end = b + last * 4 }; mem = mem })
          first
          current
          idx
          words
        ++ more)
      ≡ at_word first last idx w current words (tags_in (b + w * 4 + j) more)
unfolding ranges_from tags_in index_to_addr
tags_in-ranges_from b last first idx w j current [] mem more k l e =
    let n : last ≡ idx = omega arith in
    rw (contains-words b first last w j k) (elim (Bool-cases (ltb w last)) [
      | inl below ↦ let m : ltb w idx ≡ true = ground arith in rw (below, m) refl
      | inr beyond ↦ rw (beyond) (elim (Bool-cases (leb first w)) [
        | inl from ↦ rw (from) refl
        | inr below ↦ rw (below) refl
      ])
    ])
tags_in-ranges_from b last first idx w j current (word ∷ words) mem more k l e =
    elim (Bool-cases (same_tags word current)) [
      | inl same ↦
          let equal = same_tags-eq word current same in
          rw (same, ranges_from)
            (tags_in-ranges_from b last first (suc idx) w j current words mem more k (omega arith)
                (omega arith)
              ∙ rw (equal) (at_word-same first last idx w current words _))
      | inr other ↦
          rw (other, ranges_from)
            (rw
              (
                contains-words b first idx w j k,
                tags_in-ranges_from b last idx (suc idx) w j word words mem more k (omega arith)
                    (omega arith),
              )
              (at_word-other first last idx w current word words _ l (omega arith)))
    ]

pub tags_in_below :
    (a b last first idx : ℕ) (current : Option Metadata) (words mem : List (Option Metadata))
    (more : List TaggedWords)
    → a < b
    → tags_in a (
        ranges_from
          (record { range = record { start = b; end = b + last * 4 }; mem = mem })
          first
          current
          idx
          words
        ++ more)
      ≡ tags_in a more
unfolding ranges_from tags_in index_to_addr contains
tags_in_below a b last first idx current [] mem more l =
    let out : leb (b + first * 4) a ≡ false = ground arith in rw (out) refl
tags_in_below a b last first idx current (word ∷ words) mem more l =
    elim (Bool-cases (same_tags word current)) [
      | inl same ↦
          rw (same, ranges_from) (tags_in_below a b last first (suc idx) current words mem more l)
      | inr other ↦
          let out : leb (b + first * 4) a ≡ false = ground arith in
          rw (other, ranges_from)
            (rw (out) (tags_in_below a b last idx (suc idx) word words mem more l))
    ]
