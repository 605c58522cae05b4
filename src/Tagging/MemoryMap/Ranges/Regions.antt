-- ===== src/Tagging/MemoryMap/Ranges/Regions.antt =====
-- The iterator of tagging_tools/metadata_memory_map.h against `get_metadata`.
use hope_policy_engine.Prelude.{
  ℕ, zero, suc, ◌+◌, ◌-◌, ◌*◌, ◌/◌, ◌%◌, ◌<◌, ◌≡◌, ◌∙◌, refl, sym, ap, subst, ltb, leb, true, false,
  if◌then◌else◌, Bool-cases, inl, inr, List, [], ◌∷◌, ◌++◌, Option, some, get_elem?, length, All,
  arith,
}
use hope_policy_engine.Tagging.RangeMap.{contains}
use hope_policy_engine.Tagging.TagFile.Metadata.{Metadata}
use hope_policy_engine.Tagging.TagFile.Read.{◌>>=◌}
use hope_policy_engine.Tagging.MemoryMap.{MemRegion, get_metadata}
use hope_policy_engine.Tagging.MemoryMap.Ranges.{
  TaggedWords, ranges_from, ranges_of, iterate, tags_in,
}
use hope_policy_engine.Tagging.MemoryMap.Ranges.Lookup.{word_of, tags_in-ranges_from, tags_in_below}

-- A region of words.
abbrev pub IsWhole : MemRegion → Type 0
IsWhole r = (0 < length r.mem) × (r.range.end ≡ r.range.start + length r.mem * 4)

get_elem?-word_of :
    (words : List (Option Metadata)) (w : ℕ)
    → w < length words
    → get_elem? words w ≡ some (word_of words w)
get_elem?-word_of [] w l = absurd (omega arith)
get_elem?-word_of (word ∷ words) zero l = refl
get_elem?-word_of (word ∷ words) (suc w) l = get_elem?-word_of words w (omega arith)

abbrev words_region : ℕ → Option Metadata → List (Option Metadata) → MemRegion
words_region b word words = record {
  range = record { start = b; end = b + suc (length words) * 4 };
  mem = word ∷ words;
}

region_within :
    (b w j : ℕ) (word : Option Metadata) (words : List (Option Metadata)) (mrs : List MemRegion)
    (more : List TaggedWords)
    → j < 4
    → get_metadata (b + w * 4 + j) mrs ≡ some (tags_in (b + w * 4 + j) more)
    → get_metadata (b + w * 4 + j) (words_region b word words ∷ mrs)
      ≡ some
          (tags_in (b + w * 4 + j) (ranges_from (words_region b word words) 0 word 1 words ++ more))
unfolding get_metadata
region_within b w j word words mrs more k e =
    let here : contains (record { start = b; end = b + suc (length words) * 4 }) (b + w * 4 + j)
        ≡ ltb w (suc (length words)) =
      unfold contains in ground arith in
    let n : (b + w * 4 + j - b) / 4 ≡ w = omega arith in
    let from : leb 0 w ≡ true = ground arith in
    rw
      (
        here,
        n,
        tags_in-ranges_from b (suc (length words)) 0 1 w j word words (word ∷ words) more k
            (omega arith) (omega arith),
        from,
      )
      (elim (Bool-cases (ltb w (suc (length words)))) [
        | inl inside ↦
            rw (inside)
              (get_elem?-word_of (word ∷ words) w (ground arith) ∙ ap some (first_or_later w))
        | inr beyond ↦ rw (beyond) e
      ])
  where
    first_or_later :
        (v : ℕ) → word_of (word ∷ words) v ≡ (if ltb v 1 then word else word_of words (v - 1))
    first_or_later zero = refl
    first_or_later (suc v) = let n : suc v - 1 ≡ v = omega arith in ground arith

-- The ranges of one region in front of others.
region_first :
    (a b : ℕ) (word : Option Metadata) (words : List (Option Metadata)) (mrs : List MemRegion)
    (more : List TaggedWords)
    → get_metadata a mrs ≡ some (tags_in a more)
    → get_metadata a (words_region b word words ∷ mrs)
      ≡ some (tags_in a (ranges_from (words_region b word words) 0 word 1 words ++ more))
unfolding get_metadata
region_first a b word words mrs more e = elim (Bool-cases (ltb a b)) [
  | inl below ↦
      let out : contains (record { start = b; end = b + suc (length words) * 4 }) a ≡ false =
        unfold contains in ground arith in
      rw
        (
          out,
          tags_in_below a b (suc (length words)) 0 1 word words (word ∷ words) more (ground arith),
        )
        e
  | inr above ↦
      let w = (a - b) / 4 in
      let j = (a - b) % 4 in
      let split : a ≡ b + w * 4 + j = ground arith in
      subst
        (λ x.
          get_metadata x (words_region b word words ∷ mrs)
          ≡ some (tags_in x (ranges_from (words_region b word words) 0 word 1 words ++ more)))
        (sym split) (region_within b w j word words mrs more (omega arith) (rw (← split) e))
]

-- What the ranges say is what the map says.
abbrev pub SaysTheSame : Option (List TaggedWords) → List MemRegion → Type 0
SaysTheSame found mrs =
    (ts : List TaggedWords) × (found ≡ some ts)
    × ((addr : ℕ) → get_metadata addr mrs ≡ some (tags_in addr ts))

front :
    (b end : ℕ) (mem : List (Option Metadata)) (mrs : List MemRegion)
    → SaysTheSame (ranges_of mrs) mrs
    → 0 < length mem
    → end ≡ b + length mem * 4
    → let r : MemRegion = record { range = record { start = b; end = end }; mem = mem } in
      SaysTheSame (ranges_of (r ∷ mrs)) (r ∷ mrs) × SaysTheSame (iterate (r ∷ mrs)) (r ∷ mrs)
unfolding ranges_of iterate
front b end [] mrs (rest, e, same) l whole = absurd (omega arith)
front b end (word ∷ words) mrs (rest, e, same) l whole =
    subst
      (λ n.
        let r : MemRegion = record { range = record { start = b; end = n }; mem = word ∷ words } in
        SaysTheSame (ranges_of (r ∷ mrs)) (r ∷ mrs) × SaysTheSame (iterate (r ∷ mrs)) (r ∷ mrs))
      (sym whole) (both, both)
  where
    both :
        SaysTheSame
          (ranges_of mrs >>= λ rest.
            some (ranges_from (words_region b word words) 0 word 1 words ++ rest))
          (words_region b word words ∷ mrs)
    both = (
      ranges_from (words_region b word words) 0 word 1 words ++ rest,
      rw (e) refl,
      λ addr. region_first addr b word words mrs rest (same addr),
    )

ranges_of-SaysTheSame : (mrs : List MemRegion) → All IsWhole mrs → SaysTheSame (ranges_of mrs) mrs
unfolding ranges_of get_metadata tags_in
ranges_of-SaysTheSame [] whole = ([], refl, λ addr. refl)
ranges_of-SaysTheSame (r ∷ mrs) ((some_words, end), whole) =
    (front r.range.start r.range.end r.mem mrs (ranges_of-SaysTheSame mrs whole) some_words end).0

-- For regions of whole words, none of them empty, the iterator goes from begin to end; and of each address
-- the first of its ranges that has the address gives the tags that `get_metadata` gives, where no range
-- has the address none.
pub iterate-get_metadata :
    (mrs : List MemRegion)
    → All IsWhole mrs
    → (ts : List TaggedWords) × (iterate mrs ≡ some ts)
      × ((addr : ℕ) → get_metadata addr mrs ≡ some (tags_in addr ts))
unfolding iterate get_metadata tags_in
iterate-get_metadata [] whole = ([], refl, λ addr. refl)
iterate-get_metadata (r ∷ mrs) ((some_words, end), whole) =
    (front r.range.start r.range.end r.mem mrs (ranges_of-SaysTheSame mrs whole) some_words end).1
