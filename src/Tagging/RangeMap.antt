-- ===== src/Tagging/RangeMap.antt =====
-- `range_t` of tagging_tools/range.h and `range_map_t` of tagging_tools/range_map.cc: ranges of addresses
-- with the names of their tags, in the order in which they were added.
use Prim.Native.String.{String}
use text.Mathlib.Text.{◌==◌ as str_eq}
use hope_policy_engine.Prelude.{
  ℕ, Bool, true, false, ◌&&◌, ◌||◌, ltb, leb, ◌==◌, if◌then◌else◌, ◌≡◌, refl, List, [], ◌∷◌, ◌++◌,
  Option, none, some, arith, Bool-cases, inl, inr,
}

-- `start` is inclusive, `end` is exclusive.
pub record Range : Type 0 where
  pub start : ℕ
  pub end : ℕ

unfoldable pub contains : Range → ℕ → Bool
contains r address = leb r.start address && ltb address r.end

unfoldable pub range_eq : Range → Range → Bool
range_eq a b = a.start == b.start && a.end == b.end

pub record TaggedRange : Type 0 where
  pub range : Range
  pub tags : List String

abbrev pub RangeMap : Type 0
RangeMap = List TaggedRange

-- `contains(key)`: some range of the map covers the range of the key.
unfoldable pub covers : Range → RangeMap → Bool
covers range [] = false
covers range (tagged ∷ map) =
    (leb tagged.range.start range.start && leb range.end tagged.range.end) || covers range map

unfoldable pub add_range : Range → List String → RangeMap → RangeMap
add_range range tags [] = record { range = range; tags = tags } ∷ []
add_range range tags (tagged ∷ map) =
    if range_eq tagged.range range
    then record tagged { tags = tagged.tags ++ tags } ∷ map
    else tagged ∷ add_range range tags map

unfoldable pub get_tags : ℕ → RangeMap → List String
get_tags addr [] = []
get_tags addr (tagged ∷ map) = if contains tagged.range addr then tagged.tags else get_tags addr map

-- `std::find` on names, and `empty` of a vector
unfoldable pub has_tag : String → List String → Bool
has_tag tag [] = false
has_tag tag (t ∷ tags) = str_eq t tag || has_tag tag tags

abbrev pub no_tags : List String → Bool
no_tags [] = true
no_tags (t ∷ tags) = false

unfoldable pub get_ranges : String → RangeMap → List Range
get_ranges tag [] = []
get_ranges tag (tagged ∷ map) =
    let rest = get_ranges tag map in
    if has_tag tag tagged.tags || (no_tags tagged.tags && str_eq tag "")
    then tagged.range ∷ rest
    else rest

-- The first range that has the address.
unfoldable pub first_at : ℕ → RangeMap → Option TaggedRange
first_at addr [] = none
first_at addr (tagged ∷ map) = if contains tagged.range addr then some tagged else first_at addr map

contains-eq : (a b : Range) (addr : ℕ) → range_eq a b ≡ true → contains a addr ≡ contains b addr
unfolding contains range_eq
contains-eq a b addr h = ground arith

-- What `get_tags` becomes for an address, by its first range before.
abbrev pub extended : Range → List String → ℕ → Option TaggedRange → List String
extended range tags addr none = if contains range addr then tags else []
extended range tags addr (some tagged) =
    if range_eq tagged.range range then tagged.tags ++ tags else tagged.tags

-- A range that does not have the address leaves its tags alone.
extended-outside :
    (addr : ℕ) (range : Range) (tags : List String) (map : RangeMap)
    → contains range addr ≡ false
    → get_tags addr map ≡ extended range tags addr (first_at addr map)
unfolding get_tags first_at
extended-outside addr range tags [] out = rw (out) refl
extended-outside addr range tags (tagged ∷ map) out =
    elim (Bool-cases (contains tagged.range addr)) [
      | inl here ↦ elim (Bool-cases (range_eq tagged.range range)) [
        | inl same ↦ absurd (cc (contains-eq tagged.range range addr same))
        | inr other ↦ rw (here, get_tags, first_at) (rw (other) refl)
      ]
      | inr away ↦ rw (away, get_tags, first_at) (extended-outside addr range tags map out)
    ]

-- Adding a range with tags changes the tags of an address in two ways only: an address without a range
-- that lies in the new one gets its tags, and an address whose first range is the same range gets them
-- after its own.
pub get_tags-add_range :
    (addr : ℕ) (range : Range) (tags : List String) (map : RangeMap)
    → get_tags addr (add_range range tags map) ≡ extended range tags addr (first_at addr map)
unfolding get_tags add_range first_at
get_tags-add_range addr range tags [] = refl
get_tags-add_range addr range tags (tagged ∷ map) = elim (Bool-cases (contains tagged.range addr)) [
  | inl here ↦ elim (Bool-cases (range_eq tagged.range range)) [
    | inl same ↦ rw (here, same, first_at, add_range) (rw (here, get_tags) refl)
    | inr other ↦ rw (here, other, first_at, add_range) (rw (here, get_tags) refl)
  ]
  | inr away ↦ elim (Bool-cases (range_eq tagged.range range)) [
    | inl same ↦
        let out : contains range addr ≡ false = cc (contains-eq tagged.range range addr same) in
        rw (away, same, first_at, add_range)
          (rw (away, get_tags) (extended-outside addr range tags map out))
    | inr other ↦
        rw (away, other, first_at, add_range)
          (rw (away, get_tags) (get_tags-add_range addr range tags map))
  ]
]
