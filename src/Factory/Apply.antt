-- ===== src/Factory/Apply.antt =====
-- `apply_tags` of validator/include/metadata_factory.h, against what the names stand for.
use Prim.Native.String.{String}
use hope_policy_engine.Prelude.{
  ℕ, Bool, true, false, ◌≡◌, ◌∙◌, refl, if◌then◌else◌, List, [], ◌∷◌, Option, none, some,
  Option-cases, inl, inr,
}
use hope_policy_engine.Tagging.TagFile.Metadata.{Metadata}
use hope_policy_engine.Tagging.MemoryMap.{MemRegion}
use hope_policy_engine.Tagging.RangeMap.{RangeMap}
use hope_policy_engine.Factory.{
  Factory, lookup_metadata, Result, ok, stop, Stop, no_tag, ◌>>=◌, add_to_map, apply_tag,
  apply_names, apply_tags,
}
use hope_policy_engine.Factory.Lookup.{meaning, Agrees, lookup_metadata-Faithful}

-- The map with a range for each of some names, by what the names stand for; a name that stands for nothing
-- stops.
unfoldable pub add_name :
    (String → Option Metadata) → ℕ → ℕ → String → List MemRegion → Result (List MemRegion)
add_name m start end tag map = elim (m tag) [
  | none ↦ stop (no_tag tag)
  | some md ↦ add_to_map start end md map
]

unfoldable pub add_names :
    (String → Option Metadata) → ℕ → ℕ → List String → List MemRegion → Result (List MemRegion)
add_names m start end [] map = ok map
add_names m start end (tag ∷ tags) map = do
  map' ← add_name m start end tag map
  add_names m start end tags map'

unfoldable pub add_ranges :
    (String → Option Metadata) → RangeMap → List MemRegion → Result (List MemRegion)
add_ranges m [] map = ok map
add_ranges m (tagged ∷ ranges) map = do
  map' ← add_names m tagged.range.start tagged.range.end tagged.tags map
  add_ranges m ranges map'

-- A factory whose names stand for what those of another one do.
abbrev pub SameNames : Factory → Factory → Type 0
SameNames f0 f = Agrees f × ((q : String) → meaning f q ≡ meaning f0 q)

-- A call ends as the reference does, and keeps the names.
abbrev pub Follows : Factory → Result (List MemRegion × Factory) → Result (List MemRegion) → Type 0
Follows f0 (ok (map, f)) reference = (reference ≡ ok map) × SameNames f0 f
Follows f0 (stop e) reference = reference ≡ stop e

Follows-bind :
    (f0 : Factory) (m : Result (List MemRegion × Factory)) (reference : Result (List MemRegion))
    (k : List MemRegion × Factory → Result (List MemRegion × Factory))
    (k' : List MemRegion → Result (List MemRegion))
    → Follows f0 m reference
    → ((map : List MemRegion) (f : Factory) → SameNames f0 f → Follows f0 (k (map, f)) (k' map))
    → Follows f0 (m >>= k) (reference >>= k')
Follows-bind f0 (ok (map, f)) reference k k' (e, same) next = rw (e) (next map f same)
Follows-bind f0 (stop s) reference k k' e next = rw (e) (stopped s)
  where
    stopped : (s : Stop) → Follows f0 (stop s) (stop s >>= k')
    stopped s = refl

-- `if (!apply_tag(...)) throw ...`
unfoldable checked :
    String → Result (Bool × List MemRegion × Factory) → Result (List MemRegion × Factory)
checked tag m = do r ← m; if r.0 then ok (r.1, r.2) else stop (no_tag tag)

added :
    (f0 f : Factory) (tag : String) (m : Result (List MemRegion))
    → SameNames f0 f
    → Follows f0 (checked tag (do map' ← m; ok (true, map', f))) m
unfolding checked
added f0 f tag (ok map) same = (refl, same)
added f0 f tag (stop e) same = refl

checked-Follows :
    (f0 f : Factory) (map : List MemRegion) (start end : ℕ) (tag : String)
    → SameNames f0 f
    → Follows f0
        (checked tag (apply_tag map start end tag f))
        (add_name (meaning f0) start end tag map)
unfolding checked apply_tag add_name
checked-Follows f0 f map start end tag (agrees, same) =
    let (value, agrees', same') = lookup_metadata-Faithful tag f agrees in
    let kept : SameNames f0 (lookup_metadata tag f).1 = (agrees', λ q. same' q ∙ same q) in
    elim (Option-cases (meaning f0 tag)) [
      | inl nothing ↦
          let looked : (lookup_metadata tag f).0 ≡ none = value ∙ same tag ∙ nothing in
          rw (looked, apply_tag) (rw (nothing, add_name) refl)
      | inr (md, known) ↦
          let looked : (lookup_metadata tag f).0 ≡ some md = value ∙ same tag ∙ known in
          rw (looked, apply_tag)
            (rw (known, add_name)
              (added f0 (lookup_metadata tag f).1 tag (add_to_map start end md map) kept))
    ]

apply_names-checked :
    (map : List MemRegion) (start end : ℕ) (tag : String) (tags : List String) (f : Factory)
    → apply_names map start end (tag ∷ tags) f
      ≡ (checked tag (apply_tag map start end tag f) >>= λ r. apply_names r.0 start end tags r.1)
unfolding apply_names checked
apply_names-checked map start end tag tags f = by_result (apply_tag map start end tag f)
  where
    by_result :
        (m : Result (Bool × List MemRegion × Factory))
        → (m >>= λ r. if r.0 then apply_names r.1 start end tags r.2 else stop (no_tag tag))
          ≡ (checked tag m >>= λ r. apply_names r.0 start end tags r.1)
    by_result (ok (true, map', f')) = refl
    by_result (ok (false, map', f')) = refl
    by_result (stop e) = refl

apply_names-Follows :
    (f0 f : Factory) (map : List MemRegion) (start end : ℕ) (tags : List String)
    → SameNames f0 f
    → Follows f0 (apply_names map start end tags f) (add_names (meaning f0) start end tags map)
unfolding add_names
apply_names-Follows f0 f map start end [] same = unfold apply_names in (refl, same)
apply_names-Follows f0 f map start end (tag ∷ tags) same =
    rw (apply_names-checked map start end tag tags f) (
      Follows-bind f0 (checked tag (apply_tag map start end tag f))
        (add_name (meaning f0) start end tag map) (λ r. apply_names r.0 start end tags r.1)
        (λ map'. add_names (meaning f0) start end tags map')
        (checked-Follows f0 f map start end tag same)
        (λ map' f' same'. apply_names-Follows f0 f' map' start end tags same'))

ranges_follow :
    (f0 f : Factory) (map : List MemRegion) (ranges : RangeMap)
    → SameNames f0 f
    → Follows f0 (apply_tags map ranges f) (add_ranges (meaning f0) ranges map)
unfolding apply_tags add_ranges
ranges_follow f0 f map [] same = (refl, same)
ranges_follow f0 f map (tagged ∷ ranges) same =
    Follows-bind f0 (apply_names map tagged.range.start tagged.range.end tagged.tags f)
      (add_names (meaning f0) tagged.range.start tagged.range.end tagged.tags map)
      (λ r. apply_tags r.0 ranges r.1) (λ map'. add_ranges (meaning f0) ranges map')
      (apply_names-Follows f0 f map tagged.range.start tagged.range.end tagged.tags same)
      (λ map' f' same'. ranges_follow f0 f' map' ranges same')

-- With a `path_map` that has what the names stand for, `apply_tags` adds to the map each range with what
-- each of its names stands for, in order, until a name stands for nothing, which it reports, or the map
-- fails; and afterwards all names stand for what they did.
pub apply_tags-Follows :
    (f : Factory) (map : List MemRegion) (ranges : RangeMap)
    → Agrees f
    → Follows f (apply_tags map ranges f) (add_ranges (meaning f) ranges map)
apply_tags-Follows f map ranges agrees = ranges_follow f f map ranges (agrees, λ q. refl)
