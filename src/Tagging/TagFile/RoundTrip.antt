-- ===== src/Tagging/TagFile/RoundTrip.antt =====
-- What `save_tag_indexes` and `write_headers` of tagging_tools/tag_file.cc write, loaded again.
use hope_policy_engine.Prelude.{
  ℕ, ◌^◌, ◌<◌, ◌≡◌, ◌∙◌, refl, ap, List, [], ◌∷◌, ◌++◌, map, Option, some, length, All,
}
use hope_policy_engine.Tagging.RangeMap.{Range}
use hope_policy_engine.Tagging.TagFile.Write.{write_number, write_all}
use hope_policy_engine.Tagging.TagFile.Read.{◌>>=◌, read_number, read_many}
use hope_policy_engine.Tagging.TagFile.Metadata.{Metadata, insert_all}
use hope_policy_engine.Tagging.TagFile.Save.{
  write_range, write_data_range, write_metadata, write_memory_index,
}
use hope_policy_engine.Tagging.TagFile.Load.{
  read_range, read_data_range, read_metadata, read_memory_index,
}
use hope_policy_engine.Tagging.TagFile.Sequences.{
  some-bind, append_assoc, read_number-write_number, read_many-write_all,
}
use hope_policy_engine.Tagging.TagFile.Distinct.{Increasing, insert_all-Increasing}

-- One step of a reader on bytes that were written in two parts.
pub next :
    {A B : Type 0} (read : List ℕ → Option (A × List ℕ)) (f : A × List ℕ → Option B)
    (w tail rest : List ℕ) {a : A} {z : Option B}
    → ((more : List ℕ) → read (w ++ more) ≡ some (a, more))
    → f (a, tail ++ rest) ≡ z
    → (read ((w ++ tail) ++ rest) >>= f) ≡ z
next read f w tail rest back e =
    rw (append_assoc w tail rest) (some-bind f (back (tail ++ rest)) ∙ e)

-- the last step
pub next-last :
    {A B : Type 0} (read : List ℕ → Option (A × List ℕ)) (f : A × List ℕ → Option B)
    (w rest : List ℕ) {a : A} {z : Option B}
    → ((more : List ℕ) → read (w ++ more) ≡ some (a, more))
    → f (a, rest) ≡ z
    → (read (w ++ rest) >>= f) ≡ z
next-last read f w rest back e = some-bind f (back rest) ∙ e

abbrev pub RangeFits : Range → Type 0
RangeFits r = (r.start < 2 ^ 64) × (r.end < 2 ^ 64)

pub range_back :
    (r : Range) (rest : List ℕ) → RangeFits r → read_range (write_range r ++ rest) ≡ some (r, rest)
unfolding read_range write_range
range_back r rest (s, e) =
    next (read_number 64) _ (write_number 64 r.start) (write_number 64 r.end) rest
      (λ more. read_number-write_number 64 r.start more s)
      (next-last (read_number 64) _ (write_number 64 r.end) rest
        (λ more. read_number-write_number 64 r.end more e) refl)

abbrev pub DataFits : Range × ℕ → Type 0
DataFits d = RangeFits d.0 × (d.1 < 2 ^ 64)

abbrev pub first : Range × ℕ → Range
first d = d.0

pub data_back :
    (d : Range × ℕ) (rest : List ℕ)
    → DataFits d
    → read_data_range (write_data_range d ++ rest) ≡ some (first d, rest)
unfolding read_data_range write_data_range
data_back (r, g) rest (f, l) =
    next read_range _ (write_range r) (write_number 64 g) rest (λ more. range_back r more f)
      (next-last (read_number 64) _ (write_number 64 g) rest
        (λ more. read_number-write_number 64 g more l) refl)

pub memory_back :
    (d : Range × ℕ) (rest : List ℕ)
    → RangeFits d.0 × (d.1 < 2 ^ 32)
    → read_memory_index (write_memory_index d ++ rest) ≡ some (d, rest)
unfolding read_memory_index write_memory_index
memory_back (r, i) rest (f, l) =
    next read_range _ (write_range r) (write_number 32 i) rest (λ more. range_back r more f)
      (next-last (read_number 32) _ (write_number 32 i) rest
        (λ more. read_number-write_number 32 i more l) refl)

pub map_same : {A : Type 0} (xs : List A) → map (λ x. x) xs ≡ xs
map_same [] = refl
map_same (x ∷ xs) = ap (λ t. x ∷ t) (map_same xs)

abbrev pub MetaFits : Metadata → Type 0
MetaFits md = (length md < 2 ^ 32) × All (λ m. m < 2 ^ 64) md × Increasing md

pub metadata_back :
    (md : Metadata) (rest : List ℕ)
    → MetaFits md
    → read_metadata (write_metadata md ++ rest) ≡ some (md, rest)
unfolding read_metadata write_metadata
metadata_back md rest (l, a, i) =
    next (read_number 32) _ (write_number 32 (length md)) (write_all (write_number 64) md) rest
      (λ more. read_number-write_number 32 (length md) more l)
      (next-last (read_many (read_number 64) (length md)) _ (write_all (write_number 64) md) rest
        (λ more.
          read_many-write_all (read_number 64) (write_number 64) (λ x. x) (λ m. m < 2 ^ 64)
            (λ x r p. read_number-write_number 64 x r p) md more a)
        (ap (λ t. some (t, rest))
          (ap (λ t. insert_all t []) (map_same md) ∙ insert_all-Increasing md i)))
