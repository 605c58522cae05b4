-- ===== src/Tagging/MetadataFile/RoundTrip.antt =====
-- Metadata of tagging_tools/tag_file.cc, saved and loaded.
use hope_policy_engine.Prelude.{
  ℕ, zero, suc, ◌%◌, ◌^◌, ◌≤◌, ◌<◌, ◌≡◌, ◌∙◌, refl, ap, ◌==◌, false, List, [], ◌∷◌, ◌++◌, some,
  length, All, length-append, arith,
}
use hope_policy_engine.Tagging.RangeMap.{Range}
use hope_policy_engine.Tagging.Uleb.{write_uleb}
use hope_policy_engine.Tagging.TagFile.Write.{write_number, write_all}
use hope_policy_engine.Tagging.TagFile.Read.{◌>>=◌, read_number, read_many}
use hope_policy_engine.Tagging.TagFile.Metadata.{Metadata, insert_all}
use hope_policy_engine.Tagging.TagFile.Save.{write_range}
use hope_policy_engine.Tagging.TagFile.Load.{read_range}
use hope_policy_engine.Tagging.TagFile.Sequences.{
  some-bind, some_byte, read_number-write_number, read_many-write_all,
}
use hope_policy_engine.Tagging.TagFile.Distinct.{insert_all-Increasing}
use hope_policy_engine.Tagging.TagFile.RoundTrip.{
  next, next-last, RangeFits, range_back, MetaFits, map_same,
}
use hope_policy_engine.Tagging.MemoryMap.{MemRegion}
use hope_policy_engine.Tagging.MetadataFile.{
  write_tagged, save_metadata, read_tagged, read_to_end, add_all, load_metadata,
}

abbrev pub TaggedFits : Range × Metadata → Type 0
TaggedFits t = RangeFits t.0 × MetaFits t.1

-- The size of a set comes back from 64 bits as from 32.
size_back :
    (n : ℕ)
    → n < 2 ^ 32
    → (more : List ℕ) → read_number 32 (write_number 64 n ++ more) ≡ some (n, more)
unfolding write_number
size_back n l more =
    let small : n % 2 ^ 64 ≡ n % 2 ^ 32 = omega arith in
    ap (λ v. read_number 32 (write_uleb v ++ more)) small ∙ read_number-write_number 32 n more l

tagged_back :
    (t : Range × Metadata) (rest : List ℕ)
    → TaggedFits t
    → read_tagged (write_tagged t ++ rest) ≡ some (t, rest)
unfolding read_tagged write_tagged
tagged_back (r, md) rest (f, (l, a, i)) =
    next read_range _ (write_range r)
      (write_number 64 (length md) ++ write_all (write_number 64) md) rest
      (λ more. range_back r more f)
      (next (read_number 32) _ (write_number 64 (length md)) (write_all (write_number 64) md) rest
        (size_back (length md) l)
        (next-last (read_many (read_number 64) (length md)) _ (write_all (write_number 64) md) rest
          (λ more.
            read_many-write_all (read_number 64) (write_number 64) (λ x. x) (λ m. m < 2 ^ 64)
              (λ x r p. read_number-write_number 64 x r p) md more a)
          (ap (λ t. some ((r, t), rest))
            (ap (λ t. insert_all t []) (map_same md) ∙ insert_all-Increasing md i))))

number-positive : (width n : ℕ) → 0 < length (write_number width n)
unfolding write_number
number-positive width n = ground (arith, some_byte (n % 2 ^ width))

tagged-positive : (t : Range × Metadata) → 0 < length (write_tagged t)
unfolding write_tagged write_range
tagged-positive (r, md) = omega (
  arith,
  length-append (write_number 64 r.start ++ write_number 64 r.end)
      (write_number 64 (length md) ++ write_all (write_number 64) md),
  length-append (write_number 64 r.start) (write_number 64 r.end),
  number-positive 64 r.start,
)

-- Enough turns are as many as the bytes.
enough_bytes : (ts : List (Range × Metadata)) → length ts ≤ length (write_all write_tagged ts)
unfolding write_all
enough_bytes [] = omega arith
enough_bytes (t ∷ ts) = omega (
  arith,
  length-append (write_tagged t) (write_all write_tagged ts),
  tagged-positive t,
  enough_bytes ts,
)

read_more :
    (fuel : ℕ) (bytes : List ℕ)
    → (length bytes == 0) ≡ false
    → read_to_end (suc fuel) bytes
      ≡ (read_tagged bytes >>= λ r. read_to_end fuel r.1 >>= λ rest. some (r.0 ∷ rest))
unfolding read_to_end
read_more fuel bytes e = rw (e, read_to_end) refl

to_end :
    (fuel : ℕ) (ts : List (Range × Metadata))
    → length ts ≤ fuel
    → All TaggedFits ts
    → read_to_end fuel (write_all write_tagged ts) ≡ some ts
unfolding read_to_end write_all
to_end zero [] l a = refl
to_end (suc fuel) [] l a = refl
to_end zero (t ∷ ts) l a = absurd (omega arith)
to_end (suc fuel) (t ∷ ts) l (p, a) =
    let bytes = write_tagged t ++ write_all write_tagged ts in
    let size = length-append (write_tagged t) (write_all write_tagged ts) in
    let positive = tagged-positive t in
    let more : (length bytes == 0) ≡ false = ground arith in
    read_more fuel bytes more
    ∙ some-bind _ (tagged_back t (write_all write_tagged ts) p)
    ∙ some-bind _ (to_end fuel ts (omega arith) a)

-- Metadata that was saved is loaded: the loaded map is the given one with each saved range added in turn,
-- and `xlen` comes back.
pub load_metadata-save_metadata :
    (tagged : List (Range × Metadata)) (xlen : ℕ) (map : List MemRegion)
    → xlen < 2 ^ 32
    → All TaggedFits tagged
    → load_metadata map (save_metadata tagged xlen)
      ≡ (add_all tagged map >>= λ map'. some (xlen, map'))
unfolding load_metadata save_metadata
load_metadata-save_metadata tagged xlen map l a =
    let bytes = write_all write_tagged tagged in
    some-bind _ (read_number-write_number 32 xlen bytes l)
    ∙ some-bind _ (to_end (length bytes) tagged (enough_bytes tagged) a)
