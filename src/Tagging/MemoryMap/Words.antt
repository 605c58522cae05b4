-- ===== src/Tagging/MemoryMap/Words.antt =====
-- The words of a region of tagging_tools/metadata_memory_map.cc after a range is added to it.
use hope_policy_engine.Prelude.{
  ℕ, zero, suc, ◌+◌, ◌-◌, ◌≤◌, ◌<◌, ◌≡◌, ◌∙◌, refl, ap, ltb, leb, ◌&&◌, if◌then◌else◌, Bool-cases,
  inl, inr, List, [], ◌∷◌, ◌++◌, Option, none, some, length, replicate, get_or, get_or-replicate,
  length-append, length-replicate, arith,
}
use hope_policy_engine.Tagging.TagFile.Metadata.{Metadata}
use hope_policy_engine.Tagging.MemoryMap.{resize, merge, paint}

abbrev pub word : List (Option Metadata) → ℕ → Option Metadata
word mem i = get_or mem i none

pub word-resize : (n i : ℕ) (mem : List (Option Metadata)) → word (resize n mem) i ≡ word mem i
unfolding resize
word-resize n i mem = appended mem i
  where
    appended :
        (xs : List (Option Metadata)) (j : ℕ)
        → get_or (xs ++ replicate (n - length mem) none) j none ≡ get_or xs j none
    appended [] j = get_or-replicate (n - length mem) j none
    appended (x ∷ xs) zero = refl
    appended (x ∷ xs) (suc j) = appended xs j

pub length-resize :
    (n : ℕ) (mem : List (Option Metadata)) → length mem ≤ n → length (resize n mem) ≡ n
unfolding resize
length-resize n mem l = omega (
  arith,
  length-append mem (replicate (n - length mem) none),
  length-replicate {A = Option Metadata} (n - length mem) none,
)

pub length-paint :
    (md : Metadata) (s n : ℕ) (mem : List (Option Metadata))
    → length (paint md s n mem) ≡ length mem
unfolding paint
length-paint md s n [] = refl
length-paint md zero zero (w ∷ ws) = refl
length-paint md zero (suc n) (w ∷ ws) = ap suc (length-paint md zero n ws)
length-paint md (suc s) n (w ∷ ws) = ap suc (length-paint md s n ws)

pub word-paint :
    (md : Metadata) (s n i : ℕ) (mem : List (Option Metadata))
    → i < length mem
    → word (paint md s n mem) i
      ≡ (if leb s i && ltb i (s + n) then some (merge md (word mem i)) else word mem i)
unfolding paint
word-paint md s n i [] l = absurd (omega arith)
word-paint md zero zero i (w ∷ ws) l = ground arith
word-paint md zero (suc n) zero (w ∷ ws) l = ground arith
word-paint md zero (suc n) (suc i) (w ∷ ws) l =
    word-paint md zero n i ws (omega arith) ∙ ground arith
word-paint md (suc s) n zero (w ∷ ws) l = ground arith
word-paint md (suc s) n (suc i) (w ∷ ws) l = word-paint md s n i ws (omega arith) ∙ ground arith

pub word-before :
    (n i : ℕ) (mem : List (Option Metadata))
    → word (replicate n none ++ mem) i ≡ (if ltb i n then none else word mem (i - n))
word-before zero i mem = ground arith
word-before (suc n) zero mem = ground arith
word-before (suc n) (suc i) mem = word-before n i mem ∙ ground arith

pub word_beyond : (mem : List (Option Metadata)) (i : ℕ) → length mem ≤ i → word mem i ≡ none
word_beyond [] i l = refl
word_beyond (x ∷ xs) zero l = absurd (omega arith)
word_beyond (x ∷ xs) (suc i) l = word_beyond xs i (omega arith)

unfoldable pub grown : ℕ → List (Option Metadata) → List (Option Metadata)
grown e mem = if ltb (length mem) e then resize e mem else mem

pub word-grown : (e i : ℕ) (mem : List (Option Metadata)) → word (grown e mem) i ≡ word mem i
unfolding grown
word-grown e i mem = elim (Bool-cases (ltb (length mem) e)) [
  | inl p ↦ rw (p) (word-resize e i mem)
  | inr p ↦ rw (p) refl
]

pub length-grown :
    (e : ℕ) (mem : List (Option Metadata))
    → (e ≤ length (grown e mem)) × (length mem ≤ length (grown e mem))
unfolding grown
length-grown e mem = elim (Bool-cases (ltb (length mem) e)) [
  | inl p ↦ rw (p) (let n = length-resize e mem (ground arith) in (omega arith, ground arith))
  | inr p ↦ rw (p) (ground arith, omega arith)
]
