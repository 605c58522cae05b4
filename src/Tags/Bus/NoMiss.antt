-- ===== src/Tags/Bus/NoMiss.antt =====
-- A tag bus, validator/include/tag_utils.h, on which no location has `BAD_TAG_VALUE`.
use hope_policy_engine.Prelude.{
  ℕ, zero, suc, leb, ◌==◌, ◌≡◌, ◌≢◌, subst, List, [], ◌∷◌, some, get_elem?, set, All, arith,
  Bool-cases, Option-cases, inl, inr,
}
use hope_policy_engine.Isa.{bad_tag_value}
use hope_policy_engine.Tags.Provider.{Provider, uniform, ram, load, store}
use hope_policy_engine.Tags.Bus.{
  Entry, Bus, key, get_provider, data_tag_at, read_data, put_provider, write_data, insn_tag_at,
  write_insn,
}

abbrev pub IsTag : ℕ → Type 0
IsTag t = t ≢ bad_tag_value

abbrev pub Tagged : Provider → Type 0
Tagged (uniform size tag g) = IsTag tag
Tagged (ram size w g tags) = All IsTag tags

abbrev pub NoMiss : Bus → Type 0
NoMiss bus = All (λ (e : Entry). Tagged e.provider) bus

All-get_elem? : (tags : List ℕ) (i t : ℕ) → All IsTag tags → get_elem? tags i ≡ some t → IsTag t
All-get_elem? [] i t h e = cc
All-get_elem? (x ∷ xs) zero t h e = let same : x ≡ t = ground arith in subst IsTag same h.0
All-get_elem? (x ∷ xs) (suc i) t h e = All-get_elem? xs i t h.1 e

All-set : (tags : List ℕ) (i t : ℕ) → All IsTag tags → IsTag t → All IsTag (set tags i t)
All-set [] i t h n = tt
All-set (x ∷ xs) zero t h n = (n, h.1)
All-set (x ∷ xs) (suc i) t h n = (h.0, All-set xs i t h.1 n)

load-Tagged : (p : Provider) (i t : ℕ) → Tagged p → load p i ≡ some t → IsTag t
unfolding load
load-Tagged (uniform size tag g) i t h e = let same : tag ≡ t = ground arith in subst IsTag same h
load-Tagged (ram size w g tags) i t h e = All-get_elem? tags i t h e

store-Tagged : (p : Provider) (i t : ℕ) → Tagged p → IsTag t → Tagged (store p i t)
unfolding store
store-Tagged (uniform size tag g) i t h n = n
store-Tagged (ram size w g tags) i t h n = All-set tags i t h n

get_provider-Tagged :
    (addr : ℕ) (bus : Bus) (e : Entry)
    → NoMiss bus
    → get_provider addr bus ≡ some e
    → Tagged e.provider
unfolding get_provider
get_provider-Tagged addr [] e h found = cc
get_provider-Tagged addr (f ∷ bus) e h found = elim (Bool-cases (leb (key addr) (key f.start))) [
  | inl here ↦ let same : f ≡ e = ground arith in subst (λ (x : Entry). Tagged x.provider) same h.0
  | inr later ↦ get_provider-Tagged addr bus e h.1 (ground arith)
]

put_provider-NoMiss :
    (start : ℕ) (p : Provider) (bus : Bus)
    → Tagged p
    → NoMiss bus
    → NoMiss (put_provider start p bus)
unfolding put_provider
put_provider-NoMiss start p [] t h = tt
put_provider-NoMiss start p (f ∷ bus) t h = elim (Bool-cases (f.start == start)) [
  | inl here ↦ rw (here, put_provider) (t, h.1)
  | inr later ↦ rw (later, put_provider) (h.0, put_provider-NoMiss start p bus t h.1)
]

data_tag_at-Tagged :
    (addr : ℕ) (bus : Bus) (l : Entry × ℕ)
    → NoMiss bus
    → data_tag_at addr bus ≡ some l
    → Tagged l.0.provider
unfolding data_tag_at
data_tag_at-Tagged addr bus (e, i) h found = get_provider-Tagged addr bus e h (ground arith)

-- A tag that is read is not `BAD_TAG_VALUE`.
pub read_data-IsTag :
    (addr : ℕ) (bus : Bus) (t : ℕ) → NoMiss bus → read_data addr bus ≡ some t → IsTag t
unfolding read_data
read_data-IsTag addr bus t h e = elim (Option-cases (data_tag_at addr bus)) [
  | inl out ↦ absurd (ground arith)
  | inr (l, found) ↦
      load-Tagged l.0.provider l.1 t (data_tag_at-Tagged addr bus l h found) (ground arith)
]

-- A write of another tag keeps it so.
pub write_data-NoMiss :
    (addr tag : ℕ) (bus bus' : Bus)
    → NoMiss bus
    → IsTag tag
    → write_data addr tag bus ≡ some bus'
    → NoMiss bus'
unfolding write_data
write_data-NoMiss addr tag bus bus' h n e = elim (Option-cases (data_tag_at addr bus)) [
  | inl out ↦ absurd (ground arith)
  | inr (l, found) ↦
      let same : put_provider l.0.start (store l.0.provider l.1 tag) bus ≡ bus' = ground arith in
      subst NoMiss same (
        put_provider-NoMiss l.0.start (store l.0.provider l.1 tag) bus
          (store-Tagged l.0.provider l.1 tag (data_tag_at-Tagged addr bus l h found) n) h)
]

insn_tag_at-Tagged :
    (addr : ℕ) (bus : Bus) (l : Entry × ℕ)
    → NoMiss bus
    → insn_tag_at addr bus ≡ some l
    → Tagged l.0.provider
unfolding insn_tag_at
insn_tag_at-Tagged addr bus (e, i) h found = get_provider-Tagged addr bus e h (ground arith)

pub write_insn-NoMiss :
    (addr tag : ℕ) (bus bus' : Bus)
    → NoMiss bus
    → IsTag tag
    → write_insn addr tag bus ≡ some bus'
    → NoMiss bus'
unfolding write_insn
write_insn-NoMiss addr tag bus bus' h n e = elim (Option-cases (insn_tag_at addr bus)) [
  | inl out ↦ absurd (ground arith)
  | inr (l, found) ↦
      let same : put_provider l.0.start (store l.0.provider l.1 tag) bus ≡ bus' = ground arith in
      subst NoMiss same (
        put_provider-NoMiss l.0.start (store l.0.provider l.1 tag) bus
          (store-Tagged l.0.provider l.1 tag (insn_tag_at-Tagged addr bus l h found) n) h)
]
