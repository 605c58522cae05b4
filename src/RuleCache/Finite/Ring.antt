-- ===== src/RuleCache/Finite/Ring.antt =====
-- The window of rules that the ring of the finite cache stands for, validator/rule_cache/finite_rule_cache,
-- and the lists of its keys.
use hope_policy_engine.Prelude.{
  ℕ, ◌+◌, ◌<◌, true, false, if◌then◌else◌, leb, ◌≡◌, refl, sym, suc, ap, length-set, ◌∙◌, List, [],
  ◌∷◌, ◌++◌, map, none, get_or, set, replicate, length, length-append, length-replicate, arith,
  Bool-cases, inl, inr,
}
use mathlib.Core.List.{tail, append_assoc, append-nil, map-append}
use hope_policy_engine.Isa.{Operands, Results}
use hope_policy_engine.RuleCache.Table.{
  Table, find, put, Unique, find-put, put-Unique, find-append, length-put_absent, Unique-append,
}
use hope_policy_engine.RuleCache.Keys.{operands_key, operands_eq_iff}
use hope_policy_engine.RuleCache.Finite.{Finite, zero_operands, init, store}

abbrev pub Rules : Type 0
Rules = Table Operands Results

abbrev pub keys : Rules → List Operands
keys = map (λ e. e.0)

-- The window over the rules: those in the cache, the oldest first. A full window loses its oldest.
unfoldable pub push : ℕ → Rules → Operands → Results → Rules
push limit w q r = (if leb limit (length w) then tail w else w) ++ (q, r) ∷ []

-- The ring is split where the next key goes: before it the newer keys, after it the older ones, which
-- are keys of the window only when the cache is full.
pub record Tracks (c : Finite) (w : Rules) : Type 0 where
  pub newer : List Operands
  pub older : List Operands
  pub ring : c.entries ≡ newer ++ older
  pub next : c.next_entry ≡ length newer
  pub size : length c.entries ≡ c.capacity
  pub room : c.next_entry < c.capacity
  pub full : c.cache_full ≡ true → keys w ≡ older ++ newer
  pub filling : c.cache_full ≡ false → keys w ≡ newer
  pub table_unique : Unique c.rule_cache_table
  pub window_unique : Unique w
  pub same : (q : Operands) → find q c.rule_cache_table ≡ find q w
  pub count : length c.rule_cache_table ≡ length w
  pub silent : c.internal_errors ≡ 0

pub init-Tracks : (limit : ℕ) → 0 < limit → Tracks (init limit) []
unfolding init find
init-Tracks limit h = record {
  newer = [];
  older = replicate limit zero_operands;
  ring = refl;
  next = refl;
  size = length-replicate limit zero_operands;
  room = h;
  full = λ e. ground arith;
  filling = λ e. refl;
  table_unique = tt;
  window_unique = tt;
  same = λ q. refl;
  count = refl;
  silent = refl;
}

-- What `evict` leaves: the slot under `next_entry` belongs to no rule of the window.
pub record Ready (c : Finite) (w : Rules) : Type 0 where
  pub newer : List Operands
  pub slot : Operands
  pub older : List Operands
  pub ring : c.entries ≡ newer ++ slot ∷ older
  pub next : c.next_entry ≡ length newer
  pub size : length c.entries ≡ c.capacity
  pub full : c.cache_full ≡ true → keys w ≡ older ++ newer
  pub filling : c.cache_full ≡ false → keys w ≡ newer
  pub table_unique : Unique c.rule_cache_table
  pub window_unique : Unique w
  pub same : (q : Operands) → find q c.rule_cache_table ≡ find q w
  pub count : length c.rule_cache_table ≡ length w
  pub silent : c.internal_errors ≡ 0

pub get_or-middle :
    (xs : List Operands) (y d : Operands) (ys : List Operands)
    → get_or (xs ++ y ∷ ys) (length xs) d ≡ y
get_or-middle [] y d ys = refl
get_or-middle (x ∷ xs) y d ys = get_or-middle xs y d ys

pub set-middle :
    (xs : List Operands) (y v : Operands) (ys : List Operands)
    → set (xs ++ y ∷ ys) (length xs) v ≡ xs ++ v ∷ ys
set-middle [] y v ys = refl
set-middle (x ∷ xs) y v ys = ap (◌∷◌ x) (set-middle xs y v ys)

pub length-keys : (w : Rules) → length (keys w) ≡ length w
length-keys [] = refl
length-keys (e ∷ w) = ap suc (length-keys w)

pub length-zero : (xs : List Operands) → length xs ≡ 0 → xs ≡ []
length-zero [] h = refl
length-zero (x ∷ xs) h = absurd (omega arith)

-- The table and the window after a write of a new rule.
module _ {c : Finite} {w : Rules} (ops : Operands) (res : Results) (t : Ready c w)
    (absent : find ops w ≡ none) where
  written : (q : Operands) → find q (put ops res c.rule_cache_table) ≡ find q (w ++ (ops, res) ∷ [])
  unfolding find
  written q = ground (
    arith,
    t.same q,
    find-put ops q res c.rule_cache_table,
    find-append q w ((ops, res) ∷ []),
    operands_eq_iff q ops,
  )

  ring_set : set c.entries c.next_entry ops ≡ t.newer ++ ops ∷ t.older
  ring_set = ground (arith, set-middle t.newer t.slot ops t.older)

  size_set : length (set c.entries c.next_entry ops) ≡ c.capacity
  size_set = ground (arith, length-set c.entries c.next_entry ops)

  ring_size : c.capacity ≡ length t.newer + (length t.older + 1)
  ring_size = ground (arith, length-append t.newer (t.slot ∷ t.older))

  keys_written : keys (w ++ (ops, res) ∷ []) ≡ keys w ++ ops ∷ []
  keys_written = map-append (λ e. e.0) w ((ops, res) ∷ [])

  counted : length (put ops res c.rule_cache_table) ≡ length (w ++ (ops, res) ∷ [])
  counted = ground (
    arith,
    t.same ops,
    t.count,
    length-put_absent ops res c.rule_cache_table,
    length-append w ((ops, res) ∷ []),
  )

  wrapped :
      leb c.capacity (c.next_entry + 1) ≡ true → Tracks (store ops res c) (w ++ (ops, res) ∷ [])
  unfolding store
  wrapped e =
      let none_older : t.older ≡ [] = length-zero t.older (ground (arith, ring_size)) in
      let only_newer : keys w ≡ t.newer = ground (arith, Bool-cases c.cache_full) in
      record {
        newer = [];
        older = t.newer ++ ops ∷ [];
        ring = ground (arith, ring_set);
        next = ground arith;
        size = size_set;
        room = ground (arith, ring_size);
        full = λ f. keys_written ∙ rw (only_newer, append-nil) refl;
        filling = λ f. ground arith;
        table_unique = put-Unique ops res c.rule_cache_table t.table_unique;
        window_unique = Unique-append w ops res t.window_unique absent;
        same = written;
        count = counted;
        silent = t.silent;
      }

  advanced :
      leb c.capacity (c.next_entry + 1) ≡ false → Tracks (store ops res c) (w ++ (ops, res) ∷ [])
  unfolding store
  advanced e = record {
    newer = t.newer ++ ops ∷ [];
    older = t.older;
    ring = ring_set ∙ sym (append_assoc t.newer (ops ∷ []) t.older);
    next = ground (arith, length-append t.newer (ops ∷ []));
    size = size_set;
    room = ground arith;
    full = λ f. keys_written ∙ rw (t.full (ground arith)) (append_assoc t.older t.newer (ops ∷ []));
    filling = λ f. keys_written ∙ rw (t.filling (ground arith)) refl;
    table_unique = put-Unique ops res c.rule_cache_table t.table_unique;
    window_unique = Unique-append w ops res t.window_unique absent;
    same = written;
    count = counted;
    silent = t.silent;
  }

  pub store-Tracks : Tracks (store ops res c) (w ++ (ops, res) ∷ [])
  store-Tracks = elim (Bool-cases (leb c.capacity (c.next_entry + 1))) [
    | inl e ↦ wrapped e
    | inr e ↦ advanced e
  ]
