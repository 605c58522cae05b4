-- ===== src/Factory/Load/Numbers.antt =====
-- What the names of policy_meta.yml stand for once validator/src/metadata_factory.cc has loaded it.
use Prim.Native.String.{String, compare}
use Prim.Native.Nat.{Ordering}
use text.Mathlib.Text.{◌==◌ as str_eq}
use text.Mathlib.TextEquality.{eq_iff, path_by_compare}
use text.Mathlib.TextPositions.{compare_refl}
use hope_policy_engine.Prelude.{
  ℕ, ◌≡◌, ◌∙◌, refl, sym, ap, if◌then◌else◌, [], ◌∷◌, Option, none, some, Option-cases, Bool-cases,
  inl, inr, arith,
}
use hope_policy_engine.RuleCache.Table.{Table, find, put, find-put}
use hope_policy_engine.Factory.{name_key, meta_key, EntityInit, Factory, put_sorted}
use hope_policy_engine.Factory.Yaml.{
  Node, Items, no_items, item, as_text, as_number, field_as, ◌>>=◌,
}
use hope_policy_engine.Factory.Load.{update_entities, init_encoding_map}

pub bind-eq-some :
    {A B : Type 0} (m : Option A) (f : A → Option B) {b : B}
    → m >>= f ≡ some b
    → (a : A) × (m ≡ some a) × (f a ≡ some b)
bind-eq-some none f h = cc
bind-eq-some (some a) f h = (a, refl, h)

-- An entity under its name, whatever the order of the names.
find-put_sorted :
    {V : Type 0} (k q : String) (v : V) (t : Table String V)
    → find q (put_sorted k v t) ≡ (if str_eq q k then some v else find q t)
unfolding find put_sorted
find-put_sorted k q v [] = refl
find-put_sorted {V} k q v ((j, w) ∷ t) = by_order (compare k j) refl (find-put_sorted k q v t)
  where
    by_order :
        (o : Ordering)
        → compare k j ≡ o
        → find q (put_sorted k v t) ≡ (if str_eq q k then some v else find q t)
        → find q (elim o [
          | Ordering.lt ↦ (k, v) ∷ (j, w) ∷ t
          | Ordering.eq ↦ (j, v) ∷ t
          | Ordering.gt ↦ (j, w) ∷ put_sorted k v t
        ])
          ≡ (if str_eq q k then some v else find q ((j, w) ∷ t))
    by_order Ordering.lt e rest = refl
    by_order Ordering.eq e rest =
        let same : k ≡ j = path_by_compare k j e in ground (arith, eq_iff q k, eq_iff q j)
    by_order Ordering.gt e rest =
        let apart : ¬ (k ≡ j) =
          λ same. absurd (cc (sym e ∙ ap (λ s. compare s j) same ∙ compare_refl j)) in
        ground (arith, eq_iff q k, eq_iff q j, rest)

-- The number of the last of some metadata with a name.
unfoldable pub number_of : String → Items → Option ℕ
number_of name no_items = none
number_of name (item node xs) = elim (number_of name xs) [
  | some id ↦ some id
  | none ↦ elim (field_as as_text "name" node) [
    | none ↦ none
    | some n ↦ if str_eq name n then field_as as_number "id" node else none
  ]
]

-- an entity with its own name for its only tag
abbrev pub own : String → EntityInit
own name = record { entity_name = name; meta_names = name ∷ [] }

update_kept :
    (name : String) (xs : Items) (t t' : Table String EntityInit)
    → update_entities xs t ≡ some t'
    → find name t ≡ some (own name)
    → find name t' ≡ some (own name)
unfolding update_entities
update_kept name no_items t t' e h = let same : t ≡ t' = ground arith in rw (← same) h
update_kept name (item node xs) t t' e h =
    let (n, read, rest) = bind-eq-some (field_as as_text "name" node) _ e in
    update_kept name xs (put_sorted n (own n) t) t' rest (
      find-put_sorted n name (own n) t ∙ (elim (Bool-cases (str_eq name n)) [
        | inl same ↦
            let equal : name ≡ n = (eq_iff name n).0 same in
            rw (same) (ap (λ m. some (own m)) (sym equal))
        | inr other ↦ rw (other) h
      ]))

pub update_own :
    (name : String) (id : ℕ) (xs : Items) (t t' : Table String EntityInit)
    → update_entities xs t ≡ some t'
    → number_of name xs ≡ some id
    → find name t' ≡ some (own name)
unfolding update_entities number_of
update_own name id no_items t t' e h = cc
update_own name id (item node xs) t t' e h =
    let (n, read, rest) = bind-eq-some (field_as as_text "name" node) _ e in
    elim (Option-cases (number_of name xs)) [
      | inr (later, found) ↦ update_own name later xs (put_sorted n (own n) t) t' rest found
      | inl last ↦ elim (Bool-cases (str_eq name n)) [
        | inl same ↦
            let equal : name ≡ n = (eq_iff name n).0 same in
            update_kept name xs (put_sorted n (own n) t) t' rest
              (find-put_sorted n name (own n) t ∙ rw (same) (ap (λ m. some (own m)) (sym equal)))
        | inr other ↦ absurd (ground arith)
      ]
    ]

number_of-item :
    (name n : String) (id : ℕ) (node : Node) (xs : Items) (t : Table String ℕ)
    → field_as as_text "name" node ≡ some n
    → field_as as_number "id" node ≡ some id
    → (elim (number_of name xs) [ none ↦ find name (put n id t) | some v ↦ some v ])
      ≡ (elim (number_of name (item node xs)) [ none ↦ find name t | some v ↦ some v ])
unfolding number_of
number_of-item name n id node xs t read read_id = elim (Option-cases (number_of name xs)) [
  | inr (later, found) ↦ rw (found) refl
  | inl last ↦ elim (Bool-cases (str_eq name n)) [
    | inl same ↦ rw (last, read, same, read_id) (find-put n name id t ∙ rw (same) refl)
    | inr other ↦ rw (last, read, other) (find-put n name id t ∙ rw (other) refl)
  ]
]

pub encoding_map-number :
    (name : String) (xs : Items) (f f' : Factory)
    → init_encoding_map xs f ≡ some f'
    → (f'.entity_initializers ≡ f.entity_initializers)
      × (f'.path_map ≡ f.path_map)
      × (find name f'.encoding_map
          ≡ elim (number_of name xs) [ none ↦ find name f.encoding_map | some id ↦ some id ])
unfolding init_encoding_map number_of
encoding_map-number name no_items f f' e = ground arith
encoding_map-number name (item node xs) f f' e =
    let (n, read, rest) = bind-eq-some (field_as as_text "name" node) _ e in
    let (id, read_id, rest') = bind-eq-some (field_as as_number "id" node) _ rest in
    let (entities, paths, number) = encoding_map-number name xs _ f' rest' in
    (entities, paths, number ∙ number_of-item name n id node xs f.encoding_map read read_id)
