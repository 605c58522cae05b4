-- ===== src/Factory/Load/Groups.antt =====
-- The groups of policy_group.yml leave the entities and the numbers of validator/src/metadata_factory.cc
-- as policy_init.yml and policy_meta.yml made them.
use Prim.Native.String.{String}
use hope_policy_engine.Prelude.{
  ℕ, ◌≡◌, ◌∙◌, refl, sym, ap, subst, [], ◌∷◌, Option, none, some, arith,
}
use hope_policy_engine.RuleCache.Table.{Table, find}
use hope_policy_engine.Tagging.TagFile.Metadata.{Metadata, insert_meta, insert_all}
use hope_policy_engine.Factory.{name_key, meta_key, EntityInit, Factory, lookup_metadata}
use hope_policy_engine.Factory.Lookup.{
  code_of, codes_of, meaning, Agrees, SameCodes, encoding_lem, lookup_metadata-Faithful,
}
use hope_policy_engine.Factory.Yaml.{
  Node, Items, Pairs, null, scalar, sequence, mapping, no_items, item, no_pairs, pair, field, items,
  pairs_of,
}
use hope_policy_engine.Factory.Load.{
  update_entities, init_encoding_map, read_rules, last_pair, update_rule_map, init_group,
  init_groups, init_entities, empty_factory, load,
}
use hope_policy_engine.Factory.Load.Numbers.{
  bind-eq-some, own, number_of, update_own, encoding_map-number,
}

some_inj : {A : Type 0} {a b : A} → some a ≡ some b → a ≡ b
some_inj e = cc

none-some : {A : Type 0} {a : A} → ¬ (none ≡ some a)
none-some e = cc

-- the same entities, the same results of look-ups, and the same numbers
abbrev Kept : Factory → Factory → Type 0
Kept f f' =
    (f'.entity_initializers ≡ f.entity_initializers)
    × (f'.path_map ≡ f.path_map)
    × SameCodes f.encoding_map f'.encoding_map

Kept-trans : (f g h : Factory) → Kept f g → Kept g h → Kept f h
Kept-trans f g h (e, p, c) (e', p', c') = (e' ∙ e, p' ∙ p, λ name. c' name ∙ c name)

rule_map-Kept :
    (key : String) (pairs : Pairs) (f f' : Factory)
    → update_rule_map key pairs f ≡ some f'
    → Kept f f'
unfolding update_rule_map
rule_map-Kept key pairs f f' e =
    let (xs, _, e') = bind-eq-some (items (last_pair pairs "" none).1) _ e in
    let (rules, _, e'') = bind-eq-some (read_rules xs) _ e' in
    let (_, same) = encoding_lem (last_pair pairs "" none).0 f.encoding_map in
    subst (Kept f) (some_inj e'') (refl, refl, same)

group-Kept :
    (key : String) (xs : Items) (md : Metadata) (f : Factory) (r : Metadata × Factory)
    → init_group key xs md f ≡ some r
    → Kept f r.1
unfolding init_group
group-Kept key no_items md f r e = subst (λ q. Kept f q.1) (some_inj e) (refl, refl, λ n. refl)
group-Kept key (item (scalar name number truth) xs) md f r e =
    let (_, same) = encoding_lem name f.encoding_map in
    let (entities, paths, codes) = group-Kept key xs _ _ r e in
    (entities, paths, λ n. codes n ∙ same n)
group-Kept key (item (mapping pairs) xs) md f r e =
    let (g, first, e') = bind-eq-some (update_rule_map key pairs f) _ e in
    Kept-trans f g r.1 (rule_map-Kept key pairs f g first) (group-Kept key xs md g r e')
group-Kept key (item null xs) md f r e = group-Kept key xs md f r e
group-Kept key (item (sequence ys) xs) md f r e = group-Kept key xs md f r e

groups-Kept : (pairs : Pairs) (f f' : Factory) → init_groups pairs f ≡ some f' → Kept f f'
unfolding init_groups
groups-Kept no_pairs f f' e = subst (Kept f) (some_inj e) (refl, refl, λ n. refl)
groups-Kept (pair key node pairs) f f' e =
    let (xs, _, e') = bind-eq-some (items (some node)) _ e in
    let (r, first, e'') = bind-eq-some (init_group key xs [] f) _ e' in
    let (entities, paths, codes) = group-Kept key xs [] f r first in
    let (entities', paths', codes') = groups-Kept pairs _ f' e'' in
    (entities' ∙ entities, paths' ∙ paths, λ n. codes' n ∙ codes n)

insert_one : (id : ℕ) → insert_all (id ∷ []) [] ≡ id ∷ []
unfolding insert_all insert_meta
insert_one id = refl

code_of-found :
    (map : Table String ℕ) (name : String) (id : ℕ)
    → find name map ≡ some id
    → code_of map name ≡ id
unfolding code_of
code_of-found map name id found = ground arith

meaning-own :
    (f : Factory) (name : String) (id : ℕ)
    → find name f.entity_initializers ≡ some (own name)
    → code_of f.encoding_map name ≡ id
    → meaning f name ≡ some (id ∷ [])
unfolding meaning codes_of
meaning-own f name id owned code =
    ap
      (λ m. elim m [
        | none ↦ none
        | some init ↦ some (insert_all (codes_of f.encoding_map init.meta_names) [])
      ])
      owned
    ∙ ap (λ c. some (insert_all (c ∷ []) [])) code
    ∙ ap some (insert_one id)

named_lem :
    (xs : Items) (name : String) (id : ℕ) (t t' : Table String EntityInit) (g f : Factory)
    → update_entities xs t ≡ some t'
    → init_encoding_map xs (record empty_factory { entity_initializers = t' }) ≡ some g
    → Kept g f
    → number_of name xs ≡ some id
    → (meaning f name ≡ some (id ∷ [])) × (f.path_map ≡ [])
named_lem xs name id t t' g f updated encoded (entities, paths, codes) numbered =
    let (entities', paths', number) = encoding_map-number name xs _ g encoded in
    let owned : find name f.entity_initializers ≡ some (own name) =
      ap (find name) (entities ∙ entities') ∙ update_own name id xs t t' updated numbered in
    let code : code_of f.encoding_map name ≡ id =
      codes name
      ∙ code_of-found g.encoding_map name id (
          number
          ∙ ap (λ m. elim m [ none ↦ find name empty_factory.encoding_map | some v ↦ some v ])
              numbered) in
    (meaning-own f name id owned code, paths ∙ paths')

-- the steps of the constructor that the names of the metadata go through
steps_of :
    (reqs meta group : Node) (f : Factory)
    → load reqs meta group ≡ some f
    → (metadata : Option Node) × (xs : Items) × (t : Table String EntityInit) × (t' : Table String
        EntityInit)
      × (g : Factory) × (field "Metadata" meta ≡ some metadata)
      × (items metadata ≡ some xs)
      × (update_entities xs t ≡ some t')
      × (init_encoding_map xs (record empty_factory { entity_initializers = t' }) ≡ some g)
      × Kept g f
unfolding load
steps_of reqs meta group f loaded =
    let (require, _, e1) = bind-eq-some (field "Require" reqs) _ loaded in
    let (t, _, e2) =
      bind-eq-some (elim require [ none ↦ some [] | some node ↦ init_entities node "" [] ]) _ e1 in
    let (metadata, listed, e3) = bind-eq-some (field "Metadata" meta) _ e2 in
    let (xs, are_items, e4) = bind-eq-some (items metadata) _ e3 in
    let (t', updated, e5) = bind-eq-some (update_entities xs t) _ e4 in
    let (g, encoded, e6) =
      bind-eq-some (init_encoding_map xs (record empty_factory { entity_initializers = t' })) _
        e5 in
    let (groups, _, e7) = bind-eq-some (field "Groups" group) _ e6 in
    let (pairs, _, e8) = bind-eq-some (pairs_of groups) _ e7 in
    (metadata, xs, t, t', g, listed, are_items, updated, encoded, groups-Kept pairs g f e8)

-- After the three documents are loaded, looking up a name of policy_meta.yml gives its number, whatever
-- else the documents have under that name; and `path_map` has what the names stand for.
pub lookup_metadata-load :
    (reqs meta group : Node) (f : Factory) (xs : Items) (name : String) (id : ℕ)
    → load reqs meta group ≡ some f
    → field "Metadata" meta ≡ some (some (sequence xs))
    → number_of name xs ≡ some id
    → ((lookup_metadata name f).0 ≡ some (id ∷ [])) × Agrees f
unfolding find
lookup_metadata-load reqs meta group f xs name id loaded listed numbered =
    from_steps (steps_of reqs meta group f loaded)
  where
    from_steps :
        (metadata : Option Node) × (ys : Items) × (t : Table String EntityInit) × (t' : Table String
            EntityInit)
          × (g : Factory) × (field "Metadata" meta ≡ some metadata)
          × (items metadata ≡ some ys)
          × (update_entities ys t ≡ some t')
          × (init_encoding_map ys (record empty_factory { entity_initializers = t' }) ≡ some g)
          × Kept g f
        → ((lookup_metadata name f).0 ≡ some (id ∷ [])) × Agrees f
    from_steps (metadata, ys, t, t', g, is_listed, are_items, updated, encoded, kept) =
        let same : xs ≡ ys = some_inj (ap items (some_inj (sym listed ∙ is_listed)) ∙ are_items) in
        let (means, no_paths) =
          named_lem ys name id t t' g f updated encoded kept
            (ap (number_of name) (sym same) ∙ numbered) in
        let agrees : Agrees f =
          λ path md found. absurd (none-some (sym (ap (find path) no_paths) ∙ found)) in
        ((lookup_metadata-Faithful name f agrees).0 ∙ means, agrees)
