-- ===== src/Soc/Describes.antt =====
-- The elements that validator/src/soc_tag_configuration.cc reads from a document, against its nodes.
use Prim.Native.String.{String}
use hope_policy_engine.Prelude.{
  ℕ, ◌≡◌, ◌∙◌, refl, sym, ap, subst, ◌/◌, false, List, [], ◌∷◌, Option, none, some, arith, inl, inr,
  Option-cases,
}
use hope_policy_engine.Validator.State.{Platform}
use hope_policy_engine.Factory.{Factory}
use hope_policy_engine.Factory.Lookup.{meaning, Agrees}
use hope_policy_engine.Factory.Apply.{SameNames}
use hope_policy_engine.Factory.MetaSets.{
  StandsFor, StandsFor-Extends, Extends, get_tag-StandsFor, SameNames-trans,
}
use hope_policy_engine.Factory.Yaml.{
  Node, mapping, Pairs, no_pairs, pair, as_text, as_number, as_truth, field, field_as, pairs_of,
}
use hope_policy_engine.Soc.{
  SocElement, Config, configured, refused, ◌>>=◌, converted, field_or, required, process_element,
  process_elements, read_soc, no_root, unreadable,
}

pub bind-eq-configured :
    {A B : Type 0} (m : Config A) (f : A → Config B) {b : B}
    → m >>= f ≡ configured b
    → (a : A) × (m ≡ configured a) × (f a ≡ configured b)
bind-eq-configured (configured a) f h = (a, refl, h)
bind-eq-configured (refused r) f h = absurd (cc h)

pub configured_inj : {A : Type 0} {a b : A} → configured a ≡ configured b → a ≡ b
configured_inj e = cc

required_lem :
    {A : Type 0} (name : String) (convert : Node → Option A) (key : String) (n : Node) (a : A)
    → required name convert key n ≡ configured a
    → field_as convert key n ≡ some a
unfolding required field_or converted
required_lem name convert key n a h = elim (Option-cases (field key n)) [
  | inl broken ↦ absurd (ground arith)
  | inr (none, absent) ↦ absurd (ground arith)
  | inr (some value, present) ↦ elim (Option-cases (convert value)) [
    | inl bad ↦ absurd (ground arith)
    | inr (v, good) ↦ ground arith
  ]
]

module _ (p : Platform) (ms_bit_add : p.MetaSet → ℕ → p.MetaSet) where
  -- An element has the addresses of its node, and a tag that stands for what its name does.
  abbrev Describes : Factory → List p.MetaSet → Node → SocElement → Type 0
  Describes f sets n e =
      (field_as as_number "start" n ≡ some e.start)
      × (field_as as_number "end" n ≡ some e.end)
      × (name : String) × (field_as as_text "name" n ≡ some name)
      × StandsFor p ms_bit_add sets (meaning f name) e.tag

  abbrev pub Described : Factory → List p.MetaSet → Pairs → List SocElement → Type 0
  Described f sets no_pairs [] = Unit
  Described f sets no_pairs (e ∷ es) = ⊥
  Described f sets (pair key n pairs) [] = ⊥
  Described f sets (pair key n pairs) (e ∷ es) = Describes f sets n e × Described f sets pairs es

  process_element-Describes :
      (key : String) (n : Node) (xlen : ℕ) (f : Factory) (sets : List p.MetaSet)
      (r : SocElement × Factory × List p.MetaSet)
      → Agrees f
      → process_element p ms_bit_add key n xlen f sets ≡ configured r
      → Describes f r.2 n r.0 × SameNames f r.1 × Extends p ms_bit_add sets r.2
  unfolding process_element
  process_element-Describes key n xlen f sets r agrees h =
      let (name, named, h1) = bind-eq-configured (required key as_text "name" n) _ h in
      let (g, _, h2) =
        bind-eq-configured (field_or (configured (xlen / 8)) as_number "tag_granularity" n) _ h1 in
      let (start, started, h3) = bind-eq-configured (required key as_number "start" n) _ h2 in
      let (end, ended, h4) = bind-eq-configured (required key as_number "end" n) _ h3 in
      let (many, _, h5) =
        bind-eq-configured (field_or (configured false) as_truth "heterogeneous" n) _ h4 in
      let (stands, same, more) = get_tag-StandsFor p ms_bit_add name f sets agrees in
      subst (λ q. Describes f q.2 n q.0 × SameNames f q.1 × Extends p ms_bit_add sets q.2)
        (configured_inj h5)
        (
          (
            required_lem key as_number "start" n start started,
            required_lem key as_number "end" n end ended,
            name,
            required_lem key as_text "name" n name named,
            stands,
          ),
          same,
          more,
        )

  Describes-Extends :
      (f g : Factory) (sets sets' : List p.MetaSet) (n : Node) (e : SocElement)
      → ((q : String) → meaning g q ≡ meaning f q)
      → Extends p ms_bit_add sets sets'
      → Describes g sets n e
      → Describes f sets' n e
  Describes-Extends f g sets sets' n e same more (started, ended, name, named, stands) = (
    started,
    ended,
    name,
    named,
    StandsFor-Extends p ms_bit_add sets sets' (meaning f name) e.tag more
        (subst (λ o. StandsFor p ms_bit_add sets o e.tag) (same name) stands),
  )

  pub Described-same :
      (f g : Factory) (sets : List p.MetaSet) (pairs : Pairs) (es : List SocElement)
      → ((q : String) → meaning g q ≡ meaning f q)
      → Described g sets pairs es
      → Described f sets pairs es
  Described-same f g sets no_pairs [] same d = tt
  Described-same f g sets no_pairs (e ∷ es) same d = d
  Described-same f g sets (pair key n pairs) [] same d = d
  Described-same f g sets (pair key n pairs) (e ∷ es) same (d, ds) = (
    Describes-Extends f g sets sets n e same (λ t m h. h) d,
    Described-same f g sets pairs es same ds,
  )

  process_elements-Described :
      (pairs : Pairs) (xlen : ℕ) (f : Factory) (sets : List p.MetaSet)
      (r : List SocElement × Factory × List p.MetaSet)
      → Agrees f
      → process_elements p ms_bit_add pairs xlen f sets ≡ configured r
      → Described f r.2 pairs r.0 × SameNames f r.1 × Extends p ms_bit_add sets r.2
  unfolding process_elements
  process_elements-Described no_pairs xlen f sets r agrees h =
      subst (λ q. Described f q.2 no_pairs q.0 × SameNames f q.1 × Extends p ms_bit_add sets q.2)
        (configured_inj h) (tt, (agrees, λ q. refl), λ t m found. found)
  process_elements-Described (pair key n pairs) xlen f sets r agrees h =
      let ((e, g, sets1), first, h1) =
        bind-eq-configured (process_element p ms_bit_add key n xlen f sets) _ h in
      let ((es, g', sets2), later, h2) =
        bind-eq-configured (process_elements p ms_bit_add pairs xlen g sets1) _ h1 in
      let (d, same, more) =
        process_element-Describes key n xlen f sets (e, g, sets1) agrees first in
      let (ds, same', more') =
        process_elements-Described pairs xlen g sets1 (es, g', sets2) same.0 later in
      subst
        (λ q.
          Described f q.2 (pair key n pairs) q.0 × SameNames f q.1 × Extends p ms_bit_add sets q.2)
        (configured_inj h2)
        (
          (
            Describes-Extends f f sets1 sets2 n e (λ q. refl) more' d,
            Described-same f g sets2 pairs es same.1 ds,
          ),
          SameNames-trans p ms_bit_add f g g' same same',
          λ t m found. more' t m (more t m found),
        )

  -- With a `path_map` that has what the names stand for, a document that is read gives an element for each
  -- pair under "SOC", in order, with the addresses of its node and a tag that stands, among the metadata sets
  -- at the end, for what its name does. All names stand for what they did, and all tags for their sets.
  pub read_soc-Described :
      (soc : Node) (pairs : Pairs) (xlen : ℕ) (f : Factory) (sets : List p.MetaSet)
      (r : List SocElement × Factory × List p.MetaSet)
      → Agrees f
      → field "SOC" soc ≡ some (some (mapping pairs))
      → read_soc p ms_bit_add soc xlen f sets ≡ configured r
      → Described f r.2 pairs r.0 × SameNames f r.1 × Extends p ms_bit_add sets r.2
  unfolding read_soc converted
  read_soc-Described soc pairs xlen f sets r agrees listed h =
      process_elements-Described pairs xlen f sets r agrees (
        sym (
          ap
            (λ o. elim o [
              | none ↦ refused unreadable
              | some none ↦ refused no_root
              | some (some node) ↦
                  converted (pairs_of (some node))
                  >>= (λ ps. process_elements p ms_bit_add ps xlen f sets)
            ])
            listed)
        ∙ h)
