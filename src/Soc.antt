-- ===== src/Soc.antt =====
-- `soc_tag_configuration_t` of validator/src/soc_tag_configuration.cc and
-- validator/include/soc_tag_configuration.h: the elements of the SOC document, and the tag bus that they
-- make.
pub mod Elements
pub mod Reads
pub mod Describes
pub mod Boot
use Prim.Native.String.{String}
use hope_policy_engine.Prelude.{
  ℕ, ◌+◌, ◌-◌, ◌/◌, ◌%◌, ◌^◌, Bool, true, false, if◌then◌else◌, List, [], ◌∷◌, ◌++◌, Option, none,
  some,
}
use hope_policy_engine.Tags.Provider.{Provider, uniform, new_ram}
use hope_policy_engine.Tags.Bus.{Bus, add_provider}
use hope_policy_engine.Validator.State.{Platform}
use hope_policy_engine.Factory.{Factory}
use hope_policy_engine.Factory.MetaSets.{get_tag}
use hope_policy_engine.Factory.Yaml.{
  Node, Pairs, no_pairs, pair, as_text, as_number, as_truth, field, pairs_of,
}

pub record SocElement : Type 0 where
  pub start : ℕ
  pub end : ℕ
  pub heterogeneous : Bool
  pub tag_granularity : ℕ
  pub word_size : ℕ
  pub tag : ℕ

-- The configuration exceptions, the first with the field and the element, and an exception of yaml-cpp.
pub data Refusal : Type 0 where
  no_field : String → String → Refusal
  no_root : Refusal
  unreadable : Refusal

pub data Config (A : Type 0) : Type 0 where
  configured : A → Config A
  refused : Refusal → Config A

infixl 5 ◌>>=◌
abbrev pub ◌>>=◌ : {A B : Type 0} → Config A → (A → Config B) → Config B
configured a >>= f = f a
refused r >>= f = refused r

unfoldable pub converted : {A : Type 0} → Option A → Config A
converted none = refused unreadable
converted (some a) = configured a

-- `if (n[key]) { ... n[key].as<T>() } else { ... }`
unfoldable pub field_or : {A : Type 0} → Config A → (Node → Option A) → String → Node → Config A
field_or otherwise convert key n = elim (field key n) [
  | none ↦ refused unreadable
  | some none ↦ otherwise
  | some (some value) ↦ converted (convert value)
]

unfoldable pub required : {A : Type 0} → String → (Node → Option A) → String → Node → Config A
required element_name convert key n = field_or (refused (no_field key element_name)) convert key n

-- `apply`: a heterogeneous element has a tag for each word, another has one tag.
unfoldable pub provider_of : SocElement → Provider
provider_of e =
    let size = (e.end + 2 ^ 64 - e.start) % 2 ^ 64 in
    if e.heterogeneous
    then new_ram size e.tag e.word_size e.tag_granularity
    else uniform size e.tag e.tag_granularity

unfoldable pub apply : List SocElement → Bus → Bus
apply [] bus = bus
apply (e ∷ es) bus = apply es (add_provider e.start (provider_of e) bus)

module _ (p : Platform) (ms_bit_add : p.MetaSet → ℕ → p.MetaSet) where
  -- With the element, what the call leaves of the factory and the metadata sets.
  unfoldable pub process_element :
      String → Node → ℕ → Factory → List p.MetaSet → Config (SocElement × Factory × List p.MetaSet)
  process_element element_name n xlen f sets = do
    elt_path ← required element_name as_text "name" n
    tag_granularity ← field_or (configured (xlen / 8)) as_number "tag_granularity" n
    start ← required element_name as_number "start" n
    end ← required element_name as_number "end" n
    heterogeneous ← field_or (configured false) as_truth "heterogeneous" n
    (let t = get_tag p ms_bit_add elt_path f sets in
        configured (
          record {
            start = start;
            end = end;
            heterogeneous = heterogeneous;
            tag_granularity = tag_granularity;
            word_size = xlen / 8;
            tag = t.0;
          },
          t.1,
          t.2,
        ))

  unfoldable pub process_elements :
      Pairs → ℕ → Factory → List p.MetaSet → Config (List SocElement × Factory × List p.MetaSet)
  process_elements no_pairs xlen f sets = configured ([], f, sets)
  process_elements (pair key n pairs) xlen f sets = do
    r ← process_element key n xlen f sets
    rs ← process_elements pairs xlen r.1 r.2
    configured (r.0 ∷ rs.0, rs.1, rs.2)

  -- the constructor, on the document
  unfoldable pub read_soc :
      Node → ℕ → Factory → List p.MetaSet → Config (List SocElement × Factory × List p.MetaSet)
  read_soc n xlen f sets = elim (field "SOC" n) [
    | none ↦ refused unreadable
    | some none ↦ refused no_root
    | some (some soc) ↦ do
      pairs ← converted (pairs_of (some soc))
      process_elements pairs xlen f sets
  ]
