-- ===== src/Factory/Yaml.antt =====
-- Documents as yaml-cpp gives them to metadata_factory.cc and soc_tag_configuration.cc of validator/src: a
-- scalar has its text, and the number and the truth value that it converts to, if it does. A mapping has
-- texts for keys. `none` is an exception of the library.
use Prim.Native.String.{String}
use text.Mathlib.Text.{◌==◌ as str_eq}
use hope_policy_engine.Prelude.{ℕ, Bool, if◌then◌else◌, Option, none, some}

mutual
  pub data Node : Type 0 where
    null : Node
    scalar : String → Option ℕ → Option Bool → Node
    sequence : Items → Node
    mapping : Pairs → Node

  pub data Items : Type 0 where
    no_items : Items
    item : Node → Items → Items

  pub data Pairs : Type 0 where
    no_pairs : Pairs
    pair : String → Node → Pairs → Pairs

-- `as<std::string>()`, and to a number and a truth value
abbrev pub as_text : Node → Option String
as_text (scalar text number truth) = some text
as_text _ = none

abbrev pub as_number : Node → Option ℕ
as_number (scalar text number truth) = number
as_number _ = none

abbrev pub as_truth : Node → Option Bool
as_truth (scalar text number truth) = truth
as_truth _ = none

abbrev pub find_pair : String → Pairs → Option Node
find_pair key no_pairs = none
find_pair key (pair k node pairs) =
    let rest = find_pair key pairs in if str_eq k key then some node else rest

-- `node[key]` for a text: the inner `none` is an undefined node, which is false in a condition, and the
-- outer one the exception on a scalar.
abbrev pub field : String → Node → Option (Option Node)
field key (mapping pairs) = some (find_pair key pairs)
field key (scalar text number truth) = none
field key _ = some none

-- the elements that a loop over a node goes through, and the pairs; a node that is neither has none
abbrev pub items : Option Node → Option Items
items none = some no_items
items (some (sequence xs)) = some xs
items (some (mapping no_pairs)) = some no_items
items (some (mapping (pair key node pairs))) = none
items _ = some no_items

abbrev pub pairs_of : Option Node → Option Pairs
pairs_of none = some no_pairs
pairs_of (some (mapping pairs)) = some pairs
pairs_of (some (sequence no_items)) = some no_pairs
pairs_of (some (sequence (item node xs))) = none
pairs_of _ = some no_pairs

infixl 5 ◌>>=◌
abbrev pub ◌>>=◌ : {A B : Type 0} → Option A → (A → Option B) → Option B
none >>= f = none
some a >>= f = f a

-- `node[key].as<T>()`, for a conversion
abbrev pub field_as : {A : Type 0} → (Node → Option A) → String → Node → Option A
field_as convert key node = elim (field key node) [
  | none ↦ none
  | some none ↦ none
  | some (some value) ↦ convert value
]
