-- ===== src/Factory/Names.antt =====
-- Names of tags in validator/src/metadata_factory.cc: texts with dots. Their positions are counted in
-- characters.
use Prim.Native.Char.{Char, code}
use Prim.Native.String.{String}
use hope_policy_engine.Prelude.{
  ℕ, suc, ◌==◌, Bool, true, false, ◌&&◌, if◌then◌else◌, Option, none, some,
}

abbrev dot : ℕ
dot = 46

unfoldable pub is_dot : Char → Bool
is_dot c = code c == dot

-- `rfind('.')` finds one.
unfoldable pub has_dot : String → Bool
has_dot String.[] = false
has_dot (String.◌∷◌ c s) = elim (is_dot c) [ true ↦ true | false ↦ has_dot s ]

-- what follows the last dot, or the whole name
unfoldable pub abbreviate : String → String
abbreviate String.[] = String.[]
abbreviate (String.◌∷◌ c s) =
    let rest = abbreviate s in if has_dot s then rest else if is_dot c then s else String.◌∷◌ c s

unfoldable pub starts_with : String → String → Bool
starts_with String.[] s = true
starts_with (String.◌∷◌ c t) String.[] = false
starts_with (String.◌∷◌ c t) (String.◌∷◌ d s) = code c == code d && starts_with t s

-- `s.rfind(t)`: where the last occurrence of `t` begins
unfoldable pub last_occurrence : String → String → Option ℕ
last_occurrence t String.[] = if starts_with t String.[] then some 0 else none
last_occurrence t (String.◌∷◌ c s) =
    let rest = last_occurrence t s in
    elim rest [
      | some i ↦ some (suc i)
      | none ↦ if starts_with t (String.◌∷◌ c s) then some 0 else none
    ]
