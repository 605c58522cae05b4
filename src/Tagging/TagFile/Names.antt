-- ===== src/Tagging/TagFile/Names.antt =====
-- Names of registers and CSRs in tagging_tools/tag_file.cc, as the lists of their characters.
use hope_policy_engine.Prelude.{
  ℕ, ◌==◌, Bool, true, false, ◌||◌, ◌&&◌, if◌then◌else◌, List, [], ◌∷◌, Option, none, some,
}

-- `std::string`
abbrev pub Name : Type 0
Name = List ℕ

unfoldable pub name_eq : Name → Name → Bool
name_eq [] [] = true
name_eq [] (d ∷ t) = false
name_eq (c ∷ s) [] = false
name_eq (c ∷ s) (d ∷ t) = c == d && name_eq s t

abbrev dot : ℕ
dot = 46

unfoldable pub has_dot : Name → Bool
has_dot [] = false
has_dot (c ∷ s) = c == dot || has_dot s

-- `name.substr(name.find_last_of(".") + 1)`; without a dot the position wraps around to 0.
unfoldable pub after_last_dot : Name → Name
after_last_dot [] = []
after_last_dot (c ∷ s) =
    let rest = after_last_dot s in if has_dot s then rest else if c == dot then s else c ∷ s

-- `register_name_map` or `csr_name_map`, in its order
abbrev pub NameMap : Type 0
NameMap = List (Name × ℕ)

-- `find` and `at`
unfoldable pub value_of : Name → NameMap → Option ℕ
value_of name [] = none
value_of name ((key, value) ∷ table) = if name_eq key name then some value else value_of name table

-- `std::find_if` with the value
unfoldable pub name_of : ℕ → NameMap → Option Name
name_of value [] = none
name_of value ((key, v) ∷ table) = if v == value then some key else name_of value table
