-- ===== src/Tagging/TagFile/Write.antt =====
-- Numbers and sequences written to a tag file, tagging_tools/tag_file.cc and uleb.h. The stream takes
-- every byte.
use hope_policy_engine.Prelude.{
  ℕ, zero, suc, ◌+◌, ◌/◌, ◌%◌, ◌^◌, ◌-◌, ◌==◌, ltb, if◌then◌else◌, List, [], ◌∷◌, ◌++◌, bit_and,
  bit_or,
}
use hope_policy_engine.Tagging.Uleb.{write_uleb}

-- The end of a function that writes: the value, the exception for an unknown name, or a loop that does not
-- end.
pub data Save (A : Type 0) : Type 0 where
  saved : A → Save A
  unknown_name : Save A
  endless : Save A

infixl 5 ◌>>=◌
abbrev pub ◌>>=◌ : {A B : Type 0} → Save A → (A → Save B) → Save B
saved a >>= f = f a
unknown_name >>= f = unknown_name
endless >>= f = endless

-- `write_uleb<T>` on a value converted to the unsigned type `T` of the width
unfoldable pub write_number : ℕ → ℕ → List ℕ
write_number width value = write_uleb (value % 2 ^ width)

-- `value >>= 7` on an `int32_t`, which is kept as its 32-bit pattern
unfoldable pub shift_int32 : ℕ → ℕ
shift_int32 value = if ltb value (2 ^ 31) then value / 2 ^ 7 else value / 2 ^ 7 + (2 ^ 32 - 2 ^ 25)

-- The loop of `write_uleb<int32_t>`, on fuel.
unfoldable pub write_int32_from : ℕ → ℕ → Save (List ℕ)
write_int32_from zero value = endless
write_int32_from (suc fuel) value =
    let b = bit_and value 0x7f in
    let rest = write_int32_from fuel (shift_int32 value) in
    if shift_int32 value == 0
    then saved (b ∷ [])
    else (do bytes ← rest; saved (bit_or b 0x80 ∷ bytes))

-- Five bytes hold every value that is not negative.
unfoldable pub write_int32 : ℕ → Save (List ℕ)
write_int32 value = write_int32_from 5 value

-- what some writes in turn leave in the file
abbrev pub in_turn : List (List ℕ) → List ℕ
in_turn [] = []
in_turn (w ∷ []) = w
in_turn (w ∷ v ∷ ws) = w ++ in_turn (v ∷ ws)

-- a loop that writes every member
unfoldable pub write_all : {A : Type 0} → (A → List ℕ) → List A → List ℕ
write_all write [] = []
write_all write (x ∷ xs) = write x ++ write_all write xs
