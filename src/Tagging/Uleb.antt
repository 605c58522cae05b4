-- ===== src/Tagging/Uleb.antt =====
-- `read_uleb` and `write_uleb` of tagging_tools/uleb.h: numbers of variable length, seven bits to the
-- byte, the lowest first. The file is the list of its bytes; `width` is that of the type `T`.
pub mod Digits
pub mod RoundTrip
use hope_policy_engine.Prelude.{
  ℕ, zero, suc, ◌+◌, ◌*◌, ◌/◌, ◌%◌, ◌^◌, ◌==◌, if◌then◌else◌, List, [], ◌∷◌, Option, none, some,
  bit_and, bit_or,
}

-- The loop of `read_uleb`: the value, how many bytes it took, and the bytes that follow. A file that ends
-- within a number gives 0 bytes read, which is `none`.
unfoldable pub read_from : ℕ → ℕ → ℕ → List ℕ → Option (ℕ × ℕ × List ℕ)
read_from width shift value [] = none
read_from width shift value (b ∷ bytes) =
    let value' = bit_or value (bit_and b 0x7f * 2 ^ shift % 2 ^ width) in
    let rest = read_from width (shift + 7) value' bytes in
    if bit_and b 0x80 == 0 then some (value', (shift + 7) / 7, bytes) else rest

unfoldable pub read_uleb : ℕ → List ℕ → Option (ℕ × ℕ × List ℕ)
read_uleb width bytes = read_from width 0 0 bytes

-- The loop of `write_uleb`, on fuel.
unfoldable pub write_from : ℕ → ℕ → List ℕ
write_from zero value = []
write_from (suc fuel) value =
    let b = bit_and value 0x7f in
    let rest = write_from fuel (value / 2 ^ 7) in
    if value / 2 ^ 7 == 0 then b ∷ [] else bit_or b 0x80 ∷ rest

-- The value falls with every byte, so the fuel is enough.
unfoldable pub write_uleb : ℕ → List ℕ
write_uleb value = write_from (suc value) value
