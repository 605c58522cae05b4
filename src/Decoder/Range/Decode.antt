-- ===== src/Decoder/Range/Decode.antt =====
-- The ranges of `decode` as a whole, validator/riscv/inst_decoder.cc.
use hope_policy_engine.Prelude.{
  ℕ, List, [], ◌∷◌, ◌++◌, ◌/◌, ◌^◌, ◌<◌, ◌≡◌, ◌⊎◌, some, All, bit_and, bit_or, bit_and-le,
  bit_or-le-add, arith,
}
use hope_policy_engine.Isa.{DecodedInstruction, exists}
use hope_policy_engine.Decoder.Decode.{first_valid, decode_full, decode_compressed, decode}
use hope_policy_engine.Decoder.Range.{InRange, if-InRange, invalid_inst-InRange}
use hope_policy_engine.Decoder.Range.Full.{
  decode_r_type-InRange, decode_i_type-InRange, decode_s_type-InRange, decode_u_type-InRange,
  decode_fp-InRange, decode_system-InRange,
}
use hope_policy_engine.Decoder.Range.Compressed.{
  decode_ci_type-InRange, decode_css_type-InRange, decode_cl_type-InRange, decode_cs_type-InRange,
  decode_cj_type-InRange, decode_cr_type-InRange, decode_cb_type-InRange, decode_ciw_type-InRange,
  decode_ca_type-InRange,
}

first_valid-InRange : (ds : List DecodedInstruction) → All InRange ds → InRange (first_valid ds)
unfolding first_valid
first_valid-InRange [] h = invalid_inst-InRange
first_valid-InRange (d ∷ ds) h = if-InRange (exists d) h.0 (first_valid-InRange ds h.1)

All-append :
    (ds es : List DecodedInstruction) → All InRange ds → All InRange es → All InRange (ds ++ es)
All-append [] es h k = k
All-append (d ∷ ds) es h k = (h.0, All-append ds es h.1 k)

decode_full-InRange : (bits : ℕ) → All InRange (decode_full bits)
unfolding decode_full
decode_full-InRange bits =
    let h7 : bit_and bits 0xfe000000 / 2 ^ 25 < 128 = omega (arith, bit_and-le bits 0xfe000000) in
    let hd : bit_and bits 0xf80 / 2 ^ 7 < 32 = omega (arith, bit_and-le bits 0xf80) in
    let h1 : bit_and bits 0xf8000 / 2 ^ 15 < 32 = omega (arith, bit_and-le bits 0xf8000) in
    let h2 : bit_and bits 0x1f00000 / 2 ^ 20 < 32 = omega (arith, bit_and-le bits 0x1f00000) in
    (
      decode_r_type-InRange _ _ _ hd h1 h2,
      (
        decode_i_type-InRange _ _ _ hd h1,
        (
          decode_s_type-InRange _ _ _ h1 h2,
          (
            decode_u_type-InRange _ _ hd,
            (decode_fp-InRange _ _ _ h7 hd h1 h2, (decode_system-InRange _ _ _ h1 h2, tt)),
          ),
        ),
      ),
    )

decode_compressed-InRange : (xlen bits : ℕ) → All InRange (decode_compressed xlen bits)
unfolding decode_compressed
decode_compressed-InRange xlen bits =
    let hd : bit_and bits 0xf80 / 2 ^ 7 < 32 = omega (arith, bit_and-le bits 0xf80) in
    let h2 : bit_and bits 0x7c / 2 ^ 2 < 32 = omega (arith, bit_and-le bits 0x7c) in
    let hp : bit_or (bit_and bits 0x1c / 2 ^ 2) 0x8 < 32 =
      omega (arith, bit_and-le bits 0x1c, bit_or-le-add (bit_and bits 0x1c / 2 ^ 2) 0x8) in
    let hq : bit_or (bit_and bits 0x380 / 2 ^ 7) 0x8 < 32 =
      omega (arith, bit_and-le bits 0x380, bit_or-le-add (bit_and bits 0x380 / 2 ^ 7) 0x8) in
    (
      decode_ci_type-InRange _ _ _ _ hd,
      (
        decode_css_type-InRange _ _ _ _ h2,
        (
          decode_cl_type-InRange _ _ _ _ hp hq,
          (
            decode_cs_type-InRange _ _ _ _ hq hp,
            (
              decode_cj_type-InRange _ _ _ _,
              (
                decode_cr_type-InRange _ _ _ hd h2,
                (
                  decode_cb_type-InRange _ _ _ _ hq,
                  (decode_ciw_type-InRange _ _ _ _ _, (decode_ca_type-InRange _ _ _ _ hq hp, tt)),
                ),
              ),
            ),
          ),
        ),
      ),
    )

-- For every instruction word and both register widths `decode` returns an instruction, whose registers
-- are below 32, the CSR of a CSR access below 4096, and which has a base register below 32 if it loads
-- or stores.
pub decode-InRange :
    (bits xlen : ℕ)
    → (xlen ≡ 32) ⊎ (xlen ≡ 64)
    → (d : DecodedInstruction) × (decode bits xlen ≡ some d) × InRange d
unfolding decode
decode-InRange bits xlen h =
    let all = decode_full bits ++ decode_compressed xlen bits in
    (
      first_valid all,
      ground arith,
      first_valid-InRange all
          (All-append _ _ (decode_full-InRange bits) (decode_compressed-InRange xlen bits)),
    )
