-- ===== src/Parser/Compact/Encode.antt =====
-- `encode_compact_u16` writes the shortest encoding, which decodes to the number.
use kv260_sigverify.Prelude.{
  ℕ, ◌+◌, ◌/◌, ◌%◌, ◌^◌, ◌≤◌, ◌<◌, ◌≡◌, refl, List, [], ◌∷◌, ◌++◌, ok, arith, length, bit_and,
  bit_or, ltb, if◌then◌else◌,
}
use kv260_sigverify.Prelude.Bits.{bit_and_mask127, bit_or_above}
use kv260_sigverify.Parser.Compact.{encode_compact_u16, decode_compact_u16}
use kv260_sigverify.Parser.Compact.Decode.{IsCompact, one, two, three, decode-IsCompact}
use kv260_sigverify.Parser.Place.{At}
use native.Mathlib.Decide.{dec_lt}

inner_group : (v : ℕ) → bit_or (bit_and v 0x7f % 2 ^ 8) 0x80 ≡ v % 128 + 128
inner_group v = ground (arith, bit_and_mask127 v, bit_or_above 7 (v % 128) 1 (omega arith))

-- The bytes that `encode_compact_u16` writes, in plain arithmetic.
encode_eq :
    (v : ℕ)
    → v < 2 ^ 16
    → encode_compact_u16 v ≡ (
        if ltb v 128
        then v ∷ []
        else (if ltb v 16384
            then (v % 128 + 128) ∷ (v / 128) ∷ []
            else (v % 128 + 128) ∷ (v / 128 % 128 + 128) ∷ (v / 16384) ∷ []))
unfolding encode_compact_u16
encode_eq v h = ground (
  arith,
  bit_and_mask127 v,
  bit_and_mask127 (v / 128),
  bit_and_mask127 (v / 128 / 128),
  inner_group v,
  inner_group (v / 128),
)

pub encode-IsCompact : (v : ℕ) → v < 2 ^ 16 → IsCompact v (encode_compact_u16 v)
encode-IsCompact v h = elim (dec_lt v 128) [
  | yes small ↦ one v small refl (ground (arith, encode_eq v h))
  | no above ↦ elim (dec_lt v 16384) [
    | yes medium ↦
        two (v % 128) (v / 128) (omega arith) (omega arith) (omega arith)
          (ground (arith, encode_eq v h))
    | no large ↦
        three (v % 128) (v / 128 % 128) (v / 16384) (omega arith) (omega arith) (omega arith)
          (omega arith) (ground (arith, encode_eq v h))
  ]
]

-- For every 16-bit `v`, the bytes that `encode_compact_u16` writes for it decode, at whatever offset
-- they stand and whatever follows them, to `v` and the offset right behind them.
pub decode-encode :
    (bytes : List ℕ) (offset v : ℕ) (rest : List ℕ)
    → v < 2 ^ 16
    → At bytes offset (encode_compact_u16 v ++ rest)
    → decode_compact_u16 bytes offset ≡ ok (v, offset + length (encode_compact_u16 v))
decode-encode bytes offset v rest h at =
    decode-IsCompact bytes offset v _ rest h (encode-IsCompact v h) at

-- For every 16-bit `v`, `encode_compact_u16` writes one to three bytes, and no encoding of `v` is
-- shorter.
pub encode_shortest :
    (v : ℕ) (enc : List ℕ)
    → v < 2 ^ 16
    → IsCompact v enc
    → (length (encode_compact_u16 v) ≤ length enc)
      × (1 ≤ length (encode_compact_u16 v))
      × (length (encode_compact_u16 v) ≤ 3)
encode_shortest v enc h (one a ha hv he) = ground (arith, encode_eq v h, he, hv)
encode_shortest v enc h (two a b ha hb hv he) = ground (arith, encode_eq v h, he, hv)
encode_shortest v enc h (three a b c ha hb hc hv he) = ground (arith, encode_eq v h, he, hv)
