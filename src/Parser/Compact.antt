-- ===== src/Parser/Compact.antt =====
-- `encode_compact_u16` and `decode_compact_u16` of parser.rs: one to three bytes of seven bits
-- each, the lowest first, with the top bit set on every byte but the last.
pub mod Decode
pub mod Sound
pub mod Encode
use kv260_sigverify.Prelude.{
  ℕ, zero, suc, ◌+◌, ◌-◌, ◌*◌, ◌/◌, ◌%◌, ◌^◌, List, [], ◌∷◌, ◌++◌, Bool, true, false, Option, none,
  some, Outcome, ok, err, bit_and, bit_or, ltb, ◌==◌, if◌then◌else◌, get_elem?,
}
use kv260_sigverify.Parser.Types.{Parse, parse_error}

-- The rounds of `loop`: `remaining >>= 7` is `/ 2 ^ 7`. A `u16` is used up after three rounds, and
-- the rounds left stand for that bound.
encode_loop : ℕ → ℕ → List ℕ → List ℕ
encode_loop zero remaining encoded = encoded
encode_loop (suc rounds) remaining encoded =
    let byte = bit_and remaining 0x7f % 2 ^ 8 in
    let next = remaining / 2 ^ 7 in
    let rest = encode_loop rounds next (encoded ++ (bit_or byte 0x80 ∷ [])) in
    if next == 0 then encoded ++ (byte ∷ []) else rest

unfoldable pub encode_compact_u16 : ℕ → List ℕ
unfolding encode_loop
encode_compact_u16 value = encode_loop 3 value []

-- `value |= ((byte & 0x7f) as u32) << shift`, on 32 bits
abbrev pub add_group : ℕ → ℕ → ℕ → ℕ
add_group value byte shift = bit_or value (bit_and byte 0x7f * 2 ^ shift % 2 ^ 32)

-- The body of `for _ in 0..3`, with the rounds left.
unfoldable pub decode_loop : List ℕ → ℕ → ℕ → ℕ → ℕ → Parse (ℕ × ℕ)
decode_loop bytes zero offset value shift = err (parse_error "compact-u16 exceeds 3 bytes")
decode_loop bytes (suc rounds) offset value shift = elim (get_elem? bytes offset) [
  | none ↦ err (parse_error "truncated compact-u16")
  | some byte ↦ elim (bit_and byte 0x80 == 0) [
    | true ↦
        if ltb (2 ^ 16 - 1) (add_group value byte shift)
        then err (parse_error "compact-u16 overflow")
        else ok (add_group value byte shift % 2 ^ 16, offset + 1)
    | false ↦ decode_loop bytes rounds (offset + 1) (add_group value byte shift) (shift + 7)
  ]
]

unfoldable pub decode_compact_u16 : List ℕ → ℕ → Parse (ℕ × ℕ)
unfolding decode_loop
decode_compact_u16 bytes offset = decode_loop bytes 3 offset 0 0
