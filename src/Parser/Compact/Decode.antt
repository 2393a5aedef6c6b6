-- ===== src/Parser/Compact/Decode.antt =====
-- `decode_compact_u16` against the format: exactly which bytes decode, and to what.
use kv260_sigverify.Prelude.{
  ℕ, suc, ◌+◌, ◌*◌, ◌%◌, ◌^◌, ◌≤◌, ◌<◌, ◌≡◌, List, [], ◌∷◌, ◌++◌, some, ok, arith, length,
  get_elem?,
}
use native.Mathlib.Nat.{pow-le-pow_right}
use kv260_sigverify.Prelude.Bits.{bit_and_mask127, bit_and_bit7, bit_or_above}
use kv260_sigverify.Parser.Compact.{add_group, decode_loop, decode_compact_u16}
use kv260_sigverify.Parser.Place.{At, At-get, At-advance}

-- The encodings of a 16-bit number: one to three bytes, the lowest seven bits first. Padded
-- encodings, whose last group is zero, are among them.
pub data IsCompact (v : ℕ) (enc : List ℕ) : Type 0 where
  one : (a : ℕ) → a < 128 → v ≡ a → enc ≡ a ∷ [] → IsCompact v enc
  two : (a b : ℕ) → a < 128 → b < 128 → v ≡ a + b * 128 → enc ≡ (a + 128) ∷ b ∷ [] → IsCompact v enc
  three :
      (a b c : ℕ)
      → a < 128
      → b < 128
      → c < 4
      → v ≡ a + b * 128 + c * 16384
      → enc ≡ (a + 128) ∷ (b + 128) ∷ c ∷ []
      → IsCompact v enc

-- A group whose place lies above all that is read so far is added.
pub group_added :
    (value byte shift : ℕ)
    → value < 2 ^ shift
    → shift ≤ 14
    → add_group value byte shift ≡ value + byte % 128 * 2 ^ shift
group_added value byte shift h s =
    ground (arith, bit_and_mask127 byte, bit_or_above shift value (byte % 128) h, small)
  where
    small : byte % 128 * 2 ^ shift < 2 ^ 32
    small = grind (arith, pow-le-pow_right {n = 2} (omega arith) s)

-- The last byte of a number, whose top bit is clear.
last_byte :
    (bytes : List ℕ) (rounds offset value shift a : ℕ)
    → get_elem? bytes offset ≡ some a
    → a < 128
    → value < 2 ^ shift
    → shift ≤ 14
    → value + a * 2 ^ shift < 2 ^ 16
    → decode_loop bytes (suc rounds) offset value shift ≡ ok (value + a * 2 ^ shift, offset + 1)
unfolding decode_loop
last_byte bytes rounds offset value shift a e h lo s fits =
    ground (arith, e, bit_and_bit7 a, group_added value a shift lo s)

-- A byte with the top bit set, over the group `a`.
pub inner_byte :
    (bytes : List ℕ) (rounds offset value shift a : ℕ)
    → get_elem? bytes offset ≡ some (a + 128)
    → a < 128
    → value < 2 ^ shift
    → shift ≤ 14
    → decode_loop bytes (suc rounds) offset value shift
      ≡ decode_loop bytes rounds (offset + 1) (value + a * 2 ^ shift) (shift + 7)
unfolding decode_loop
inner_byte bytes rounds offset value shift a e h lo s =
    ground (arith, e, bit_and_bit7 (a + 128), group_added value (a + 128) shift lo s)

-- Every encoding decodes to its number, wherever it stands and whatever follows it.
pub decode-IsCompact :
    (bytes : List ℕ) (offset v : ℕ) (enc rest : List ℕ)
    → v < 2 ^ 16
    → IsCompact v enc
    → At bytes offset (enc ++ rest)
    → decode_compact_u16 bytes offset ≡ ok (v, offset + length enc)
unfolding decode_compact_u16
decode-IsCompact bytes offset v enc rest fits (one a ha hv he) at =
    let at1 : At bytes offset (a ∷ rest) = rw he at at in
    ground (arith, hv, he, last_byte bytes 2 offset 0 0 a (At-get at1))
decode-IsCompact bytes offset v enc rest fits (two a b ha hb hv he) at =
    let at1 : At bytes offset ((a + 128) ∷ b ∷ rest) = rw he at at in
    let at2 : At bytes (offset + 1) (b ∷ rest) = At-advance ((a + 128) ∷ []) (b ∷ rest) at1 in
    ground (
      arith,
      hv,
      he,
      inner_byte bytes 2 offset 0 0 a (At-get at1),
      last_byte bytes 1 (offset + 1) a 7 b (At-get at2),
    )
decode-IsCompact bytes offset v enc rest fits (three a b c ha hb hc hv he) at =
    let at1 : At bytes offset ((a + 128) ∷ (b + 128) ∷ c ∷ rest) = rw he at at in
    let at2 : At bytes (offset + 1) ((b + 128) ∷ c ∷ rest) =
      At-advance ((a + 128) ∷ []) ((b + 128) ∷ c ∷ rest) at1 in
    let at3 : At bytes (offset + 1 + 1) (c ∷ rest) = At-advance ((b + 128) ∷ []) (c ∷ rest) at2 in
    ground (
      arith,
      hv,
      he,
      inner_byte bytes 2 offset 0 0 a (At-get at1),
      inner_byte bytes 1 (offset + 1) a 7 b (At-get at2),
      last_byte bytes 0 (offset + 1 + 1) (a + b * 128) 14 c (At-get at3),
    )
