-- ===== src/Parser/Message.antt =====
-- `parse_message` of parser.rs.
pub mod Tail
pub mod Accepts
pub mod Body
pub mod Sound
use kv260_sigverify.Prelude.{
  ℕ, suc, zero, ◌+◌, List, [], ◌∷◌, Bool, Outcome, ok, err, ◌>>=◌, ◌>>◌, bit_and, ltb, ◌==◌,
  if◌then◌else◌, length,
}
use kv260_sigverify.Prelude.Format.{◌⧺◌, decimal}
use kv260_sigverify.Parser.Types.{MessageVersion, legacy, v0, ParsedMessage, Parse, parse_error}
use kv260_sigverify.Parser.Compact.{decode_compact_u16}
use kv260_sigverify.Parser.Reader.{
  index, take, take_arrays, skip_compiled_instructions, skip_address_table_lookups,
}

-- The version and the offset of the header, from the first byte.
unfoldable pub message_prefix : List ℕ → Parse (MessageVersion × ℕ)
message_prefix message_bytes = do
  first ← index message_bytes 0
  if bit_and first 0x80 == 0
      then ok (legacy, 0)
      else if bit_and first 0x7f == 0
      then ok (v0, 1)
      else err (parse_error ("unsupported message version: " ⧺ decimal (bit_and first 0x7f)))

-- `if message_version == MessageVersion::V0 { … }`
unfoldable pub skip_lookups_of : MessageVersion → List ℕ → ℕ → Parse ℕ
skip_lookups_of legacy message_bytes offset = ok offset
skip_lookups_of v0 message_bytes offset = skip_address_table_lookups message_bytes offset

-- What follows the check of the header's length.
unfoldable pub parse_body : MessageVersion → ℕ → List ℕ → Parse ParsedMessage
parse_body version header_offset message_bytes = do
  num_required ← index message_bytes header_offset
  (account_key_count, o1) ← decode_compact_u16 message_bytes (header_offset + 3)
  (keys, o2) ← take_arrays 32 "account key" account_key_count message_bytes o1
  (_, o3) ← take message_bytes o2 32 "recent blockhash"
  o4 ← skip_compiled_instructions message_bytes o3
  o5 ← skip_lookups_of version message_bytes o4
  if o5 == length message_bytes
      then ok (record {
        message_version = version;
        num_required_signatures = num_required;
        static_account_keys = keys;
      })
      else err (parse_error "trailing bytes remain after message parse")

unfoldable pub parse_message : List ℕ → Parse ParsedMessage
parse_message [] = err (parse_error "transaction is missing message bytes")
parse_message (b ∷ bs) = do
  (version, header_offset) ← message_prefix (b ∷ bs)
  if ltb (length (b ∷ bs)) (header_offset + 3)
      then err (parse_error "truncated message header")
      else parse_body version header_offset (b ∷ bs)
