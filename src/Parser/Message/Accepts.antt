-- ===== src/Parser/Message/Accepts.antt =====
-- `parse_message` accepts every message of the format.
use kv260_sigverify.Prelude.{
  ℕ, ◌+◌, ◌<◌, ◌≡◌, refl, List, [], ◌∷◌, ◌++◌, append-nil, ok, err, if◌then◌else◌, ◌>>=◌, arith,
  length, ltb, ltb-false, ◌==◌, ==_iff, true, false,
}
use kv260_sigverify.Prelude.Bits.{bit_and_bit7}
use kv260_sigverify.Parser.Types.{
  MessageVersion, legacy, v0, ParsedMessage, ParseError, parse_error,
}
use kv260_sigverify.Parser.Grammar.{IsMessage, version_prefix, joined}
use kv260_sigverify.Parser.Compact.Decode.{decode-IsCompact}
use kv260_sigverify.Parser.Reader.{index}
use kv260_sigverify.Parser.Message.{message_prefix, parse_body, parse_message}
use kv260_sigverify.Parser.Message.Tail.{Skips-tail, finish, parse_body_eq}
use kv260_sigverify.Parser.Arrays.{take_arrays-accepts}
use kv260_sigverify.Parser.Place.{At, At-get, At-advance, At-room}
use kv260_sigverify.Parser.Skips.{IsSlice}

pub index_some :
    (bytes : List ℕ) (offset b : ℕ) (rest : List ℕ)
    → At bytes offset (b ∷ rest)
    → index {E = ParseError} bytes offset ≡ ok b
index_some bytes offset b rest at = rw (At-get at, index)

finish_end :
    (version : MessageVersion) (required : ℕ) (bytes : List ℕ) (keys : List (List ℕ)) (end : ℕ)
    → end ≡ length bytes
    → finish version required bytes keys end
      ≡ ok (record {
        message_version = version;
        num_required_signatures = required;
        static_account_keys = keys;
      })
finish_end version required bytes keys end e =
    let same : (end == length bytes) ≡ true = (==_iff end (length bytes)).1 e in rw same

module _ {bytes : List ℕ} {info : ParsedMessage} (slice : IsSlice bytes)
    (m : IsMessage bytes info) where
  abbrev body : List ℕ
  body =
      info.num_required_signatures
      ∷ m.readonly_signed
      ∷ m.readonly_unsigned
      ∷ (m.count ++ (joined info.static_account_keys ++ m.tail))

  parse_body-accepts :
      (offset : ℕ) → At bytes offset body → parse_body info.message_version offset bytes ≡ ok info
  parse_body-accepts offset at =
      let keys = info.static_account_keys in
      let at1 : At bytes (offset + 3) (m.count ++ (joined keys ++ m.tail)) =
        At-advance (info.num_required_signatures ∷ m.readonly_signed ∷ m.readonly_unsigned ∷ [])
          (m.count ++ (joined keys ++ m.tail)) at in
      let at2 = At-advance m.count (joined keys ++ m.tail) at1 in
      let at3 = At-advance (joined keys) m.tail at2 in
      let at4 : At bytes (offset + 3 + length m.count + length (joined keys)) (m.tail ++ []) =
        rw append-nil at3 in
      rw (
        parse_body_eq info.message_version offset bytes,
        index_some bytes offset info.num_required_signatures _ at,
        decode-IsCompact bytes (offset + 3) (length keys) m.count _ m.keys_lt m.counted at1,
        take_arrays-accepts 32 "account key" bytes slice keys _ m.tail m.sized at2,
        (Skips-tail info.message_version).accepts bytes _ m.tail [] slice m.tail_ok at4,
        finish_end info.message_version info.num_required_signatures bytes keys _ (At-room at3),
      )

prefix_read :
    (version : MessageVersion) (bytes : List ℕ) (required : ℕ) (rest : List ℕ)
    → (version ≡ legacy → required < 128)
    → At bytes 0 (version_prefix version ++ (required ∷ rest))
    → message_prefix bytes ≡ ok (version, length (version_prefix version))
unfolding message_prefix
prefix_read legacy bytes required rest marked at =
    let small = marked refl in
    rw (index_some bytes 0 required rest at) (ground (arith, bit_and_bit7 required))
prefix_read v0 bytes required rest marked at = rw (index_some bytes 0 0x80 (required ∷ rest) at)

pub parse_message_eq :
    (bytes : List ℕ)
    → 0 < length bytes
    → parse_message bytes ≡ (
        message_prefix bytes >>= λ r.
        if ltb (length bytes) (r.1 + 3)
        then err (parse_error "truncated message header")
        else parse_body r.0 r.1 bytes)
unfolding parse_message
parse_message_eq [] h = elim h [ ]
parse_message_eq (b ∷ bs) h = refl

-- On every slice that holds a message of the format, `parse_message` returns the version, the
-- signature count and the account keys that the format describes.
pub parse_message-accepts :
    (bytes : List ℕ) (info : ParsedMessage)
    → IsSlice bytes
    → IsMessage bytes info
    → parse_message bytes ≡ ok info
parse_message-accepts bytes info slice m =
    let front = version_prefix info.message_version in
    let at0 : At bytes 0 (front ++ body slice m) = record {
      within = omega arith;
      behind = m.layout;
    } in
    let at1 : At bytes (0 + length front) (body slice m) = At-advance front (body slice m) at0 in
    let at2 : At bytes (length front) (body slice m) =
      let e : 0 + length front ≡ length front = omega arith in rw e at at1 in
    let room : ltb (length bytes) (length front + 3) ≡ false =
      ltb-false _ _ (omega (arith, At-room at2)) in
    rw
      (
        parse_message_eq bytes (omega (arith, At-room at2)),
        prefix_read info.message_version bytes info.num_required_signatures _ m.marked at0,
        room,
      )
      (parse_body-accepts slice m (length front) at2)
