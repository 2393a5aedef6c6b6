-- ===== src/Parser/Examples.antt =====
-- The transactions of the unit tests of parser.rs, runs of the parser on them, and the theorems at
-- concrete inputs.
use kv260_sigverify.Prelude.{
  ℕ, zero, suc, ◌+◌, ◌*◌, ◌≤◌, ◌≡◌, ◌↔◌, ◌⊎◌, refl, List, [], ◌∷◌, ◌++◌, ok, panic, arith, length,
  replicate, All, All-append, All-replicate, length-append, length-replicate,
}
use kv260_sigverify.Parser.Types.{legacy, v0, ParsedTransaction, ParsedMessage, IsByte}
use kv260_sigverify.Parser.Compact.{encode_compact_u16, decode_compact_u16}
use kv260_sigverify.Parser.Compact.Decode.{IsCompact, two, decode-IsCompact}
use kv260_sigverify.Parser.Compact.Encode.{decode-encode, encode_shortest, encode-IsCompact}
use kv260_sigverify.Parser.Reader.{take, take_arrays, repeat_skip, skip_instruction}
use kv260_sigverify.Parser.Reader.{skip_compiled_instructions, skip_address_table_lookups}
use kv260_sigverify.Parser.Message.{message_prefix, skip_lookups_of, parse_body, parse_message}
use kv260_sigverify.Parser.Message.Accepts.{parse_message-accepts}
use kv260_sigverify.Parser.Message.Sound.{parse_message_sound}
use kv260_sigverify.Parser.Transaction.{build_jobs, assemble, parse_transaction}
use kv260_sigverify.Parser.Transaction.Assemble.{IsTransaction, IsMiscounted, IsOverSigned}
use kv260_sigverify.Parser.Transaction.Correct.{
  parse_transaction-accepts, parse_transaction_sound, parse_transaction-panic_iff,
  few_jobs-IsTransaction,
}
use kv260_sigverify.Parser.Grammar.{IsMessage, joined, Sized}
use kv260_sigverify.Parser.Skips.{IsSlice}

-- `start, start + 1, …`
abbrev pub count_up : ℕ → ℕ → List ℕ
count_up zero start = []
count_up (suc n) start = start ∷ count_up n (start + 1)

abbrev pub signer : List ℕ
signer = count_up 32 0

abbrev program : List ℕ
program = count_up 32 32

-- `build_legacy_transaction`
unfoldable pub legacy_message : List ℕ
unfolding encode_compact_u16
legacy_message =
    0x01
    ∷ 0x00
    ∷ 0x01
    ∷ (encode_compact_u16 2
        ++ (signer
            ++ (program
                ++ (replicate 32 0x11
                    ++ (encode_compact_u16 1
                        ++ (0x01
                            ∷ (encode_compact_u16 1
                                ++ (0x00 ∷ (encode_compact_u16 2 ++ (0xca ∷ 0xfe ∷ []))))))))))

unfoldable pub legacy_transaction : List ℕ
unfolding legacy_message encode_compact_u16
legacy_transaction = encode_compact_u16 1 ++ (replicate 64 0xa5 ++ legacy_message)

-- `build_v0_transaction`
unfoldable pub v0_message : List ℕ
unfolding encode_compact_u16
v0_message =
    0x80
    ∷ 0x01
    ∷ 0x00
    ∷ 0x00
    ∷ (encode_compact_u16 2
        ++ (count_up 32 64
            ++ (count_up 32 96
                ++ (replicate 32 0x22 ++ (encode_compact_u16 0 ++ encode_compact_u16 0)))))

unfoldable pub v0_transaction : List ℕ
unfolding v0_message encode_compact_u16
v0_transaction = encode_compact_u16 1 ++ (replicate 64 0x5a ++ v0_message)

abbrev legacy_parsed : ParsedTransaction
legacy_parsed = record {
  transaction_bytes = legacy_transaction;
  message_bytes = legacy_message;
  message_version = legacy;
  num_required_signatures = 1;
  jobs = record { index = 0; pubkey = signer; signature = replicate 64 0xa5 } ∷ [];
}

-- What the parser gives for the legacy transaction.
extracts_legacy : parse_transaction legacy_transaction ≡ ok legacy_parsed
unfolding legacy_transaction parse_transaction assemble build_jobs parse_message parse_body
    message_prefix skip_lookups_of decode_compact_u16 take take_arrays skip_compiled_instructions
    repeat_skip skip_instruction
extracts_legacy = refl

-- What the parser gives for the other one.
extracts_v0 :
    parse_transaction v0_transaction
    ≡ ok (record {
      transaction_bytes = v0_transaction;
      message_bytes = v0_message;
      message_version = v0;
      num_required_signatures = 1;
      jobs = record { index = 0; pubkey = count_up 32 64; signature = replicate 64 0x5a } ∷ [];
    })
unfolding v0_transaction parse_transaction assemble build_jobs parse_message parse_body
    message_prefix skip_lookups_of decode_compact_u16 take take_arrays skip_compiled_instructions
    skip_address_table_lookups repeat_skip
extracts_v0 = refl

pub legacy-IsSlice : IsSlice legacy_transaction
unfolding legacy_transaction
legacy-IsSlice = record { fits = omega arith; all_bytes = omega arith }

legacy_IsTransaction : IsTransaction legacy_transaction legacy_parsed
legacy_IsTransaction =
    few_jobs-IsTransaction legacy_transaction legacy_parsed legacy-IsSlice extracts_legacy
      (omega arith)

decode-encode_example :
    decode_compact_u16 (7 ∷ (encode_compact_u16 300 ++ (9 ∷ []))) 1 ≡ ok (300, 3)
unfolding encode_compact_u16
decode-encode_example =
    decode-encode (7 ∷ (encode_compact_u16 300 ++ (9 ∷ []))) 1 300 (9 ∷ []) (omega arith)
      (record { within = omega arith; behind = refl })

-- A padded encoding of 5, which `encode_compact_u16` does not write.
padded : IsCompact 5 (0x85 ∷ 0x00 ∷ [])
padded = two 5 0 (omega arith) (omega arith) refl refl

encode_shortest_example :
    (length (encode_compact_u16 5) ≤ length {A = ℕ} (0x85 ∷ 0x00 ∷ []))
    × (1 ≤ length (encode_compact_u16 5))
    × (length (encode_compact_u16 5) ≤ 3)
encode_shortest_example = encode_shortest 5 (0x85 ∷ 0x00 ∷ []) (omega arith) padded

decode-IsCompact_example : decode_compact_u16 (0x85 ∷ 0x00 ∷ 1 ∷ []) 0 ≡ ok (5, 2)
decode-IsCompact_example =
    decode-IsCompact (0x85 ∷ 0x00 ∷ 1 ∷ []) 0 5 (0x85 ∷ 0x00 ∷ []) (1 ∷ []) (omega arith) padded
      (record { within = omega arith; behind = refl })

parse_transaction_sound_example :
    IsTransaction legacy_transaction legacy_parsed ⊎ IsMiscounted legacy_transaction legacy_parsed
parse_transaction_sound_example =
    parse_transaction_sound legacy_transaction legacy_parsed legacy-IsSlice extracts_legacy

parse_transaction-accepts_example : parse_transaction legacy_transaction ≡ ok legacy_parsed
parse_transaction-accepts_example =
    parse_transaction-accepts legacy_transaction legacy_parsed legacy-IsSlice
      legacy_IsTransaction.accepted

abbrev legacy_info : ParsedMessage
legacy_info = record {
  message_version = legacy;
  num_required_signatures = 1;
  static_account_keys = signer ∷ program ∷ [];
}

message-IsSlice : IsSlice legacy_message
unfolding legacy_message
message-IsSlice = record { fits = omega arith; all_bytes = omega arith }

legacy_message_parses : parse_message legacy_message ≡ ok legacy_info
unfolding legacy_message parse_message parse_body message_prefix skip_lookups_of decode_compact_u16
    take take_arrays skip_compiled_instructions repeat_skip skip_instruction
legacy_message_parses = refl

parse_message_sound_example : IsMessage legacy_message legacy_info
parse_message_sound_example =
    parse_message_sound legacy_message legacy_info message-IsSlice legacy_message_parses

parse_message-accepts_example : parse_message legacy_message ≡ ok legacy_info
parse_message-accepts_example =
    parse_message-accepts legacy_message legacy_info message-IsSlice
      (parse_message_sound legacy_message legacy_info message-IsSlice legacy_message_parses)

-- 257 signatures over the legacy message, whose header asks for one: the low byte of 257 is one.
abbrev pub filler : List ℕ
filler = replicate 64 0xa5

abbrev pub many : List (List ℕ)
many = replicate 257 filler

abbrev over_signed : List ℕ
over_signed = encode_compact_u16 257 ++ (joined many ++ legacy_message)

pub joined_bytes :
    (entries : List (List ℕ)) → All (λ e. All IsByte e) entries → All IsByte (joined entries)
joined_bytes [] h = tt
joined_bytes (entry ∷ entries) h =
    All-append IsByte entry (joined entries) h.0 (joined_bytes entries h.1)

pub length-joined :
    (entries : List (List ℕ)) → Sized 64 entries → length (joined entries) ≡ length entries * 64
length-joined [] h = refl
length-joined (entry ∷ entries) h =
    omega (arith, length-append entry (joined entries), h.0, length-joined entries h.1)

pub many-Sized : Sized 64 many
many-Sized = All-replicate (λ entry. length entry ≡ 64) 257 filler refl

over_signed-IsSlice : IsSlice over_signed
unfolding encode_compact_u16 legacy_message
over_signed-IsSlice = record {
  fits = omega (
    arith,
    length-append (encode_compact_u16 257) (joined many ++ legacy_message),
    length-append (joined many) legacy_message,
    length-joined many many-Sized,
    message-IsSlice.fits,
    length-replicate 257 filler,
  );
  all_bytes =
      All-append IsByte (encode_compact_u16 257) (joined many ++ legacy_message) (omega arith) (
        All-append IsByte (joined many) legacy_message
          (joined_bytes many (
            All-replicate (λ e. All IsByte e) 257 filler
              (All-replicate IsByte 64 0xa5 (omega arith))))
          message-IsSlice.all_bytes);
}

over_signed_evidence : IsOverSigned over_signed
over_signed_evidence = record {
  signatures = many;
  message = legacy_message;
  info = legacy_info;
  frame = record {
    count = encode_compact_u16 257;
    fits = omega arith;
    counted = encode-IsCompact 257 (omega arith);
    sized = many-Sized;
    layout = refl;
  };
  checked = record {
    message_ok =
        parse_message_sound legacy_message legacy_info message-IsSlice legacy_message_parses;
    same_low_byte = refl;
    enough = omega arith;
  };
  few_keys = omega arith;
}

parse_transaction-panic_iff_example :
    (parse_transaction over_signed ≡ panic) ↔ IsOverSigned over_signed
parse_transaction-panic_iff_example = parse_transaction-panic_iff over_signed over_signed-IsSlice

over_signed_panics : parse_transaction over_signed ≡ panic
over_signed_panics =
    (parse_transaction-panic_iff over_signed over_signed-IsSlice).1 over_signed_evidence
