-- ===== src/Parser/CountExamples.antt =====
-- A slice that `parse_transaction` of parser.rs accepts, with 257 signatures and account keys and a
-- header that asks for one signature.
use kv260_sigverify.Prelude.{
  ℕ, ◌*◌, ◌≡◌, ◌≢◌, ◌↔◌, refl, List, [], ◌∷◌, ◌++◌, ok, arith, length, replicate, All, All-append,
  All-replicate, length-append, length-replicate,
}
use kv260_sigverify.Parser.Types.{legacy, ParsedTransaction, ParsedMessage, IsByte}
use kv260_sigverify.Parser.Compact.{encode_compact_u16}
use kv260_sigverify.Parser.Compact.Decode.{one}
use kv260_sigverify.Parser.Compact.Encode.{encode-IsCompact}
use kv260_sigverify.Parser.Grammar.{IsMessage, joined}
use kv260_sigverify.Parser.Transaction.{parse_transaction}
use kv260_sigverify.Parser.Transaction.Assemble.{IsMiscounted, parsed}
use kv260_sigverify.Parser.Transaction.Correct.{parse_transaction-IsMiscounted_iff}
use kv260_sigverify.Parser.Skips.{IsSlice}
use kv260_sigverify.Parser.Examples.{signer, many, filler, many-Sized, joined_bytes, length-joined}

abbrev keys : List (List ℕ)
keys = replicate 257 signer

abbrev info : ParsedMessage
info = record { message_version = legacy; num_required_signatures = 1; static_account_keys = keys }

-- A blockhash and no instruction.
abbrev tail : List ℕ
tail = replicate 32 0x11 ++ (0 ∷ [])

abbrev message : List ℕ
message = 1 ∷ 0 ∷ 0 ∷ (encode_compact_u16 257 ++ (joined keys ++ tail))

abbrev miscounted : List ℕ
miscounted = encode_compact_u16 257 ++ (joined many ++ message)

abbrev miscounted_parsed : ParsedTransaction
miscounted_parsed = parsed miscounted many message info

message_IsMessage : IsMessage message info
message_IsMessage = record {
  readonly_signed = 0;
  readonly_unsigned = 0;
  count = encode_compact_u16 257;
  tail = tail;
  keys_lt = omega arith;
  counted = encode-IsCompact 257 (omega arith);
  sized = All-replicate (λ entry. length entry ≡ 32) 257 signer refl;
  tail_ok = (
    replicate 32 0x11,
    0 ∷ [],
    refl,
    (
      0 ∷ [],
      [],
      (0, omega arith, (0 ∷ [], [], one 0 (omega arith) refl refl, refl, refl)),
      refl,
      refl,
    ),
    refl,
  );
  marked = λ e. omega arith;
  layout = refl;
}

miscounted_evidence : IsMiscounted miscounted miscounted_parsed
miscounted_evidence = record {
  accepted = record {
    signatures = many;
    info = info;
    frame = record {
      count = encode_compact_u16 257;
      fits = omega arith;
      counted = encode-IsCompact 257 (omega arith);
      sized = many-Sized;
      layout = refl;
    };
    checked = record { message_ok = message_IsMessage; same_low_byte = refl; enough = omega arith };
    indexed = omega arith;
    bytes_eq = refl;
    version_eq = refl;
    required_eq = refl;
    jobs_eq = refl;
  };
  too_many = omega arith;
}

keys_bytes : All IsByte (joined keys)
keys_bytes = joined_bytes keys (All-replicate (λ e. All IsByte e) 257 signer (omega arith))

joined-many : length (joined many) ≡ 257 * 64
joined-many = omega (arith, length-joined many many-Sized, length-replicate 257 filler)

miscounted-IsSlice : IsSlice miscounted
unfolding encode_compact_u16
miscounted-IsSlice = record {
  fits = omega (
    arith,
    length-append (encode_compact_u16 257) (joined many ++ message),
    length-append (joined many) message,
    length-append (joined keys) tail,
    joined-many,
  );
  all_bytes = All-append IsByte (encode_compact_u16 257) (joined many ++ message) (omega arith) (
      All-append IsByte (joined many) message
        (joined_bytes many (
          All-replicate (λ e. All IsByte e) 257 filler
            (All-replicate IsByte 64 0xa5 (omega arith))))
        (
          omega arith,
          (
            omega arith,
            (
              omega arith,
              All-append IsByte (encode_compact_u16 257) (joined keys ++ tail) (omega arith)
                  (All-append IsByte (joined keys) tail keys_bytes (omega arith)),
            ),
          ),
        ));
}

parse_transaction-IsMiscounted_iff_example :
    ((parse_transaction miscounted ≡ ok miscounted_parsed)
      × (length miscounted_parsed.jobs ≢ miscounted_parsed.num_required_signatures))
    ↔ IsMiscounted miscounted miscounted_parsed
parse_transaction-IsMiscounted_iff_example =
    parse_transaction-IsMiscounted_iff miscounted miscounted_parsed miscounted-IsSlice

miscounted_accepted : parse_transaction miscounted ≡ ok miscounted_parsed
miscounted_accepted =
    ((parse_transaction-IsMiscounted_iff miscounted miscounted_parsed miscounted-IsSlice).1
      miscounted_evidence).0
