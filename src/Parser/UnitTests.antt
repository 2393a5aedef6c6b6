-- ===== src/Parser/UnitTests.antt =====
-- The unit tests of parser.rs, as functions into Bool.
use kv260_sigverify.Prelude.{
  ℕ, ◌+◌, ◌≡◌, refl, List, [], ◌∷◌, Bool, true, false, ◌&&◌, String, none, some, ok, err, length,
  replicate, set, ◌==◌,
}
use text.Mathlib.Text.{find?}
use kv260_sigverify.Prelude.Format.{decimal}
use kv260_sigverify.Parser.Types.{
  MessageVersion, legacy, v0, ParsedTransaction, VerificationJob, Parse,
}
use kv260_sigverify.Parser.Compact.{decode_compact_u16}
use kv260_sigverify.Parser.Reader.{
  take, take_arrays, repeat_skip, skip_instruction, skip_compiled_instructions,
  skip_address_table_lookups,
}
use kv260_sigverify.Parser.Message.{message_prefix, skip_lookups_of, parse_body, parse_message}
use kv260_sigverify.Parser.Transaction.{build_jobs, assemble, parse_transaction}
use kv260_sigverify.Parser.Examples.{
  count_up, signer, legacy_message, legacy_transaction, v0_message, v0_transaction,
}

-- `str::contains`
abbrev contains : String → String → Bool
contains text part = elim (find? text part) [ none ↦ false | some place ↦ true ]

abbrev same_bytes : List ℕ → List ℕ → Bool
same_bytes [] [] = true
same_bytes (x ∷ xs) (y ∷ ys) = x == y && same_bytes xs ys
same_bytes _ _ = false

abbrev same_version : MessageVersion → MessageVersion → Bool
same_version legacy legacy = true
same_version v0 v0 = true
same_version _ _ = false

-- `parsed.jobs[0]`, its public key and its signature.
abbrev first_job_is : List VerificationJob → List ℕ → List ℕ → Bool
first_job_is [] pubkey signature = false
first_job_is (job ∷ jobs) pubkey signature =
    same_bytes job.pubkey pubkey && same_bytes job.signature signature

-- `unwrap`, and then the assertions that the two tests of a good transaction share.
abbrev extracted : Parse ParsedTransaction → MessageVersion → List ℕ → List ℕ → List ℕ → Bool
extracted (ok parsed) version message pubkey signature =
    same_version parsed.message_version version
    && same_bytes parsed.message_bytes message
    && parsed.num_required_signatures == 1
    && length parsed.jobs == 1
    && first_job_is parsed.jobs pubkey signature
extracted _ version message pubkey signature = false

-- `unwrap_err`, and then a look at the text of the error.
abbrev refused_with : Parse ParsedTransaction → String → Bool
refused_with (err error) text = contains error.message text
refused_with _ text = false

unfoldable extracts_legacy_verification_job : Bool
extracts_legacy_verification_job =
    extracted (parse_transaction legacy_transaction) legacy legacy_message signer
      (replicate 64 0xa5)

unfoldable extracts_v0_verification_job : Bool
extracts_v0_verification_job =
    extracted (parse_transaction v0_transaction) v0 v0_message (count_up 32 64) (replicate 64 0x5a)

unfoldable rejects_signature_count_mismatch : Bool
rejects_signature_count_mismatch =
    let message_offset = 1 + 64 in
    refused_with (parse_transaction (set legacy_transaction message_offset 2))
      "signature count does not match"

unit_tests :
    (extracts_legacy_verification_job ≡ true)
    × (extracts_v0_verification_job ≡ true)
    × (rejects_signature_count_mismatch ≡ true)
unfolding extracts_legacy_verification_job extracts_v0_verification_job
    rejects_signature_count_mismatch legacy_transaction v0_transaction parse_transaction assemble
    build_jobs parse_message parse_body message_prefix skip_lookups_of decode_compact_u16 take
    take_arrays skip_compiled_instructions skip_address_table_lookups repeat_skip skip_instruction
    decimal
unit_tests = (refl, refl, refl)
