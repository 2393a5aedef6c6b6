-- ===== src/Parser/Transaction.antt =====
-- `parse_transaction` of parser.rs.
pub mod Frame
pub mod Jobs
pub mod Assemble
pub mod Correct
use kv260_sigverify.Prelude.{
  ℕ, ◌+◌, ◌%◌, ◌^◌, List, [], ◌∷◌, ok, err, ◌>>=◌, ltb, ◌==◌, if◌then◌else◌, length,
}
use kv260_sigverify.Prelude.Format.{◌⧺◌, decimal}
use kv260_sigverify.Parser.Types.{
  VerificationJob, ParsedTransaction, ParsedMessage, Parse, parse_error,
}
use kv260_sigverify.Parser.Compact.{decode_compact_u16}
use kv260_sigverify.Parser.Reader.{index, range, take_arrays}
use kv260_sigverify.Parser.Message.{parse_message}

-- `signatures.into_iter().enumerate().map(..).collect()`, from the number `i` on. The map indexes
-- `static_account_keys` without a check.
unfoldable pub build_jobs : List (List ℕ) → ℕ → List (List ℕ) → Parse (List VerificationJob)
build_jobs keys i [] = ok []
build_jobs keys i (signature ∷ rest) = do
  key ← index keys i
  jobs ← build_jobs keys (i + 1) rest
  ok (record { index = i; pubkey = key; signature = signature } ∷ jobs)

-- The checks and the result, once the message is parsed. The first check compares the low byte of
-- the count of signatures.
unfoldable pub assemble :
    List ℕ → List (List ℕ) → ℕ → List ℕ → ParsedMessage → Parse ParsedTransaction
assemble transaction_bytes signatures num_signatures message_bytes info =
    if num_signatures % 2 ^ 8 == info.num_required_signatures
    then (if ltb (length info.static_account_keys) info.num_required_signatures
        then err (parse_error "not enough static account keys for signer set")
        else (build_jobs info.static_account_keys 0 signatures >>= λ jobs. ok (record {
          transaction_bytes = transaction_bytes;
          message_bytes = message_bytes;
          message_version = info.message_version;
          num_required_signatures = info.num_required_signatures;
          jobs = jobs;
        })))
    else err (
        parse_error (
          "signature count does not match message header ("
          ⧺ decimal num_signatures
          ⧺ " != "
          ⧺ decimal info.num_required_signatures
          ⧺ ")"))

unfoldable pub parse_transaction : List ℕ → Parse ParsedTransaction
parse_transaction transaction_bytes = do
  (num_signatures, o1) ← decode_compact_u16 transaction_bytes 0
  (signatures, o2) ← take_arrays 64 "signature" num_signatures transaction_bytes o1
  message_bytes ← range transaction_bytes o2 (length transaction_bytes)
  info ← parse_message message_bytes
  assemble transaction_bytes signatures num_signatures message_bytes info
