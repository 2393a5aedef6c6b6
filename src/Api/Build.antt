-- ===== src/Api/Build.antt =====
-- From a request to a batch for the accelerator (api.rs).
use kv260_sigverify.Prelude.{
  ℕ, ◌+◌, List, [], ◌∷◌, map, String, none, some, ◌⊎◌, inl, inr, Outcome, ok, err, ◌>>=◌, ◌>>◌,
  map_err, length, ◌==◌, if◌then◌else◌,
}
use kv260_sigverify.Prelude.Format.{◌⧺◌, decimal}
use kv260_sigverify.StdText.{trim}
use kv260_sigverify.ServiceError
use kv260_sigverify.ServiceError.{ServiceError}
use kv260_sigverify.Parser.Reader.{to_array}
use kv260_sigverify.Parser.Types as P
use kv260_sigverify.Parser.Types.{ParsedTransaction, to_string}
use kv260_sigverify.Parser.Transaction.{parse_transaction}
use kv260_sigverify.Accelerator.Types.{VerificationJob}
use kv260_sigverify.Api.Types.{
  base64, hex, EncodedPayload, VerifyTransactionRequest, BatchJobRequest, VerifyBatchRequest,
  BuiltRequest, Crates,
}

abbrev pub Service : Type 0 → Type 0
Service A = Outcome ServiceError A

-- `map_err` on a call of another crate.
abbrev pub call : {A : Type 0} → (String → ServiceError) → String ⊎ A → Service A
call on_error (inl text) = err (on_error text)
call on_error (inr a) = ok a

unfoldable pub parse_json : {T : Type 0} → (List ℕ → String ⊎ T) → List ℕ → Service T
parse_json from_slice body =
    call (λ error. ServiceError.invalid_request "invalid_json" ("invalid JSON body: " ⧺ error))
      (from_slice body)

unfoldable pub validate_timeout_ms : ℕ → Service (Unit {0})
validate_timeout_ms timeout_ms =
    if timeout_ms == 0
    then err (ServiceError.invalid_request "invalid_timeout" "timeout_ms must be greater than zero")
    else ok tt

-- The check that both handlers make on what they built.
unfoldable pub with_valid_timeout : BuiltRequest → Service BuiltRequest
with_valid_timeout request = validate_timeout_ms request.timeout_ms >> ok request

-- The accelerator's jobs have no index.
abbrev pub without_index : P.VerificationJob → VerificationJob
without_index job = record { pubkey = job.pubkey; signature = job.signature }

-- The batch of a parsed transaction.
unfoldable pub built_of : VerifyTransactionRequest → ParsedTransaction → BuiltRequest
built_of request parsed = record {
  batch_request = record {
    message = parsed.message_bytes;
    jobs = map without_index parsed.jobs;
    verify_mode = request.verify_mode;
    timeout = request.timeout_ms;
    dispatch_limit = request.dispatch_limit;
    job_timeout_cycles = request.job_timeout_cycles;
  };
  parsed_summary =
      if request.include_parse_summary
      then some (record {
        message_version = to_string parsed.message_version;
        message_length = length parsed.message_bytes;
        num_required_signatures = parsed.num_required_signatures;
      })
      else none;
  verify_mode = request.verify_mode;
  timeout_ms = request.timeout_ms;
  total_jobs = length parsed.jobs;
}

module _ (c : Crates) where
  unfoldable pub decode_base64 : String → String → Service (List ℕ)
  decode_base64 value label =
      call (λ error. ServiceError.parse "invalid_base64" ("invalid base64 " ⧺ label ⧺ ": " ⧺ error))
        (c.base64_decode (trim value))

  unfoldable pub decode_payload : EncodedPayload → String → Service (List ℕ)
  decode_payload payload label = elim payload.encoding [
    | base64 ↦ decode_base64 payload.data_text label
    | hex ↦
        call (λ error. ServiceError.parse "invalid_hex" ("invalid hex " ⧺ label ⧺ ": " ⧺ error))
          (c.hex_decode (trim payload.data_text))
  ]

  unfoldable pub decode_fixed_base64 : ℕ → String → String → Service (List ℕ)
  decode_fixed_base64 n value label = do
    bytes ← decode_base64 value label
    if length bytes == n
        then to_array n bytes
        else err (
            ServiceError.invalid_request ("invalid_" ⧺ label ⧺ "_length") (
              label
              ⧺ " must be exactly "
              ⧺ decimal n
              ⧺ " bytes after base64 decode (got "
              ⧺ decimal (length bytes)
              ⧺ ")"))

  -- The loop over the jobs, from the one numbered `i` on.
  unfoldable pub decode_jobs : ℕ → List BatchJobRequest → Service (List VerificationJob)
  decode_jobs i [] = ok []
  decode_jobs i (job ∷ rest) = do
    pubkey ← decode_fixed_base64 32 job.pubkey ("jobs[" ⧺ decimal i ⧺ "].pubkey")
    signature ← decode_fixed_base64 64 job.signature ("jobs[" ⧺ decimal i ⧺ "].signature")
    jobs ← decode_jobs (i + 1) rest
    ok (record { pubkey = pubkey; signature = signature } ∷ jobs)

  unfoldable pub build_logical_batch_request : VerifyBatchRequest → Service BuiltRequest
  build_logical_batch_request request = do
    message ← decode_payload request.message "message"
    if length message == 0
        then err (
            ServiceError.invalid_request "empty_message"
              "message must contain the exact serialized Solana message bytes")
        else if length request.jobs == 0
        then err (
            ServiceError.invalid_request "empty_jobs"
              "jobs must contain at least one pubkey/signature tuple")
        else (decode_jobs 0 request.jobs >>= λ jobs. ok (record {
          total_jobs = length jobs;
          batch_request = record {
            message = message;
            jobs = jobs;
            verify_mode = request.verify_mode;
            timeout = request.timeout_ms;
            dispatch_limit = request.dispatch_limit;
            job_timeout_cycles = request.job_timeout_cycles;
          };
          parsed_summary = none;
          verify_mode = request.verify_mode;
          timeout_ms = request.timeout_ms;
        }))

  unfoldable pub build_transaction_batch_request : VerifyTransactionRequest → Service BuiltRequest
  build_transaction_batch_request request = do
    transaction_bytes ← decode_payload request.transaction "transaction"
    parsed ←
        map_err (λ error. ServiceError.parse "transaction_parse_failed" error.message)
          (parse_transaction transaction_bytes)
    if length parsed.jobs == 0
        then err (
            ServiceError.parse "empty_signer_set"
              "transaction did not produce any verification jobs")
        else ok (built_of request parsed)
