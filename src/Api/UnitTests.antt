-- ===== src/Api/UnitTests.antt =====
-- The unit tests of api.rs and its accelerator for tests, as functions into Bool. A test gives the
-- handler behind its route the request that its JSON stands for, and looks at the response before it
-- is JSON; `encode` of the crate base64 is a text that `base64_decode` of these crates takes back.
use kv260_sigverify.Prelude.{
  ℕ, ◌≡◌, refl, List, [], ◌∷◌, Bool, true, false, ◌&&◌, not, String, Option, none, some, ◌⊎◌, inl,
  inr, Outcome, ok, err, replicate, length, ◌==◌, if◌then◌else◌,
}
use text.Mathlib.Text.{◌==◌ as same_text}
use kv260_sigverify.ServiceError
use kv260_sigverify.ServiceError.{ServiceError, as_str}
use kv260_sigverify.Parser.Examples.{signer, legacy_message, legacy_transaction}
use kv260_sigverify.Accelerator.Types.{
  AcceleratorStatus, VerificationJob, HardwareBatchRequest, HardwareBatchResult, VerifyMode, strict,
  agave_zebra, mode_name,
}
use kv260_sigverify.Accelerator.SingleFlight.{Accelerator}
use kv260_sigverify.Api.Types.{
  base64, VerifyBatchRequest, VerifyTransactionRequest, default_timeout_ms, Response, Body,
  ParsedSummary, Crates, success_body, status_body, error_body,
}
use kv260_sigverify.Prelude.Format.{decimal}
use kv260_sigverify.StdText.{trim, trim_start, trim_end}
use kv260_sigverify.Parser.Types.{to_string}
use kv260_sigverify.Parser.Compact.{decode_compact_u16}
use kv260_sigverify.Parser.Reader.{
  take, take_arrays, repeat_skip, skip_instruction, skip_compiled_instructions,
}
use kv260_sigverify.Parser.Message.{message_prefix, skip_lookups_of, parse_body, parse_message}
use kv260_sigverify.Parser.Transaction.{build_jobs, assemble, parse_transaction}
use kv260_sigverify.Api.Build.{
  parse_json, validate_timeout_ms, with_valid_timeout, decode_base64, decode_payload,
  decode_fixed_base64, decode_jobs, build_logical_batch_request, build_transaction_batch_request,
  built_of,
}
use kv260_sigverify.Api.Handlers.{
  get_status, post_verify_transaction, post_verify_batch, joined_status, status_response, verify,
  execute_verify, joined, respond, success_response, error_response, status_code_for_error,
  all_signers_verified, all_true, error_code_name,
}

abbrev status_template : Bool → AcceleratorStatus
status_template ready = record {
  ready = ready;
  fpga_loaded = ready;
  control_path = "/dev/uio0";
  message_path = "/dev/uio1";
  job_path = "/dev/uio2";
  last_seen_batch_id = some 41;
  hardware_mode = some "full";
  hardware_api_version = some 1;
  detail = if ready then none else some "hardware unavailable";
}

abbrev success_result : HardwareBatchResult
success_result = record {
  batch_id = 42;
  accepted_job_count = 1;
  jobs_completed = 1;
  jobs_dropped = 0;
  error = false;
  result_valid = true;
  error_code = 0;
  result_mask_hex = "0000000000000000000000000000000000000000000000000000000000000001";
  result_bits = true ∷ [];
  last_job_cycles = 812345;
  last_batch_cycles = 812345;
}

-- Its world is `last_request`.
abbrev mock_accelerator :
    AcceleratorStatus
    → Outcome ServiceError HardwareBatchResult
    → Accelerator (Option HardwareBatchRequest)
mock_accelerator status result = record {
  verify_batch = λ request last_request. (result, some request);
  status = λ last_request. (ok status, last_request);
}

abbrev decoded : String → String ⊎ List ℕ
decoded text =
    if same_text text "transaction"
    then inr legacy_transaction
    else if same_text text "short"
    then inr (0x01 ∷ 0x02 ∷ 0x03 ∷ [])
    else if same_text text "31 zeros"
    then inr (replicate 31 0)
    else if same_text text "32 zeros"
    then inr (replicate 32 0)
    else if same_text text "64 zeros"
    then inr (replicate 64 0)
    else inl "Invalid symbol"

-- The crates where the body stands for these requests.
abbrev crates_for : VerifyTransactionRequest → VerifyBatchRequest → Crates
crates_for transaction batch = record {
  transaction_from_slice = λ body. inr transaction;
  batch_from_slice = λ body. inr batch;
  base64_decode = decoded;
  hex_decode = λ text. inl "Odd number of digits";
  join_error = "panic";
}

-- A request for a transaction, with the fields that `json!` leaves out filled up by serde.
abbrev transaction_request : String → Bool → VerifyTransactionRequest
transaction_request data_text include_parse_summary = record {
  transaction = record { encoding = base64; data_text = data_text };
  verify_mode = strict;
  timeout_ms = default_timeout_ms;
  dispatch_limit = 0;
  job_timeout_cycles = 0;
  include_parse_summary = include_parse_summary;
}

abbrev batch_request : String → VerifyBatchRequest
batch_request pubkey = record {
  message = record { encoding = base64; data_text = "short" };
  jobs = record { pubkey = pubkey; signature = "64 zeros" } ∷ [];
  verify_mode = strict;
  timeout_ms = default_timeout_ms;
  dispatch_limit = 0;
  job_timeout_cycles = 0;
}

abbrev same_bytes : List ℕ → List ℕ → Bool
same_bytes [] [] = true
same_bytes (x ∷ xs) (y ∷ ys) = x == y && same_bytes xs ys
same_bytes _ _ = false

abbrev is_strict : VerifyMode → Bool
is_strict strict = true
is_strict agave_zebra = false

-- The asserts on an error response: its status, its type and its code, and whether it is `ok`.
abbrev error_body_is : Body → String → String → Bool
error_body_is (error_body e) error_type code =
    same_text e.error.error_type error_type && same_text e.error.code code
error_body_is _ error_type code = false

abbrev is_ok_of : Body → Bool
is_ok_of (success_body b) = b.is_ok
is_ok_of (status_body b) = b.is_ok
is_ok_of (error_body b) = b.is_ok

abbrev is_error : Outcome ServiceError Response → ℕ → String → String → Bool
is_error (ok response) status error_type code =
    response.status_code == status && error_body_is response.body error_type code
is_error _ status error_type code = false

abbrev is_refused : Outcome ServiceError Response → Bool
is_refused (ok response) = not (is_ok_of response.body)
is_refused _ = false

-- The asserts on the response and on the captured request of the first test.
abbrev parsed_is : Option ParsedSummary → String → ℕ → Bool
parsed_is none message_version message_length = false
parsed_is (some parsed) message_version message_length =
    same_text parsed.message_version message_version && parsed.message_length == message_length

abbrev is_verified : Body → Bool
is_verified (success_body b) =
    b.is_ok
    && parsed_is b.parsed "legacy" (length legacy_message)
    && b.verification.verified
    && b.hardware.batch_id == 42
is_verified _ = false

abbrev captured_jobs : List VerificationJob → Bool
captured_jobs (job ∷ []) =
    same_bytes job.pubkey signer && same_bytes job.signature (replicate 64 0xa5)
captured_jobs _ = false

abbrev is_captured : Option HardwareBatchRequest → Bool
is_captured none = false
is_captured (some captured) =
    is_strict captured.verify_mode
    && same_bytes captured.message legacy_message
    && captured_jobs captured.jobs

abbrev is_answered : Outcome ServiceError Response → Bool
is_answered (ok response) = response.status_code == 200 && is_verified response.body
is_answered _ = false

unfoldable verify_transaction_returns_expected_json : Bool
verify_transaction_returns_expected_json =
    let c = crates_for (transaction_request "transaction" true) (batch_request "32 zeros") in
    let r =
      post_verify_transaction c (mock_accelerator (status_template true) (ok success_result)) "id"
        [] none in
    is_answered r.0 && is_captured r.1

unfoldable verify_batch_rejects_invalid_job_length : Bool
verify_batch_rejects_invalid_job_length =
    let c = crates_for (transaction_request "transaction" true) (batch_request "31 zeros") in
    let r =
      post_verify_batch c (mock_accelerator (status_template true) (ok success_result)) "id" []
        none in
    is_refused r.0 && is_error r.0 400 "invalid_request" "invalid_jobs[0].pubkey_length"

unfoldable verify_batch_surfaces_accelerator_busy_as_service_unavailable : Bool
verify_batch_surfaces_accelerator_busy_as_service_unavailable =
    let c = crates_for (transaction_request "transaction" true) (batch_request "32 zeros") in
    let busy =
      ServiceError.unavailable "accelerator_busy"
        "another verification request is already running" in
    let r = post_verify_batch c (mock_accelerator (status_template true) (err busy)) "id" [] none in
    is_refused r.0 && is_error r.0 503 "service_unavailable" "accelerator_busy"

unfoldable verify_transaction_reports_parse_errors : Bool
verify_transaction_reports_parse_errors =
    let c = crates_for (transaction_request "short" false) (batch_request "32 zeros") in
    let r =
      post_verify_transaction c (mock_accelerator (status_template true) (ok success_result)) "id"
        [] none in
    is_error r.0 400 "parse_error" "transaction_parse_failed"

abbrev detail_is : Option String → String → Bool
detail_is none text = false
detail_is (some detail) text = same_text detail text

abbrev is_unready : Body → Bool
is_unready (status_body b) = b.is_ok && not b.ready && detail_is b.detail "hardware unavailable"
is_unready _ = false

abbrev is_reported : Outcome ServiceError Response → Bool
is_reported (ok response) = response.status_code == 200 && is_unready response.body
is_reported _ = false

unfoldable status_reports_hardware_health : Bool
status_reports_hardware_health =
    let c = crates_for (transaction_request "transaction" true) (batch_request "32 zeros") in
    is_reported (get_status c (mock_accelerator (status_template false) (ok success_result)) none).0

unit_tests :
    (verify_transaction_returns_expected_json ≡ true)
    × (verify_batch_rejects_invalid_job_length ≡ true)
    × (verify_batch_surfaces_accelerator_busy_as_service_unavailable ≡ true)
    × (verify_transaction_reports_parse_errors ≡ true)
    × (status_reports_hardware_health ≡ true)
unfolding verify_transaction_returns_expected_json verify_batch_rejects_invalid_job_length
    verify_batch_surfaces_accelerator_busy_as_service_unavailable
    verify_transaction_reports_parse_errors status_reports_hardware_health post_verify_transaction
    post_verify_batch get_status joined_status status_response verify execute_verify joined respond
    success_response error_response status_code_for_error all_signers_verified all_true
    error_code_name mode_name to_string parse_json validate_timeout_ms with_valid_timeout
    decode_base64 decode_payload decode_fixed_base64 decode_jobs build_logical_batch_request
    build_transaction_batch_request built_of as_str legacy_message legacy_transaction
    parse_transaction assemble build_jobs parse_message parse_body message_prefix skip_lookups_of
    decode_compact_u16 take take_arrays skip_compiled_instructions repeat_skip skip_instruction
    decimal trim trim_start trim_end
unit_tests = (refl, refl, refl, refl, refl)
