-- ===== src/Api/Examples.antt =====
-- Runs of the handlers of api.rs on the transaction of their unit tests, and the theorems at them.
use kv260_sigverify.Prelude.{
  ◌*◌, ◌≡◌, refl, subst, ◌⊎◌, inl, inr, [], ◌∷◌, String, true, false, some, ok, err, ◌>>=◌,
  replicate, length, arith,
}
use kv260_sigverify.Prelude.Format.{hex_padded}
use kv260_sigverify.StdText.{file_name, path_parts, last_part}
use kv260_sigverify.ServiceError
use kv260_sigverify.ServiceError.{ServiceError}
use kv260_sigverify.Parser.Types.{to_string}
use kv260_sigverify.Parser.Skips.{IsSlice}
use kv260_sigverify.Parser.Compact.{decode_compact_u16}
use kv260_sigverify.Parser.Reader.{
  take, take_arrays, repeat_skip, skip_instruction, skip_compiled_instructions,
}
use kv260_sigverify.Parser.Message.{message_prefix, skip_lookups_of, parse_body, parse_message}
use kv260_sigverify.Parser.Transaction.{build_jobs, assemble, parse_transaction}
use kv260_sigverify.Parser.Examples.{legacy_transaction, legacy-IsSlice}
use kv260_sigverify.Accelerator.Types.{strict, mode_name, VerificationJob}
use kv260_sigverify.Accelerator.Mmio.{
  open_region, system_page_size, checked_word_start, read_u32, write_u32, write_bytes,
}
use kv260_sigverify.Accelerator.LittleEndian.{full_word, last_word}
use kv260_sigverify.Accelerator.Words.{full_words, tail_word, zero_words, write_bytes_as_u32_words}
use kv260_sigverify.Accelerator.Layout.{
  resolve_region, resolve_layout, wait_mode_for_layout, path_uses_uio,
}
use kv260_sigverify.Accelerator.Device.{
  probe_hardware_identity, require_full_hardware, decode_status, poll_until_complete,
  read_mask_words, read_result_mask, read_snapshot, mask_bit, mask_bits_from, mask_bits,
  result_mask_hex,
}
use kv260_sigverify.Accelerator.Batch.{
  jobs_bytes, check_request, check_jobs_size, submit, start_and_wait, collect, instant_add,
  run_batch, verify_batch,
}
use kv260_sigverify.Accelerator.SingleFlight.{single_flight, try_acquire}
use kv260_sigverify.Accelerator.Mapped.{mapped_accelerator}
use kv260_sigverify.Accelerator.Examples.{ready_host, mem_config}
use kv260_sigverify.Api.Types.{
  Crates, base64, hex, default_timeout_ms, Response, VerifySuccessResponse, success_body,
}
use kv260_sigverify.Api.Build.{
  parse_json, validate_timeout_ms, with_valid_timeout, decode_base64, decode_payload,
  build_logical_batch_request, build_transaction_batch_request, built_of,
}
use kv260_sigverify.Api.Handlers.{
  post_verify_transaction, post_verify_batch, verify, execute_verify, joined, respond,
  success_response, error_response, all_signers_verified, all_true, error_code_name,
}
use kv260_sigverify.Api.BadRequest.{
  post_verify_batch_bad_request, post_verify_transaction_bad_request,
}
use kv260_sigverify.Api.Jobs.{check_jobs_size-fits}
use kv260_sigverify.Api.Verified.{
  DecodesSlices, daemon_accelerator, IsVerifiedTransaction, post_verify_transaction-verified,
}

-- Every text in base64 is the transaction, and every body asks for it with a summary.
abbrev pub test_crates : Crates
test_crates = record {
  transaction_from_slice = λ body. inr (record {
    transaction = record { encoding = base64; data_text = "pQ==" };
    verify_mode = strict;
    timeout_ms = default_timeout_ms;
    dispatch_limit = 0;
    job_timeout_cycles = 0;
    include_parse_summary = true;
  });
  batch_from_slice = λ body. inr (record {
    message = record { encoding = hex; data_text = "zz" };
    jobs = [];
    verify_mode = strict;
    timeout_ms = default_timeout_ms;
    dispatch_limit = 0;
    job_timeout_cycles = 0;
  });
  base64_decode = λ text. inr legacy_transaction;
  hex_decode = λ text. inl "Invalid character";
  join_error = "panic";
}

inr_injective : {A : Type 0} {a b : A} → ◌≡◌ {A = String ⊎ A} (inr a) (inr b) → a ≡ b
inr_injective h = cc

test_crates-DecodesSlices : DecodesSlices test_crates
test_crates-DecodesSlices = record {
  base64_slice = λ text bytes e. subst IsSlice (inr_injective e) legacy-IsSlice;
  hex_slice = λ text bytes e. cc;
}

-- The body of a successful response.
abbrev success_of : Response → VerifySuccessResponse → VerifySuccessResponse
success_of answer d = elim answer.body [ success_body response ↦ response | _ ↦ d ]

abbrev pub answered : VerifySuccessResponse
answered = record {
  is_ok = true;
  request_id = "id";
  parsed =
      some
        (record { message_version = "legacy"; message_length = 107; num_required_signatures = 1 });
  verification = record {
    verify_mode = "strict";
    verified = true;
    all_signers_verified = true;
    result_bits = true ∷ [];
    result_mask_hex = "0000000000000000000000000000000000000000000000000000000000000001";
  };
  hardware = record {
    batch_id = 42;
    accepted_job_count = 1;
    jobs_completed = 1;
    jobs_dropped = 0;
    error = false;
    error_code = "none";
    last_job_cycles = 0;
    last_batch_cycles = 0;
  };
}

abbrev answer : Response
answer = record { status_code = 200; body = success_body answered }

-- `verify_transaction_returns_expected_json`, over the mapped device
verifies :
    post_verify_transaction test_crates
      (daemon_accelerator ready_host 3 mem_config)
      "id"
      []
      (false, tt)
    ≡ (ok answer, (false, tt))
unfolding zero_words full_word last_word full_words tail_word write_bytes_as_u32_words write_bytes
    write_u32 read_u32 checked_word_start open_region system_page_size resolve_region resolve_layout
    wait_mode_for_layout path_uses_uio probe_hardware_identity require_full_hardware decode_status
    poll_until_complete read_mask_words read_result_mask read_snapshot mask_bit mask_bits_from
    mask_bits result_mask_hex jobs_bytes check_request check_jobs_size submit start_and_wait collect
    instant_add run_batch verify_batch file_name path_parts last_part hex_padded single_flight
    try_acquire mapped_accelerator post_verify_transaction verify execute_verify joined respond
    success_response all_signers_verified all_true error_code_name to_string mode_name parse_json
    validate_timeout_ms with_valid_timeout decode_base64 decode_payload
    build_transaction_batch_request built_of legacy_transaction parse_transaction assemble
    build_jobs parse_message parse_body message_prefix skip_lookups_of decode_compact_u16 take
    take_arrays skip_compiled_instructions repeat_skip skip_instruction
verifies = refl

post_verify_transaction-verified_example :
    IsVerifiedTransaction ready_host 3 mem_config test_crates [] tt tt answered
post_verify_transaction-verified_example =
    post_verify_transaction-verified ready_host 3 mem_config test_crates "id" [] false tt
      (false, tt) answer answered test_crates-DecodesSlices verifies refl refl

one_job : VerificationJob
one_job = record { pubkey = replicate 32 7; signature = replicate 64 9 }

check_jobs_size-fits_example :
    (length (jobs_bytes (one_job ∷ [])) ≡ 96 * length (one_job ∷ []))
    × (check_jobs_size (jobs_bytes (one_job ∷ [])) ≡ ok tt)
unfolding one_job
check_jobs_size-fits_example = check_jobs_size-fits (one_job ∷ []) ((refl, refl), tt) (omega arith)

-- A hexadecimal payload that does not decode.
hex_error : ServiceError
hex_error = ServiceError.parse "invalid_hex" "invalid hex message: Invalid character"

batch_refused :
    (parse_json test_crates.batch_from_slice []
      >>= build_logical_batch_request test_crates
      >>= with_valid_timeout)
    ≡ err hex_error
unfolding parse_json build_logical_batch_request decode_payload hex_error
batch_refused = refl

post_verify_batch_bad_request_example :
    (post_verify_batch test_crates (daemon_accelerator ready_host 3 mem_config) "id" [] (false, tt)
      ≡ (ok (error_response "id" hex_error), (false, tt)))
    × ((error_response "id" hex_error).status_code ≡ 400)
post_verify_batch_bad_request_example =
    post_verify_batch_bad_request test_crates (daemon_accelerator ready_host 3 mem_config) "id" []
      (false, tt) hex_error batch_refused

-- The same crates, with JSON that does not parse.
abbrev no_json : Crates
no_json = record test_crates { transaction_from_slice = λ body. inl "EOF" }

json_error : ServiceError
json_error = ServiceError.invalid_request "invalid_json" "invalid JSON body: EOF"

transaction_refused :
    (parse_json no_json.transaction_from_slice []
      >>= build_transaction_batch_request no_json
      >>= with_valid_timeout)
    ≡ err json_error
unfolding parse_json json_error
transaction_refused = refl

post_verify_transaction_bad_request_example :
    (post_verify_transaction no_json
        (daemon_accelerator ready_host 3 mem_config)
        "id"
        []
        (false, tt)
      ≡ (ok (error_response "id" json_error), (false, tt)))
    × ((error_response "id" json_error).status_code ≡ 400)
post_verify_transaction_bad_request_example =
    post_verify_transaction_bad_request no_json (daemon_accelerator ready_host 3 mem_config) "id" []
      (false, tt) json_error transaction_refused
