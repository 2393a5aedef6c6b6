-- ===== src/Api/BatchExamples.antt =====
-- A run of `post_verify_batch` of api.rs on one job, and the theorem at it.
use kv260_sigverify.Prelude.{
  ◌≡◌, refl, inl, inr, [], ◌∷◌, none, false, ok, replicate, if◌then◌else◌,
}
use text.Mathlib.Text.{◌==◌ as same_text}
use kv260_sigverify.Prelude.Format.{hex_padded}
use kv260_sigverify.StdText.{file_name, path_parts, last_part, trim, trim_start, trim_end}
use kv260_sigverify.Api.Build.{decode_fixed_base64, decode_jobs}
use kv260_sigverify.Accelerator.Types.{strict, mode_name}
use kv260_sigverify.Accelerator.Mmio.{
  open_region, system_page_size, checked_word_start, read_u32, write_u32, write_bytes,
}
use kv260_sigverify.Accelerator.LittleEndian.{full_word, last_word}
use kv260_sigverify.Accelerator.Words.{full_words, tail_word, zero_words, write_bytes_as_u32_words}
use kv260_sigverify.Accelerator.Layout.{
  resolve_region, resolve_layout, wait_mode_for_layout, path_uses_uio,
}
use kv260_sigverify.Accelerator.Device.{
  probe_hardware_identity, require_full_hardware, decode_status, poll_until_complete,
  read_mask_words, read_result_mask, read_snapshot, mask_bit, mask_bits_from, mask_bits,
  result_mask_hex,
}
use kv260_sigverify.Accelerator.Batch.{
  jobs_bytes, check_request, check_jobs_size, submit, start_and_wait, collect, instant_add,
  run_batch, verify_batch,
}
use kv260_sigverify.Accelerator.SingleFlight.{single_flight, try_acquire}
use kv260_sigverify.Accelerator.Mapped.{mapped_accelerator}
use kv260_sigverify.Accelerator.Examples.{ready_host, mem_config}
use kv260_sigverify.Api.Types.{
  Crates, hex, default_timeout_ms, Response, VerifySuccessResponse, success_body,
}
use kv260_sigverify.Api.Build.{
  parse_json, validate_timeout_ms, with_valid_timeout, decode_base64, decode_payload,
  build_logical_batch_request,
}
use kv260_sigverify.Api.Handlers.{
  post_verify_batch, verify, execute_verify, joined, respond, success_response,
  all_signers_verified, all_true, error_code_name,
}
use kv260_sigverify.Api.Verified.{daemon_accelerator}
use kv260_sigverify.Api.VerifiedBatch.{IsVerifiedBatch, post_verify_batch-verified}
use kv260_sigverify.Api.Examples.{answered}

-- The two texts in base64 are a key and a signature, and every body asks for one job.
abbrev batch_crates : Crates
batch_crates = record {
  transaction_from_slice = λ body. inl "EOF";
  batch_from_slice = λ body. inr (record {
    message = record { encoding = hex; data_text = "010203" };
    jobs = record { pubkey = "key"; signature = "signature" } ∷ [];
    verify_mode = strict;
    timeout_ms = default_timeout_ms;
    dispatch_limit = 0;
    job_timeout_cycles = 0;
  });
  base64_decode = λ text. inr (if same_text text "key" then replicate 32 7 else replicate 64 9);
  hex_decode = λ text. inr (1 ∷ 2 ∷ 3 ∷ []);
  join_error = "panic";
}

abbrev batch_answered : VerifySuccessResponse
batch_answered = record answered { parsed = none }

abbrev batch_answer : Response
batch_answer = record { status_code = 200; body = success_body batch_answered }

batch_verifies :
    post_verify_batch batch_crates (daemon_accelerator ready_host 3 mem_config) "id" [] (false, tt)
    ≡ (ok batch_answer, (false, tt))
unfolding zero_words full_word last_word full_words tail_word write_bytes_as_u32_words write_bytes
    write_u32 read_u32 checked_word_start open_region system_page_size resolve_region resolve_layout
    wait_mode_for_layout path_uses_uio probe_hardware_identity require_full_hardware decode_status
    poll_until_complete read_mask_words read_result_mask read_snapshot mask_bit mask_bits_from
    mask_bits result_mask_hex jobs_bytes check_request check_jobs_size submit start_and_wait collect
    instant_add run_batch verify_batch file_name path_parts last_part hex_padded single_flight
    try_acquire mapped_accelerator post_verify_batch verify execute_verify joined respond
    success_response all_signers_verified all_true error_code_name mode_name parse_json
    validate_timeout_ms with_valid_timeout decode_base64 decode_payload build_logical_batch_request
    decode_fixed_base64 decode_jobs trim trim_start trim_end
batch_verifies = refl

post_verify_batch-verified_example :
    IsVerifiedBatch ready_host 3 mem_config batch_crates [] tt tt batch_answered
post_verify_batch-verified_example =
    post_verify_batch-verified ready_host 3 mem_config batch_crates "id" [] false tt (false, tt)
      batch_answer batch_answered batch_verifies refl refl
