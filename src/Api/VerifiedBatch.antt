-- ===== src/Api/VerifiedBatch.antt =====
-- What `verified: true` stands for in an answer of `post_verify_batch` of api.rs.
use kv260_sigverify.Prelude.{
  ℕ, ◌≡◌, sym, ap, subst, ◌∙◌, List, String, Bool, true, none, inr, ok, ◌>>=◌, >>=-eq-ok, length,
  ◌==◌, All,
}
use kv260_sigverify.Accelerator.Types.{AcceleratorConfig, HardwareBatchResult, VerificationJob}
use kv260_sigverify.Accelerator.Host.{Host}
use kv260_sigverify.Accelerator.Batch.{verify_batch}
use kv260_sigverify.Accelerator.Batch.Results.{IsResult, verify_batch-IsResult}
use kv260_sigverify.Accelerator.SingleFlight.Alone.{single_flight-ok}
use kv260_sigverify.Accelerator.Mapped.{mapped_accelerator}
use kv260_sigverify.Api.Types.{
  VerifyBatchRequest, BuiltRequest, Response, VerifySuccessResponse, success_body, Crates,
}
use kv260_sigverify.Api.Build.{
  parse_json, decode_payload, decode_jobs, build_logical_batch_request, with_valid_timeout,
}
use kv260_sigverify.Api.Handlers.{post_verify_batch}
use kv260_sigverify.Api.Success.{verify-Succeeded, Vouches, all_signers_verified-Vouches, ok-eq}
use kv260_sigverify.Api.Jobs.{IsJob, decode_jobs-length}
use kv260_sigverify.Api.Verified.{daemon_accelerator, call-ok, if_err-ok, with_valid_timeout-ok}

-- The batch of a request, its message and jobs decoded.
abbrev built_logical : VerifyBatchRequest → List ℕ → List VerificationJob → BuiltRequest
built_logical request message jobs = record {
  total_jobs = length jobs;
  batch_request = record {
    message = message;
    jobs = jobs;
    verify_mode = request.verify_mode;
    timeout = request.timeout_ms;
    dispatch_limit = request.dispatch_limit;
    job_timeout_cycles = request.job_timeout_cycles;
  };
  parsed_summary = none;
  verify_mode = request.verify_mode;
  timeout_ms = request.timeout_ms;
}

record IsBuiltBatch (c : Crates) (body : List ℕ) (built : BuiltRequest) : Type 0 where
  request : VerifyBatchRequest
  message : List ℕ
  jobs : List VerificationJob
  request_eq : c.batch_from_slice body ≡ inr request
  message_eq : decode_payload c request.message "message" ≡ ok message
  jobs_eq : decode_jobs c 0 request.jobs ≡ ok jobs
  built_eq : built ≡ built_logical request message jobs

built_batch :
    (c : Crates) (body : List ℕ) {built : BuiltRequest}
    → (parse_json c.batch_from_slice body >>= build_logical_batch_request c >>= with_valid_timeout)
      ≡ ok built
    → IsBuiltBatch c body built
unfolding parse_json build_logical_batch_request
built_batch c body h =
    let (b, h1, valid) =
      >>=-eq-ok (parse_json c.batch_from_slice body >>= build_logical_batch_request c) _ h in
    let (request, h2, h3) = >>=-eq-ok (parse_json c.batch_from_slice body) _ h1 in
    let (message, h4, h5) = >>=-eq-ok (decode_payload c request.message "message") _ h3 in
    let h6 = if_err-ok (length message == 0) _ _ h5 in
    let h7 = if_err-ok (length request.jobs == 0) _ _ h6 in
    let (jobs, h8, h9) = >>=-eq-ok (decode_jobs c 0 request.jobs) _ h7 in
    record {
      request = request;
      message = message;
      jobs = jobs;
      request_eq = call-ok _ (c.batch_from_slice body) h2;
      message_eq = h4;
      jobs_eq = h8;
      built_eq = sym (with_valid_timeout-ok b valid) ∙ sym (ok-eq h9);
    }

-- The body is a request, the device ran its decoded jobs over its decoded message, and gave one bit
-- for each job of the request, all of them set.
pub record IsVerifiedBatch (h : Host) (fuel : ℕ) (config : AcceleratorConfig) (c : Crates)
    (body : List ℕ) (w w2 : h.World) (response : VerifySuccessResponse) : Type 0 where
  pub request : VerifyBatchRequest
  pub message : List ℕ
  pub jobs : List VerificationJob
  pub result : HardwareBatchResult
  pub request_eq : c.batch_from_slice body ≡ inr request
  pub message_eq : decode_payload c request.message "message" ≡ ok message
  pub jobs_eq : decode_jobs c 0 request.jobs ≡ ok jobs
  pub all_jobs : All IsJob jobs
  pub ran :
      verify_batch h fuel config (built_logical request message jobs).batch_request w
      ≡ (ok result, w2)
  pub is_result : IsResult result
  pub vouches : Vouches (length request.jobs) result
  pub shown : response.verification.result_bits ≡ result.result_bits
  pub one_bit_each : length result.result_bits ≡ length request.jobs

-- If `post_verify_batch`, over the guard and the mapped device, answers a success with `verified`
-- true, then the body is a request whose message and jobs decode, each job to a key of 32 and a
-- signature of 64 bytes, the device ran exactly these, and its result is valid, with no error and no
-- dropped job, and has one bit for each job of the request, all of them set.
pub post_verify_batch-verified :
    (h : Host) (fuel : ℕ) (config : AcceleratorConfig) (c : Crates) (request_id : String)
    (body : List ℕ) (busy : Bool) (w : h.World) (s2 : Bool × h.World) (answer : Response)
    (response : VerifySuccessResponse)
    → post_verify_batch c (daemon_accelerator h fuel config) request_id body (busy, w)
      ≡ (ok answer, s2)
    → answer.body ≡ success_body response
    → response.verification.verified ≡ true
    → IsVerifiedBatch h fuel config c body w s2.1 response
unfolding post_verify_batch mapped_accelerator
post_verify_batch-verified h fuel config c request_id body busy w s2 answer response e b v =
    let done =
      verify-Succeeded c.join_error request_id _ (daemon_accelerator h fuel config) _ (busy, w) s2
        answer response e b in
    let built = built_batch c body done.built_eq in
    let ran = single_flight-ok (mapped_accelerator h fuel config) _ busy w done.ran in
    let (is_result, count) = verify_batch-IsResult h fuel config _ w s2.1 done.result ran in
    let vouches = all_signers_verified-Vouches _ done.result (sym done.verified_eq ∙ v) in
    let (as_many, all_jobs) = decode_jobs-length c 0 built.request.jobs built.jobs_eq in
    let total = ap (λ x. x.total_jobs) built.built_eq ∙ as_many in
    record {
      request = built.request;
      message = built.message;
      jobs = built.jobs;
      result = done.result;
      request_eq = built.request_eq;
      message_eq = built.message_eq;
      jobs_eq = built.jobs_eq;
      all_jobs = all_jobs;
      ran = ap (λ x. verify_batch h fuel config x.batch_request w) (sym built.built_eq) ∙ ran;
      is_result = is_result;
      vouches = subst (λ n. Vouches n done.result) total vouches;
      shown = done.bits_eq;
      one_bit_each = count ∙ vouches.all_accepted ∙ total;
    }
