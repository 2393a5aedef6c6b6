-- ===== src/Api/Success.antt =====
-- What lies behind a successful response of api.rs.
use kv260_sigverify.Prelude.{
  ℕ, ◌≡◌, refl, sym, ap, ◌∙◌, List, [], ◌∷◌, String, Bool, true, false, not, ◌&&◌, Option, Outcome,
  ok, err, panic, length, ◌==◌, ==_iff, All,
}
use kv260_sigverify.ServiceError.{ServiceError}
use kv260_sigverify.Accelerator.Types.{HardwareBatchResult}
use kv260_sigverify.Accelerator.SingleFlight.{Accelerator}
use kv260_sigverify.Api.Types.{
  ParsedSummary, BuiltRequest, Response, VerifySuccessResponse, success_body, error_body,
}
use kv260_sigverify.Api.Build.{Service}
use kv260_sigverify.Api.Handlers.{
  verify, respond, execute_verify, joined, success_response, error_response, all_signers_verified,
  all_true,
}

pub ok-eq : {A : Type 0} {a b : A} → ◌≡◌ {A = Service A} (ok a) (ok b) → a ≡ b
ok-eq h = cc

success_body-eq : {a b : VerifySuccessResponse} → success_body a ≡ success_body b → a ≡ b
success_body-eq h = cc

&&-eq-true : (a b : Bool) → (a && b) ≡ true → (a ≡ true) × (b ≡ true)
&&-eq-true true b h = (refl, h)
&&-eq-true false b h = cc

not-eq-true : (a : Bool) → not a ≡ true → a ≡ false
not-eq-true true h = cc
not-eq-true false h = refl

all_true-All : (bits : List Bool) → all_true bits ≡ true → All (λ bit. bit ≡ true) bits
unfolding all_true
all_true-All [] h = tt
all_true-All (bit ∷ bits) h =
    let (here, rest) = &&-eq-true bit (all_true bits) h in (here, all_true-All bits rest)

-- A result of the hardware that vouches for so many jobs.
pub record Vouches (total_jobs : ℕ) (result : HardwareBatchResult) : Type 0 where
  pub valid : result.result_valid ≡ true
  pub no_error : result.error ≡ false
  pub all_accepted : result.accepted_job_count ≡ total_jobs
  pub none_dropped : result.jobs_dropped ≡ 0
  pub all_bits : All (λ bit. bit ≡ true) result.result_bits

pub all_signers_verified-Vouches :
    (total_jobs : ℕ) (result : HardwareBatchResult)
    → all_signers_verified total_jobs result ≡ true
    → Vouches total_jobs result
unfolding all_signers_verified
all_signers_verified-Vouches total_jobs result h =
    let (h4, bits) = &&-eq-true _ (all_true result.result_bits) h in
    let (h3, some_bits) = &&-eq-true _ (not (length result.result_bits == 0)) h4 in
    let (h2, dropped) = &&-eq-true _ (result.jobs_dropped == 0) h3 in
    let (h1, accepted) = &&-eq-true _ (result.accepted_job_count == total_jobs) h2 in
    let (valid, no_error) = &&-eq-true result.result_valid (not result.error) h1 in
    record {
      valid = valid;
      no_error = not-eq-true result.error no_error;
      all_accepted = (==_iff _ _).0 accepted;
      none_dropped = (==_iff _ _).0 dropped;
      all_bits = all_true-All result.result_bits bits;
    }

-- What a handler did where it answers with a success.
pub record Succeeded {W : Type 0} (accelerator : Accelerator W) (built : Service BuiltRequest)
    (w w2 : W) (response : VerifySuccessResponse) : Type 0 where
  pub request : BuiltRequest
  pub result : HardwareBatchResult
  pub built_eq : built ≡ ok request
  pub ran : accelerator.verify_batch request.batch_request w ≡ (ok result, w2)
  pub verified_eq : response.verification.verified ≡ all_signers_verified request.total_jobs result
  pub bits_eq : response.verification.result_bits ≡ result.result_bits

module _ {W : Type 0} (join_error request_id : String)
    (summary : BuiltRequest → Option ParsedSummary) (accelerator : Accelerator W) where
  after_run :
      (request : BuiltRequest) (w w2 : W) (answer : Response) (response : VerifySuccessResponse)
      (r : Outcome ServiceError HardwareBatchResult × W)
      → accelerator.verify_batch request.batch_request w ≡ r
      → respond request_id (summary request) request (joined join_error r.0) ≡ ok answer
      → r.1 ≡ w2
      → answer.body ≡ success_body response
      → Succeeded accelerator (ok request) w w2 response
  unfolding respond joined success_response error_response
  after_run request w w2 answer response (ok result, w1) ran h hw b =
      let shown : success_body _ ≡ success_body response = ap (λ x. x.body) (ok-eq h) ∙ b in
      let same = success_body-eq shown in
      record {
        request = request;
        result = result;
        built_eq = refl;
        ran = rw (← hw) ran;
        verified_eq = ap (λ x. x.verification.verified) (sym same);
        bits_eq = ap (λ x. x.verification.result_bits) (sym same);
      }
  after_run request w w2 answer response (err e, w1) ran h hw b =
      let shown : error_body _ ≡ success_body response = ap (λ x. x.body) (ok-eq h) ∙ b in cc
  after_run request w w2 answer response (panic, w1) ran h hw b =
      let shown : error_body _ ≡ success_body response = ap (λ x. x.body) (ok-eq h) ∙ b in cc

  pub verify-Succeeded :
      (built : Service BuiltRequest) (w w2 : W) (answer : Response)
      (response : VerifySuccessResponse)
      → verify join_error request_id summary accelerator built w ≡ (ok answer, w2)
      → answer.body ≡ success_body response
      → Succeeded accelerator built w w2 response
  unfolding verify execute_verify error_response
  verify-Succeeded (ok request) w w2 answer response h b =
      after_run request w w2 answer response (accelerator.verify_batch request.batch_request w) refl
        (ap (λ x. x.0) h) (ap (λ x. x.1) h) b
  verify-Succeeded (err e) w w2 answer response h b =
      let shown : error_body _ ≡ success_body response =
        ap (λ x. x.body) (ok-eq (ap (λ x. x.0) h)) ∙ b in
      cc
  verify-Succeeded panic w w2 answer response h b = let stuck = ap (λ x. x.0) h in cc
