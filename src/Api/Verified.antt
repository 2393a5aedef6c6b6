-- ===== src/Api/Verified.antt =====
-- What the daemon's `verified: true` stands for: api.rs over the single-flight guard and the mapped
-- accelerator of accelerator.rs, and parser.rs.
use kv260_sigverify.Prelude.{
  arith, ℕ, ◌≡◌, sym, ap, subst, ◌∙◌, List, map, String, Bool, true, false, ◌⊎◌, inl, inr, Outcome,
  ok, err, panic, ◌>>=◌, >>=-eq-ok, map_err, length, ◌==◌, if◌then◌else◌,
}
use kv260_sigverify.Prelude.Format.{◌⧺◌}
use kv260_sigverify.StdText.{trim}
use kv260_sigverify.ServiceError
use kv260_sigverify.ServiceError.{ServiceError}
use kv260_sigverify.Parser.Types.{ParsedTransaction}
use kv260_sigverify.Parser.Skips.{IsSlice}
use kv260_sigverify.Parser.Transaction.{parse_transaction}
use kv260_sigverify.Parser.Transaction.Assemble.{IsTransaction}
use kv260_sigverify.Parser.Transaction.Correct.{few_jobs-IsTransaction}
use kv260_sigverify.Accelerator.Types.{AcceleratorConfig, HardwareBatchResult}
use kv260_sigverify.Accelerator.Host.{Host}
use kv260_sigverify.Accelerator.Batch.{verify_batch}
use kv260_sigverify.Accelerator.Batch.Results.{IsResult, verify_batch-IsResult}
use kv260_sigverify.Accelerator.SingleFlight.{Accelerator, single_flight}
use kv260_sigverify.Accelerator.SingleFlight.Alone.{single_flight-ok}
use kv260_sigverify.Accelerator.Mapped.{mapped_accelerator}
use kv260_sigverify.Api.Types.{
  VerifyTransactionRequest, BuiltRequest, Response, VerifySuccessResponse, success_body, Crates,
  base64, hex, EncodedPayload,
}
use kv260_sigverify.Api.Build.{
  Service, call, parse_json, decode_payload, decode_base64, build_transaction_batch_request,
  built_of, with_valid_timeout, validate_timeout_ms, without_index,
}
use kv260_sigverify.Api.Handlers.{post_verify_transaction}
use kv260_sigverify.Api.Success.{verify-Succeeded, Vouches, all_signers_verified-Vouches, ok-eq}

-- The accelerator that `serve` gives the router: the guard over the mapped device.
abbrev pub daemon_accelerator : (h : Host) → ℕ → AcceleratorConfig → Accelerator (Bool × h.World)
daemon_accelerator h fuel config = single_flight (mapped_accelerator h fuel config)

-- The decoders give slices that Rust can hold, of bytes.
pub record DecodesSlices (c : Crates) : Type 0 where
  pub base64_slice :
      (text : String) (bytes : List ℕ) → c.base64_decode text ≡ inr bytes → IsSlice bytes
  pub hex_slice : (text : String) (bytes : List ℕ) → c.hex_decode text ≡ inr bytes → IsSlice bytes

-- The body is a request for a transaction of the wire format, the device ran its signatures against
-- its signers' keys over its message, and gave one bit for each signature, all of them set.
pub record IsVerifiedTransaction (h : Host) (fuel : ℕ) (config : AcceleratorConfig) (c : Crates)
    (body : List ℕ) (w w2 : h.World) (response : VerifySuccessResponse) : Type 0 where
  pub request : VerifyTransactionRequest
  pub bytes : List ℕ
  pub parsed : ParsedTransaction
  pub result : HardwareBatchResult
  pub request_eq : c.transaction_from_slice body ≡ inr request
  pub bytes_eq : decode_payload c request.transaction "transaction" ≡ ok bytes
  pub transaction : IsTransaction bytes parsed
  pub ran :
      verify_batch h fuel config
        (record {
          message = parsed.message_bytes;
          jobs = map without_index parsed.jobs;
          verify_mode = request.verify_mode;
          timeout = request.timeout_ms;
          dispatch_limit = request.dispatch_limit;
          job_timeout_cycles = request.job_timeout_cycles;
        })
        w
      ≡ (ok result, w2)
  pub is_result : IsResult result
  pub vouches : Vouches (length parsed.jobs) result
  pub shown : response.verification.result_bits ≡ result.result_bits
  pub one_bit_each : length result.result_bits ≡ length parsed.jobs

pub call-ok :
    {A : Type 0} (on_error : String → ServiceError) (r : String ⊎ A) {a : A}
    → call on_error r ≡ ok a
    → r ≡ inr a
call-ok on_error (inl text) h = cc
call-ok on_error (inr b) h = ap inr (ok-eq h)

map_err-ok :
    {E A : Type 0} (f : E → ServiceError) (m : Outcome E A) {a : A} → map_err f m ≡ ok a → m ≡ ok a
map_err-ok f (ok b) h = let same = ok-eq h in cc
map_err-ok f (err x) h = cc
map_err-ok f panic h = cc

pub if_err-ok :
    {A : Type 0} (b : Bool) (e : ServiceError) (m : Service A) {a : A}
    → (if b then err e else m) ≡ ok a
    → m ≡ ok a
if_err-ok true e m h = cc
if_err-ok false e m h = h

pub with_valid_timeout-ok :
    (request : BuiltRequest) {r : BuiltRequest} → with_valid_timeout request ≡ ok r → request ≡ r
unfolding with_valid_timeout
with_valid_timeout-ok request h =
    let (done, e, same) = >>=-eq-ok (validate_timeout_ms request.timeout_ms) _ h in ok-eq same

decode_payload-IsSlice :
    (c : Crates) (payload : EncodedPayload) (label : String) {bytes : List ℕ}
    → DecodesSlices c
    → decode_payload c payload label ≡ ok bytes
    → IsSlice bytes
unfolding decode_payload decode_base64
decode_payload-IsSlice c payload label {bytes} slices h =
    elim payload.encoding
        as (λ x.
          ◌≡◌ {A = Service (List ℕ)}
            (elim x [
              | base64 ↦ decode_base64 c payload.data_text label
              | hex ↦
                  call
                    (λ error.
                      ServiceError.parse "invalid_hex" ("invalid hex " ⧺ label ⧺ ": " ⧺ error))
                    (c.hex_decode (trim payload.data_text))
            ])
            (ok bytes)
          → IsSlice bytes) [
            | base64 ↦ λ e. slices.base64_slice _ bytes (call-ok _ (c.base64_decode _) e)
            | hex ↦ λ e. slices.hex_slice _ bytes (call-ok _ (c.hex_decode _) e)
          ]
      h

-- Where the built request comes from.
record IsBuiltTransaction (c : Crates) (body : List ℕ) (built : BuiltRequest) : Type 0 where
  request : VerifyTransactionRequest
  bytes : List ℕ
  parsed : ParsedTransaction
  request_eq : c.transaction_from_slice body ≡ inr request
  bytes_eq : decode_payload c request.transaction "transaction" ≡ ok bytes
  parsed_eq : parse_transaction bytes ≡ ok parsed
  built_eq : built ≡ built_of request parsed

built_transaction :
    (c : Crates) (body : List ℕ) {built : BuiltRequest}
    → (parse_json c.transaction_from_slice body
        >>= build_transaction_batch_request c
        >>= with_valid_timeout)
      ≡ ok built
    → IsBuiltTransaction c body built
unfolding parse_json build_transaction_batch_request
built_transaction c body h =
    let (b, h1, valid) =
      >>=-eq-ok (parse_json c.transaction_from_slice body >>= build_transaction_batch_request c) _
        h in
    let (request, h2, h3) = >>=-eq-ok (parse_json c.transaction_from_slice body) _ h1 in
    let (bytes, h4, h5) = >>=-eq-ok (decode_payload c request.transaction "transaction") _ h3 in
    let (parsed, h6, h7) = >>=-eq-ok (map_err _ (parse_transaction bytes)) _ h5 in
    record {
      request = request;
      bytes = bytes;
      parsed = parsed;
      request_eq = call-ok _ (c.transaction_from_slice body) h2;
      bytes_eq = h4;
      parsed_eq = map_err-ok _ (parse_transaction bytes) h6;
      built_eq =
          sym (with_valid_timeout-ok b valid)
          ∙ sym (ok-eq (if_err-ok (length parsed.jobs == 0) _ _ h7));
    }

-- If the decoders give slices of bytes and `post_verify_transaction`, over the guard and the mapped
-- device, answers a success with `verified` true, then the body is a request for bytes that are a
-- transaction of the wire format, the device ran the batch of its message and of its signatures
-- paired with their signers' keys, and its result is valid, with no error and no dropped job, and has
-- one bit for each signature of the transaction, all of them set.
pub post_verify_transaction-verified :
    (h : Host) (fuel : ℕ) (config : AcceleratorConfig) (c : Crates) (request_id : String)
    (body : List ℕ) (busy : Bool) (w : h.World) (s2 : Bool × h.World) (answer : Response)
    (response : VerifySuccessResponse)
    → DecodesSlices c
    → post_verify_transaction c (daemon_accelerator h fuel config) request_id body (busy, w)
      ≡ (ok answer, s2)
    → answer.body ≡ success_body response
    → response.verification.verified ≡ true
    → IsVerifiedTransaction h fuel config c body w s2.1 response
unfolding post_verify_transaction built_of mapped_accelerator
post_verify_transaction-verified h fuel config c request_id body busy w s2 answer response slices e
      b v =
    let done =
      verify-Succeeded c.join_error request_id _ (daemon_accelerator h fuel config) _ (busy, w) s2
        answer response e b in
    let built = built_transaction c body done.built_eq in
    let ran = single_flight-ok (mapped_accelerator h fuel config) _ busy w done.ran in
    let (is_result, count) = verify_batch-IsResult h fuel config _ w s2.1 done.result ran in
    let vouches = all_signers_verified-Vouches _ done.result (sym done.verified_eq ∙ v) in
    let jobs : done.result.accepted_job_count ≡ length built.parsed.jobs =
      vouches.all_accepted ∙ ap (λ x. x.total_jobs) built.built_eq in
    record {
      request = built.request;
      bytes = built.bytes;
      parsed = built.parsed;
      result = done.result;
      request_eq = built.request_eq;
      bytes_eq = built.bytes_eq;
      transaction =
          few_jobs-IsTransaction built.bytes built.parsed
            (decode_payload-IsSlice c _ _ slices built.bytes_eq) built.parsed_eq
            (omega (arith, is_result.few, jobs));
      ran = ap (λ x. verify_batch h fuel config x.batch_request w) (sym built.built_eq) ∙ ran;
      is_result = is_result;
      vouches = subst (λ x. Vouches x.total_jobs done.result) built.built_eq vouches;
      shown = done.bits_eq;
      one_bit_each = count ∙ jobs;
    }
