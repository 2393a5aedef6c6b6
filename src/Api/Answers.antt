-- ===== src/Api/Answers.antt =====
-- Every request to the handlers of api.rs gets a response, whatever the accelerator does.
use kv260_sigverify.Prelude.{
  ℕ, ◌≡◌, refl, List, String, none, ◌⊎◌, inl, inr, Option, Outcome, ok, err, panic,
}
use kv260_sigverify.ServiceError.{ServiceError, ErrorKind}
use kv260_sigverify.Parser.Transaction.{parse_transaction}
use kv260_sigverify.Accelerator.Types.{HardwareBatchResult}
use kv260_sigverify.Accelerator.SingleFlight.{Accelerator}
use kv260_sigverify.Api.Types.{
  ParsedSummary, Response, BuiltRequest, Crates, VerifyTransactionRequest,
}
use kv260_sigverify.Api.Build.{
  Service, decode_payload, build_logical_batch_request, build_transaction_batch_request,
}
use kv260_sigverify.Api.Handlers.{
  post_verify_transaction, post_verify_batch, verify, execute_verify, joined, respond,
  success_response, error_response, status_code_for_error,
}
use kv260_sigverify.Api.Panics.{
  Panics, request-Panics, build_logical-Panics, build_transaction-Panics,
}

-- The status codes of the handlers.
abbrev pub IsCode : ℕ → Type 0
IsCode n = (n ≡ 200) ⊎ ((n ≡ 400) ⊎ ((n ≡ 422) ⊎ ((n ≡ 503) ⊎ (n ≡ 504))))

abbrev pub IsAnswered : Outcome ServiceError Response → Type 0
IsAnswered r = (response : Response) × (r ≡ ok response) × IsCode response.status_code

status_code_for_error-IsCode : (kind : ErrorKind) → IsCode (status_code_for_error kind)
unfolding status_code_for_error
status_code_for_error-IsCode ErrorKind.parse = inr (inl refl)
status_code_for_error-IsCode ErrorKind.invalid_request = inr (inl refl)
status_code_for_error-IsCode ErrorKind.limit = inr (inr (inl refl))
status_code_for_error-IsCode ErrorKind.accelerator = inr (inr (inl refl))
status_code_for_error-IsCode ErrorKind.timeout = inr (inr (inr (inr refl)))
status_code_for_error-IsCode ErrorKind.unavailable = inr (inr (inr (inl refl)))

error_response-IsCode :
    (request_id : String) (e : ServiceError) → IsCode (error_response request_id e).status_code
unfolding error_response
error_response-IsCode request_id e = status_code_for_error-IsCode e.kind

respond-IsAnswered :
    (join_error request_id : String) (summary : Option ParsedSummary) (request : BuiltRequest)
    (r : Service HardwareBatchResult)
    → IsAnswered (respond request_id summary request (joined join_error r))
unfolding respond joined success_response
respond-IsAnswered join_error request_id summary request (ok result) = (_, refl, inl refl)
respond-IsAnswered join_error request_id summary request (err e) =
    (_, refl, error_response-IsCode request_id e)
respond-IsAnswered join_error request_id summary request panic =
    (_, refl, error_response-IsCode request_id _)

verify-IsAnswered :
    {W X : Type 0} (join_error request_id : String) (summary : BuiltRequest → Option ParsedSummary)
    (accelerator : Accelerator W) (built : Service BuiltRequest) (w : W)
    → Panics X built
    → IsAnswered (verify join_error request_id summary accelerator built w).0 ⊎ X
unfolding verify execute_verify
verify-IsAnswered join_error request_id summary accelerator (ok request) w why =
    inl (respond-IsAnswered join_error request_id (summary request) request _)
verify-IsAnswered join_error request_id summary accelerator (err e) w why =
    inl (_, refl, error_response-IsCode request_id e)
verify-IsAnswered join_error request_id summary accelerator panic w why = inr (why refl)

-- Whatever the body, the crates and the accelerator, its panics included, `post_verify_batch` gives a
-- response, with one of the status codes 200, 400, 422, 503 and 504.
pub post_verify_batch-IsAnswered :
    {W : Type 0} (c : Crates) (accelerator : Accelerator W) (request_id : String) (body : List ℕ)
    (w : W)
    → IsAnswered (post_verify_batch c accelerator request_id body w).0
unfolding post_verify_batch
post_verify_batch-IsAnswered c accelerator request_id body w =
    elim (verify-IsAnswered {X = ⊥} c.join_error request_id (λ request. none) accelerator _ w
      (request-Panics c c.batch_from_slice (build_logical_batch_request c) body
        (λ request e. build_logical-Panics c request))) [
          | inl answered ↦ answered
          | inr impossible ↦ absurd impossible
        ]

-- The body is a request whose transaction decodes to bytes on which `parse_transaction` panics.
pub record IsFatal (c : Crates) (body : List ℕ) : Type 0 where
  pub request : VerifyTransactionRequest
  pub is_request : c.transaction_from_slice body ≡ inr request
  pub bytes : List ℕ
  pub decoded : decode_payload c request.transaction "transaction" ≡ ok bytes
  pub panics : parse_transaction bytes ≡ panic

-- Whatever the body, the crates and the accelerator, its panics included, `post_verify_transaction`
-- gives a response, with one of the status codes 200, 400, 422, 503 and 504, unless the body is a
-- request whose transaction decodes to bytes on which `parse_transaction` panics.
pub post_verify_transaction-IsAnswered :
    {W : Type 0} (c : Crates) (accelerator : Accelerator W) (request_id : String) (body : List ℕ)
    (w : W)
    → IsAnswered (post_verify_transaction c accelerator request_id body w).0 ⊎ IsFatal c body
unfolding post_verify_transaction
post_verify_transaction-IsAnswered c accelerator request_id body w =
    verify-IsAnswered c.join_error request_id (λ request. request.parsed_summary) accelerator _ w
      (request-Panics c c.transaction_from_slice (build_transaction_batch_request c) body
        (λ request e. build_transaction-Panics c request (λ bytes d p. record {
          request = request;
          is_request = e;
          bytes = bytes;
          decoded = d;
          panics = p;
        })))
