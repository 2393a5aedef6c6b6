-- ===== src/Api/BadRequest.antt =====
-- What the handlers of api.rs answer to a request that they refuse.
use kv260_sigverify.Prelude.{ℕ, ◌≡◌, refl, List, String, ok, err, ◌>>=◌}
use kv260_sigverify.ServiceError.{ServiceError}
use kv260_sigverify.Accelerator.SingleFlight.{Accelerator}
use kv260_sigverify.Api.Types.{Crates}
use kv260_sigverify.Api.Build.{
  parse_json, with_valid_timeout, build_transaction_batch_request, build_logical_batch_request,
}
use kv260_sigverify.Api.Handlers.{
  post_verify_transaction, post_verify_batch, error_response, verify,
}
use kv260_sigverify.Api.Requests.{logical_request-Refuses, transaction_request-Refuses}

-- Whatever stops `post_verify_batch` before the accelerator is called (the JSON, the payload, the jobs
-- or the timeout), the accelerator's world stays as it is and the answer is the error, with status 400.
pub post_verify_batch_bad_request :
    {W : Type 0} (c : Crates) (accelerator : Accelerator W) (request_id : String) (body : List ℕ)
    (w : W) (e : ServiceError)
    → (parse_json c.batch_from_slice body >>= build_logical_batch_request c >>= with_valid_timeout)
      ≡ err e
    → (post_verify_batch c accelerator request_id body w ≡ (ok (error_response request_id e), w))
      × ((error_response request_id e).status_code ≡ 400)
unfolding post_verify_batch verify error_response
post_verify_batch_bad_request c accelerator request_id body w e h =
    (rw (h, verify) refl, logical_request-Refuses c body e h)

-- Whatever stops `post_verify_transaction` before the accelerator is called (the JSON, the payload,
-- the transaction or the timeout), the accelerator's world stays as it is and the answer is the error,
-- with status 400.
pub post_verify_transaction_bad_request :
    {W : Type 0} (c : Crates) (accelerator : Accelerator W) (request_id : String) (body : List ℕ)
    (w : W) (e : ServiceError)
    → (parse_json c.transaction_from_slice body
        >>= build_transaction_batch_request c
        >>= with_valid_timeout)
      ≡ err e
    → (post_verify_transaction c accelerator request_id body w
        ≡ (ok (error_response request_id e), w))
      × ((error_response request_id e).status_code ≡ 400)
unfolding post_verify_transaction verify error_response
post_verify_transaction_bad_request c accelerator request_id body w e h =
    (rw (h, verify) refl, transaction_request-Refuses c body e h)
