-- ===== src/Api/Handlers.antt =====
-- The handlers of api.rs. A handler that panics gives no response; the request's number is given to
-- it.
use kv260_sigverify.Prelude.{
  ℕ, List, [], ◌∷◌, String, Bool, true, false, not, ◌&&◌, Option, none, some, Outcome, ok, err,
  panic, ◌>>=◌, length, ◌==◌, if◌then◌else◌,
}
use kv260_sigverify.Prelude.Format.{◌⧺◌, decimal}
use kv260_sigverify.ServiceError
use kv260_sigverify.ServiceError.{ServiceError, ErrorKind, as_str}
use kv260_sigverify.Accelerator.Types.{
  VerifyMode, mode_name, HardwareBatchRequest, HardwareBatchResult, AcceleratorStatus,
}
use kv260_sigverify.Accelerator.Host.{M}
use kv260_sigverify.Accelerator.SingleFlight.{Accelerator}
use kv260_sigverify.Api.Types.{
  ParsedSummary, success_body, status_body, error_body, Response, BuiltRequest, Crates,
}
use kv260_sigverify.Api.Build.{
  Service, parse_json, with_valid_timeout, build_transaction_batch_request,
  build_logical_batch_request,
}

unfoldable pub error_code_name : ℕ → String
error_code_name value =
    if value == 0
    then "none"
    else if value == 1
    then "message_len"
    else if value == 2
    then "job_count"
    else if value == 3
    then "job_range"
    else if value == 4
    then "job_timeout"
    else "unknown(" ⧺ decimal value ⧺ ")"

unfoldable pub status_code_for_error : ErrorKind → ℕ
status_code_for_error ErrorKind.parse = 400
status_code_for_error ErrorKind.invalid_request = 400
status_code_for_error ErrorKind.limit = 422
status_code_for_error ErrorKind.accelerator = 422
status_code_for_error ErrorKind.timeout = 504
status_code_for_error ErrorKind.unavailable = 503

unfoldable pub error_response : String → ServiceError → Response
error_response request_id error = record {
  status_code = status_code_for_error error.kind;
  body = error_body (record {
    is_ok = false;
    request_id = request_id;
    error = record { error_type = as_str error.kind; code = error.code; message = error.message };
  });
}

-- `iter().all(|bit| *bit)`
unfoldable pub all_true : List Bool → Bool
all_true [] = true
all_true (bit ∷ bits) = bit && all_true bits

-- `all_signers_verified`
unfoldable pub all_signers_verified : ℕ → HardwareBatchResult → Bool
all_signers_verified total_jobs result =
    result.result_valid
    && not result.error
    && result.accepted_job_count == total_jobs
    && result.jobs_dropped == 0
    && not (length result.result_bits == 0)
    && all_true result.result_bits

unfoldable pub success_response :
    String → Option ParsedSummary → ℕ → VerifyMode → HardwareBatchResult → Response
success_response request_id parsed_summary total_jobs verify_mode result = record {
  status_code = 200;
  body = success_body (record {
    is_ok = true;
    request_id = request_id;
    parsed = parsed_summary;
    verification = record {
      verify_mode = mode_name verify_mode;
      verified = all_signers_verified total_jobs result;
      all_signers_verified = all_signers_verified total_jobs result;
      result_bits = result.result_bits;
      result_mask_hex = result.result_mask_hex;
    };
    hardware = record {
      batch_id = result.batch_id;
      accepted_job_count = result.accepted_job_count;
      jobs_completed = result.jobs_completed;
      jobs_dropped = result.jobs_dropped;
      error = result.error;
      error_code = error_code_name result.error_code;
      last_job_cycles = result.last_job_cycles;
      last_batch_cycles = result.last_batch_cycles;
    };
  });
}

-- What the awaited worker gives: its panic is an error of the service.
unfoldable pub joined : {A : Type 0} → String → Service A → Service A
joined join_error (ok a) = ok a
joined join_error (err e) = err e
joined join_error panic =
    err
      (ServiceError.unavailable "worker_join_failure" ("accelerator worker failed: " ⧺ join_error))

unfoldable pub execute_verify :
    {W : Type 0} → String → Accelerator W → HardwareBatchRequest → M W HardwareBatchResult
execute_verify join_error accelerator batch_request w =
    let r = accelerator.verify_batch batch_request w in (joined join_error r.0, r.1)

-- The response to what the accelerator gave. No worker's panic is left here.
unfoldable pub respond :
    String → Option ParsedSummary → BuiltRequest → Service HardwareBatchResult → Service Response
respond request_id parsed_summary request (ok result) =
    ok (success_response request_id parsed_summary request.total_jobs request.verify_mode result)
respond request_id parsed_summary request (err error) = ok (error_response request_id error)
respond request_id parsed_summary request panic = panic

-- The body of both handlers, over the request as built and the summary to show.
unfoldable pub verify :
    {W : Type 0}
    → String
    → String
    → (BuiltRequest → Option ParsedSummary)
    → Accelerator W
    → Service BuiltRequest
    → M W Response
verify join_error request_id summary accelerator (ok request) w =
    let r = execute_verify join_error accelerator request.batch_request w in
    (respond request_id (summary request) request r.0, r.1)
verify join_error request_id summary accelerator (err error) w =
    (ok (error_response request_id error), w)
verify join_error request_id summary accelerator panic w = (panic, w)

module _ {W : Type 0} (c : Crates) (accelerator : Accelerator W) where
  unfoldable pub post_verify_transaction : String → List ℕ → M W Response
  post_verify_transaction request_id body =
      verify c.join_error request_id (λ request. request.parsed_summary) accelerator
        (parse_json c.transaction_from_slice body
          >>= build_transaction_batch_request c
          >>= with_valid_timeout)

  unfoldable pub post_verify_batch : String → List ℕ → M W Response
  post_verify_batch request_id body =
      verify c.join_error request_id (λ request. none) accelerator
        (parse_json c.batch_from_slice body
          >>= build_logical_batch_request c
          >>= with_valid_timeout)

  -- What the status worker gives: its panic is a status.
  unfoldable pub joined_status :
      Outcome ServiceError AcceleratorStatus → Outcome ServiceError AcceleratorStatus
  joined_status (ok status) = ok status
  joined_status (err e) = err e
  joined_status panic = ok (record {
    ready = false;
    fpga_loaded = false;
    control_path = "unknown";
    message_path = "unknown";
    job_path = "unknown";
    last_seen_batch_id = none;
    hardware_mode = none;
    hardware_api_version = none;
    detail = some ("status worker failed: " ⧺ c.join_error);
  })

  unfoldable pub status_response : AcceleratorStatus → Response
  status_response status = record {
    status_code = 200;
    body = status_body (record {
      is_ok = true;
      ready = status.ready;
      fpga_loaded = status.fpga_loaded;
      control_path = status.control_path;
      message_path = status.message_path;
      job_path = status.job_path;
      last_seen_batch_id = status.last_seen_batch_id;
      hardware_mode = status.hardware_mode;
      hardware_api_version = status.hardware_api_version;
      detail = status.detail;
    });
  }

  unfoldable pub get_status : M W Response
  get_status w =
      let r = accelerator.status w in
      (joined_status r.0 >>= λ status. ok (status_response status), r.1)
