-- ===== src/Api/AnswerExamples.antt =====
-- Requests to api.rs over a device that is ready and over one that panics.
use kv260_sigverify.Prelude.{◌≡◌, [], true, ok, ◌⊎◌}
use kv260_sigverify.Accelerator.Examples.{ready_host, mem_config, counting}
use kv260_sigverify.Accelerator.Mapped.{mapped_accelerator}
use kv260_sigverify.Accelerator.SingleFlight.{single_flight}
use kv260_sigverify.Api.Handlers.{
  post_verify_transaction, post_verify_batch, get_status, status_response,
}
use kv260_sigverify.Api.Examples.{test_crates}
use kv260_sigverify.Api.Answers.{
  IsAnswered, IsFatal, post_verify_batch-IsAnswered, post_verify_transaction-IsAnswered,
}
use kv260_sigverify.Accelerator.Types.{AcceleratorStatus}
use kv260_sigverify.Accelerator.Status.{status}
use kv260_sigverify.Accelerator.Trace.{traced}
use kv260_sigverify.Api.Statuses.{get_status_answers}

post_verify_batch-IsAnswered_example :
    IsAnswered (post_verify_batch test_crates counting "req-1" [] 0).0
post_verify_batch-IsAnswered_example =
    post_verify_batch-IsAnswered test_crates counting "req-1" [] 0

post_verify_transaction-IsAnswered_example :
    IsAnswered (post_verify_transaction test_crates counting "req-2" [] 0).0
    ⊎ IsFatal test_crates []
post_verify_transaction-IsAnswered_example =
    post_verify_transaction-IsAnswered test_crates counting "req-2" [] 0

get_status_answers_example :
    ((s : AcceleratorStatus) × (((status ready_host mem_config tt).0 ≡ ok s)
        × (((get_status test_crates
                (single_flight (mapped_accelerator ready_host 3 mem_config))
                (true, tt)).0
              ≡ ok (
                  status_response test_crates
                    (single_flight (mapped_accelerator ready_host 3 mem_config))
                    s))
            × ((status_response test_crates
                  (single_flight (mapped_accelerator ready_host 3 mem_config))
                  s).status_code
                ≡ 200))))
    × (((get_status test_crates
            (single_flight (mapped_accelerator ready_host 3 mem_config))
            (true, tt)).1.0
          ≡ true)
        × ((get_status test_crates
              (single_flight (mapped_accelerator (traced ready_host) 3 mem_config))
              (true, (tt, []))).1.1.1
            ≡ []))
get_status_answers_example = get_status_answers ready_host 3 mem_config test_crates true tt []
