-- ===== src/Api/Statuses.antt =====
-- `get_status` of api.rs, over the accelerator that the daemon serves.
use kv260_sigverify.Prelude.{ℕ, List, ◌≡◌, refl, Bool, ok}
use kv260_sigverify.Accelerator.Types.{AcceleratorConfig, AcceleratorStatus}
use kv260_sigverify.Accelerator.Host.{Host}
use kv260_sigverify.Accelerator.Mapped.{mapped_accelerator}
use kv260_sigverify.Accelerator.SingleFlight.{single_flight}
use kv260_sigverify.Accelerator.Status.{status}
use kv260_sigverify.Accelerator.Status.Quiet.{status-eq-ok, status_quiet}
use kv260_sigverify.Accelerator.Trace.{Write, traced}
use kv260_sigverify.Api.Types.{Crates}
use kv260_sigverify.Api.Handlers.{get_status, joined_status, status_response}

-- Whatever the device and the system answer, a busy accelerator included, `status` over the daemon's
-- accelerator gives a status, no panic, and `get_status` shows it with status code 200; the busy flag
-- stays as it is, and nothing is written to the device.
pub get_status_answers :
    (h : Host) (fuel : ℕ) (config : AcceleratorConfig) (c : Crates) (busy : Bool) (w : h.World)
    (log : List Write)
    → ((s : AcceleratorStatus) × (((status h config w).0 ≡ ok s)
          × (((get_status c (single_flight (mapped_accelerator h fuel config)) (busy, w)).0
                ≡ ok (status_response c (single_flight (mapped_accelerator h fuel config)) s))
              × ((status_response c
                    (single_flight (mapped_accelerator h fuel config))
                    s).status_code
                  ≡ 200))))
      × (((get_status c (single_flight (mapped_accelerator h fuel config)) (busy, w)).1.0 ≡ busy)
          × ((get_status c
                (single_flight (mapped_accelerator (traced h) fuel config))
                (busy, (w, log))).1.1.1
              ≡ log))
unfolding get_status single_flight mapped_accelerator joined_status status_response
get_status_answers h fuel config c busy w log =
    let (s, e) = status-eq-ok h config w in
    ((s, (e, (rw e refl, refl))), (refl, status_quiet h config w log))
