-- ===== src/Accelerator/Keeps/Batch.antt =====
-- `verify_batch` of accelerator.rs keeps an invariant of the world.
use kv260_sigverify.Prelude.{
  ℕ, ◌<◌, ◌≡◌, List, String, ◌||◌, inl, inr, panic, ◌≢◌, length, ◌==◌, if◌then◌else◌, Bool-cases,
  arith,
}
use kv260_sigverify.ServiceError
use kv260_sigverify.ServiceError.{ServiceError}
use kv260_sigverify.Accelerator.Types.{
  AcceleratorConfig, HardwareBatchRequest, HardwareLayout, HardwareBatchResult, HardwareIdentity,
  SnapshotStatus, WaitMode, auto, irq, poll,
}
use kv260_sigverify.Accelerator.Host.{Host, M, fail, act, lift, ◌>>=◌}
use kv260_sigverify.Accelerator.Mmio.{MappedRegion}
use kv260_sigverify.Accelerator.Layout.{wait_mode_for_layout}
use kv260_sigverify.Accelerator.Device.{
  require_full_hardware, decode_status, poll_until_complete, read_result_mask, mask_bits,
}
use kv260_sigverify.Accelerator.Device.Mask.{mask_bits-bits_of}
use kv260_sigverify.Accelerator.Batch.{
  jobs_bytes, check_request, check_jobs_size, start_and_wait, collect, run_batch, instant_add,
  verify_batch,
}
use kv260_sigverify.Accelerator.Keeps.{
  Any, Keeps, pure-Keeps, fail-Keeps, bind-Keeps, if-Keeps, lifted, then-Keeps, Leads, bind-Leads,
}
use kv260_sigverify.Accelerator.Keeps.Invariant.{Undisturbed, Invariant}
use kv260_sigverify.Accelerator.Keeps.Searches.{resolve_layout-Keeps}
use kv260_sigverify.Accelerator.Keeps.Regions.{IsMapped, read_u32-Keeps, open_region-Keeps}
use kv260_sigverify.Accelerator.Keeps.Device.{
  IsRequest, submit-Keeps, probe-Keeps, start_and_wait-Keeps, read_mask_words-Keeps,
  read_snapshot-Keeps,
}

mask_bits-ne-panic :
    (words : List ℕ) (count : ℕ) → length words ≡ 8 → count < 256 → mask_bits words count ≢ panic
mask_bits-ne-panic words count eight few e =
    let known = mask_bits-bits_of words count (omega (arith, eight)) in cc

check_request-ne-panic : (request : HardwareBatchRequest) → check_request request ≢ panic
unfolding check_request
check_request-ne-panic request e = ground arith

check_jobs_size-ne-panic : (bytes : List ℕ) → check_jobs_size bytes ≢ panic
unfolding check_jobs_size
check_jobs_size-ne-panic bytes e = ground arith

require_full_hardware-ne-panic :
    (identity : HardwareIdentity) → require_full_hardware identity ≢ panic
unfolding require_full_hardware
require_full_hardware-ne-panic identity e = ground arith

wait_mode_for_layout-ne-panic :
    (mode : WaitMode) (path : String) → wait_mode_for_layout mode path ≢ panic
unfolding wait_mode_for_layout
wait_mode_for_layout-ne-panic auto path e = cc
wait_mode_for_layout-ne-panic poll path e = cc
wait_mode_for_layout-ne-panic irq path e = ground arith

-- The steps of `run_batch` once the batch lies in the device, from the reading of the clock on, and
-- from the start on.
abbrev pub finish_from :
    (h : Host)
    → ℕ
    → HardwareBatchRequest
    → WaitMode
    → String
    → ℕ
    → MappedRegion h.Mapping
    → ℕ
    → M h.World HardwareBatchResult
finish_from h fuel request mode path expected control deadline =
    start_and_wait h fuel mode path request.timeout control deadline >>= λ word.
    if (decode_status word).is_done || (decode_status word).is_error
    then collect h fuel expected control
    else fail (
        ServiceError.timeout "completion_not_visible"
          "accelerator did not expose a terminal completion state before timeout")

abbrev pub rest_from :
    (h : Host)
    → ℕ
    → HardwareBatchRequest
    → WaitMode
    → String
    → ℕ
    → MappedRegion h.Mapping
    → M h.World HardwareBatchResult
rest_from h fuel request mode path expected control = act h.now >>= λ time.
    lift (instant_add h.latest time request.timeout) >>= λ deadline.
    finish_from h fuel request mode path expected control deadline

module _ {R : Type 0} {h : Host} {P : h.World → Type 0} {Fits : h.Mapping → ℕ → Type 0}
    (inv : Undisturbed h P Fits) (fuel : ℕ) where
  pub collect-Keeps :
      (expected : ℕ) (control : MappedRegion h.Mapping)
      → IsMapped Fits control
      → Keeps R P Any (collect h fuel expected control)
  unfolding collect read_result_mask
  collect-Keeps expected control c =
      bind-Keeps (λ (s : SnapshotStatus). s.accepted_job_count < 256) Any _ _
        (read_snapshot-Keeps inv control c)
        (λ snapshot few. elim (Bool-cases (snapshot.batch_id == expected)) [
          | inl same ↦ rw same (
              bind-Keeps (λ words. length words ≡ 8) Any _ _
                (read_mask_words-Keeps inv control 0 8 c)
                (λ words eight.
                  then-Keeps Any _ _
                    (lifted (mask_bits words snapshot.accepted_job_count)
                      (mask_bits-ne-panic words _ eight few))
                    (λ bits. then-Keeps Any _ _ (read_u32-Keeps inv control _ c) (λ a.
                      then-Keeps Any _ _ (read_u32-Keeps inv control _ c)
                        (λ a. pure-Keeps Any _ tt)))))
          | inr other ↦ rw other (fail-Keeps Any _)
        ])

module _ {R : Type 0} {h : Host} {P : h.World → Type 0} {Fits : h.Mapping → ℕ → Type 0}
    (inv : Invariant h P Fits) (fuel : ℕ) where
  pub finish-Keeps :
      (request : HardwareBatchRequest) (mode : WaitMode) (path : String) (expected : ℕ)
      (control : MappedRegion h.Mapping) (deadline : ℕ)
      → IsMapped Fits control
      → Keeps R P Any (poll_until_complete h fuel control deadline)
      → Keeps R P Any (finish_from h fuel request mode path expected control deadline)
  finish-Keeps request mode path expected control deadline c polls =
      then-Keeps Any _ _
        (start_and_wait-Keeps inv fuel mode path request.timeout control deadline c polls)
        (λ word.
          if-Keeps Any ((decode_status word).is_done || (decode_status word).is_error) _ _
            (λ e. collect-Keeps inv.calls fuel expected control c) (λ e. fail-Keeps Any _))

module _ {R : Type 0} {h : Host} {P P2 : h.World → Type 0} {Fits : h.Mapping → ℕ → Type 0}
    (inv : Invariant h P Fits) (fuel : ℕ) (weaker : (w : h.World) → P w → P2 w) where
  run_batch-Leads :
      (request : HardwareBatchRequest) (layout : HardwareLayout) (mode : WaitMode)
      → IsRequest request
      → ((path : String) (expected : ℕ) (control : MappedRegion h.Mapping)
          → IsMapped Fits control
          → Leads R P P2 Any (rest_from h fuel request mode path expected control))
      → Leads R P P2 Any (run_batch h fuel request layout mode)
  unfolding run_batch
  run_batch-Leads request layout mode r rest =
      bind-Leads (IsMapped Fits) Any _ _ weaker (open_region-Keeps inv.calls layout.control)
        (λ control c.
          bind-Leads Any Any _ _ weaker (probe-Keeps inv.calls control c) (λ identity any.
            bind-Leads Any Any _ _ weaker
              (lifted (require_full_hardware identity) (require_full_hardware-ne-panic identity))
              (λ a any.
                bind-Leads (IsMapped Fits) Any _ _ weaker
                  (open_region-Keeps inv.calls layout.message)
                  (λ message_region m.
                    bind-Leads (IsMapped Fits) Any _ _ weaker
                      (open_region-Keeps inv.calls layout.job)
                      (λ job_region j.
                        bind-Leads Any Any _ _ weaker
                          (submit-Keeps inv fuel request control message_region job_region r c m j)
                          (λ expected any. rest layout.control.path expected control c))))))

  -- The steps up to the reading of the clock keep the invariant; the others end as they say.
  pub verify_batch-Leads :
      (config : AcceleratorConfig) (request : HardwareBatchRequest)
      → IsRequest request
      → ((mode : WaitMode) (path : String) (expected : ℕ) (control : MappedRegion h.Mapping)
          → IsMapped Fits control
          → Leads R P P2 Any (rest_from h fuel request mode path expected control))
      → Leads R P P2 Any (verify_batch h fuel config request)
  unfolding verify_batch
  verify_batch-Leads config request r rest =
      bind-Leads Any Any _ _ weaker
        (lifted (check_request request) (check_request-ne-panic request))
        (λ a any.
          bind-Leads Any Any _ _ weaker (resolve_layout-Keeps inv.calls config) (λ layout any.
            bind-Leads Any Any _ _ weaker
              (lifted (wait_mode_for_layout config.wait_mode layout.control.path)
                (wait_mode_for_layout-ne-panic config.wait_mode layout.control.path))
              (λ mode any.
                bind-Leads Any Any _ _ weaker
                  (lifted (check_jobs_size (jobs_bytes request.jobs))
                    (check_jobs_size-ne-panic (jobs_bytes request.jobs)))
                  (λ a any. run_batch-Leads request layout mode r (rest mode)))))
