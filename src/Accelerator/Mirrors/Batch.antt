-- ===== src/Accelerator/Mirrors/Batch.antt =====
-- `verify_batch` of accelerator.rs does the same on a watching host.
use kv260_sigverify.Prelude.{ℕ, String, ◌||◌, inl, inr, ◌==◌, Bool-cases}
use kv260_sigverify.Accelerator.Types.{
  AcceleratorConfig, HardwareBatchRequest, HardwareLayout, WaitMode,
}
use kv260_sigverify.Accelerator.Host.{Host, act, lift, ◌>>=◌}
use kv260_sigverify.Accelerator.Mmio.{MappedRegion}
use kv260_sigverify.Accelerator.Layout.{wait_mode_for_layout}
use kv260_sigverify.Accelerator.Device.{
  require_full_hardware, decode_status, read_result_mask, mask_bits,
}
use kv260_sigverify.Accelerator.Batch.{
  jobs_bytes, check_request, check_jobs_size, collect, run_batch, verify_batch, instant_add,
}
use kv260_sigverify.Accelerator.Keeps.Batch.{finish_from, rest_from}
use kv260_sigverify.Accelerator.Mirrors.{
  Mirrors, id, pure-Mirrors, fail-Mirrors, lift-Mirrors, act-Mirrors, bind-Mirrors, if-Mirrors,
}
use kv260_sigverify.Accelerator.Mirrors.Watching.{Watching}
use kv260_sigverify.Accelerator.Mirrors.Searches.{resolve_layout-Mirrors}
use kv260_sigverify.Accelerator.Mirrors.Regions.{region_of, read_u32-Mirrors, open_region-Mirrors}
use kv260_sigverify.Accelerator.Mirrors.Device.{
  probe-Mirrors, read_mask_words-Mirrors, read_snapshot-Mirrors, submit-Mirrors,
  start_and_wait-Mirrors,
}

module _ {g h : Host} (v : Watching g h) (fuel : ℕ) where
  collect-Mirrors :
      (expected : ℕ) (control : MappedRegion g.Mapping)
      → Mirrors v.strip id
          (collect g fuel expected control)
          (collect h fuel expected (region_of v control))
  unfolding collect read_result_mask
  collect-Mirrors expected control =
      bind-Mirrors id id _ _ _ _ (read_snapshot-Mirrors v control) (λ snapshot.
        elim (Bool-cases (snapshot.batch_id == expected)) [
          | inl same ↦ rw same (
              bind-Mirrors id id _ _ _ _ (read_mask_words-Mirrors v control 0 8) (λ words.
                bind-Mirrors id id _ _ _ _
                  (lift-Mirrors (mask_bits words snapshot.accepted_job_count))
                  (λ bits. bind-Mirrors id id _ _ _ _ (read_u32-Mirrors v control _) (λ a.
                    bind-Mirrors id id _ _ _ _ (read_u32-Mirrors v control _)
                      (λ a. pure-Mirrors id _)))))
          | inr other ↦ rw other (fail-Mirrors id _)
        ])

  finish-Mirrors :
      (request : HardwareBatchRequest) (mode : WaitMode) (path : String) (expected : ℕ)
      (control : MappedRegion g.Mapping) (deadline : ℕ)
      → Mirrors v.strip id
          (finish_from g fuel request mode path expected control deadline)
          (finish_from h fuel request mode path expected (region_of v control) deadline)
  finish-Mirrors request mode path expected control deadline =
      bind-Mirrors id id _ _ _ _
        (start_and_wait-Mirrors v fuel mode path request.timeout control deadline)
        (λ word.
          if-Mirrors id ((decode_status word).is_done || (decode_status word).is_error) _ _ _ _
            (collect-Mirrors expected control) (fail-Mirrors id _))

  deadline-Mirrors :
      (time timeout : ℕ)
      → Mirrors v.strip id
          (lift (instant_add g.latest time timeout))
          (lift (instant_add h.latest time timeout))
  deadline-Mirrors time timeout = rw v.latest_eq (lift-Mirrors (instant_add h.latest time timeout))

  rest-Mirrors :
      (request : HardwareBatchRequest) (mode : WaitMode) (path : String) (expected : ℕ)
      (control : MappedRegion g.Mapping)
      → Mirrors v.strip id
          (rest_from g fuel request mode path expected control)
          (rest_from h fuel request mode path expected (region_of v control))
  rest-Mirrors request mode path expected control =
      bind-Mirrors id id (act g.now) (act h.now)
        (λ time. lift (instant_add g.latest time request.timeout) >>= λ deadline.
          finish_from g fuel request mode path expected control deadline)
        (λ time. lift (instant_add h.latest time request.timeout) >>= λ deadline.
          finish_from h fuel request mode path expected (region_of v control) deadline)
        (act-Mirrors g.now h.now v.now_eq)
        (λ time.
          bind-Mirrors id id (lift (instant_add g.latest time request.timeout))
            (lift (instant_add h.latest time request.timeout))
            (finish_from g fuel request mode path expected control)
            (finish_from h fuel request mode path expected (region_of v control))
            (deadline-Mirrors time request.timeout)
            (λ deadline. finish-Mirrors request mode path expected control deadline))

  run_batch-Mirrors :
      (request : HardwareBatchRequest) (layout : HardwareLayout) (mode : WaitMode)
      → Mirrors v.strip id
          (run_batch g fuel request layout mode)
          (run_batch h fuel request layout mode)
  unfolding run_batch
  run_batch-Mirrors request layout mode =
      bind-Mirrors (region_of v) id _ _ _ _ (open_region-Mirrors v layout.control) (λ control.
        bind-Mirrors id id _ _ _ _ (probe-Mirrors v control) (λ identity.
          bind-Mirrors id id _ _ _ _ (lift-Mirrors (require_full_hardware identity)) (λ a.
            bind-Mirrors (region_of v) id _ _ _ _ (open_region-Mirrors v layout.message)
              (λ message_region.
                bind-Mirrors (region_of v) id _ _ _ _ (open_region-Mirrors v layout.job)
                  (λ job_region.
                    bind-Mirrors id id _ _ _ _
                      (submit-Mirrors v fuel request control message_region job_region)
                      (λ expected.
                        rest-Mirrors request mode layout.control.path expected control))))))

  -- A watching host gives what the host that it watches gives.
  pub verify_batch-Mirrors :
      (config : AcceleratorConfig) (request : HardwareBatchRequest)
      → Mirrors v.strip id (verify_batch g fuel config request) (verify_batch h fuel config request)
  unfolding verify_batch
  verify_batch-Mirrors config request =
      bind-Mirrors id id _ _ _ _ (lift-Mirrors (check_request request)) (λ a.
        bind-Mirrors id id _ _ _ _ (resolve_layout-Mirrors v config) (λ layout.
          bind-Mirrors id id _ _ _ _
            (lift-Mirrors (wait_mode_for_layout config.wait_mode layout.control.path))
            (λ mode.
              bind-Mirrors id id _ _ _ _ (lift-Mirrors (check_jobs_size (jobs_bytes request.jobs)))
                (λ a. run_batch-Mirrors request layout mode))))
