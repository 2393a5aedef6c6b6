-- ===== src/Accelerator/Trace/Batch.antt =====
-- The writes of `verify_batch` of accelerator.rs, in their order.
use kv260_sigverify.Prelude.{
  ℕ, ◌≡◌, refl, ap, subst, Bool, List, [], true, false, ◌||◌, if◌then◌else◌, Outcome, ok, err,
  panic,
}
use kv260_sigverify.ServiceError
use kv260_sigverify.ServiceError.{ServiceError}
use kv260_sigverify.Accelerator.Types.{
  AcceleratorConfig, RegionSpec, HardwareBatchRequest, HardwareBatchResult, HardwareLayout,
  WaitMode,
}
use kv260_sigverify.Accelerator.Host.{Host, M, lift, act, fail, ◌>>=◌, continue_with}
use kv260_sigverify.Accelerator.Mmio.{MappedRegion}
use kv260_sigverify.Accelerator.Layout.{resolve_layout, wait_mode_for_layout}
use kv260_sigverify.Accelerator.Device.{decode_status, require_full_hardware}
use kv260_sigverify.Accelerator.Batch.{
  jobs_bytes, check_request, check_jobs_size, collect, run_batch, verify_batch, instant_add,
}
use kv260_sigverify.Accelerator.Keeps.{Any, Keeps, act-Keeps}
use kv260_sigverify.Accelerator.Keeps.Searches.{resolve_layout-Keeps}
use kv260_sigverify.Accelerator.Keeps.Device.{probe-Keeps}
use kv260_sigverify.Accelerator.Keeps.Batch.{finish_from, rest_from, collect-Keeps}
use kv260_sigverify.Accelerator.Trace.{
  Write, traced, written, start_writes, submit_writes, batch_writes, mode_writes, layout_writes,
}
use kv260_sigverify.Accelerator.Trace.Rules.{
  IsPart, none-IsPart, Adds, Adds-equal, Writes, fail-Writes, lift-Writes, bind-Writes, calm-Writes,
  last-Writes,
}
use kv260_sigverify.Accelerator.Trace.Regions.{traced-Undisturbed, IsOpen, open_region-Writes}
use kv260_sigverify.Accelerator.Trace.Watching.{same_layout, same_result}
use kv260_sigverify.Accelerator.Trace.Steps.{submit-Writes, start_and_wait-Writes}

module _ (h : Host) (fuel : ℕ) where
  -- What follows the start.
  end-Writes :
      (expected : ℕ) (control : MappedRegion (traced h).Mapping) (ended : Bool)
      → Writes Any [] (
          if ended
          then collect (traced h) fuel expected control
          else fail (
              ServiceError.timeout "completion_not_visible"
                "accelerator did not expose a terminal completion state before timeout"))
  end-Writes expected control true =
      calm-Writes _ (λ log. collect-Keeps (traced-Undisturbed h log) fuel expected control tt)
  end-Writes expected control false = fail-Writes Any [] _

  finish-Writes :
      (request : HardwareBatchRequest) (spec : RegionSpec) (mode : WaitMode) (expected : ℕ)
      (control : MappedRegion (traced h).Mapping) (deadline : ℕ)
      → IsOpen h spec control
      → Writes Any
          (start_writes spec mode)
          (finish_from (traced h) fuel request mode spec.path expected control deadline)
  finish-Writes request spec mode expected control deadline c =
      last-Writes Any Any (start_writes spec mode) _ _
        (start_and_wait-Writes h fuel spec mode spec.path request.timeout control deadline c)
        (λ word any.
          end-Writes expected control
            ((decode_status word).is_done || (decode_status word).is_error))

  rest-Writes :
      (request : HardwareBatchRequest) (spec : RegionSpec) (mode : WaitMode) (expected : ℕ)
      (control : MappedRegion (traced h).Mapping)
      → IsOpen h spec control
      → Writes Any
          (start_writes spec mode)
          (rest_from (traced h) fuel request mode spec.path expected control)
  rest-Writes request spec mode expected control c =
      bind-Writes Any Any [] (start_writes spec mode) (act (traced h).now)
        (λ time. lift (instant_add h.latest time request.timeout) >>= λ deadline.
          finish_from (traced h) fuel request mode spec.path expected control deadline)
        (calm-Writes _ (λ log. act-Keeps (traced h).now (traced-Undisturbed h log).now_kept))
        (λ time any.
          bind-Writes Any Any [] (start_writes spec mode)
            (lift (instant_add h.latest time request.timeout))
            (finish_from (traced h) fuel request mode spec.path expected control)
            (lift-Writes Any (instant_add h.latest time request.timeout) (λ a e. tt))
            (λ deadline any. finish-Writes request spec mode expected control deadline c))

  run_batch-Writes :
      (request : HardwareBatchRequest) (layout : HardwareLayout) (mode : WaitMode)
      → Writes Any
          (batch_writes layout mode request)
          (run_batch (traced h) fuel request layout mode)
  unfolding run_batch
  run_batch-Writes request layout mode =
      bind-Writes (IsOpen h layout.control) Any [] _ _ _ (open_region-Writes h layout.control)
        (λ control c.
          bind-Writes Any Any [] _ _ _
            (calm-Writes _ (λ log. probe-Keeps (traced-Undisturbed h log) control tt))
            (λ identity any.
              bind-Writes Any Any [] _ _ _
                (lift-Writes Any (require_full_hardware identity) (λ a e. tt))
                (λ a any.
                  bind-Writes (IsOpen h layout.message) Any [] _ _ _
                    (open_region-Writes h layout.message)
                    (λ message_region m.
                      bind-Writes (IsOpen h layout.job) Any [] _ _ _
                        (open_region-Writes h layout.job)
                        (λ job_region j.
                          bind-Writes Any Any (submit_writes layout request) _ _ _
                            (submit-Writes h fuel layout request control message_region job_region c
                              m j)
                            (λ expected any.
                              rest-Writes request layout.control mode expected control c))))))

  mode-Writes :
      (request : HardwareBatchRequest) (layout : HardwareLayout)
      (mode : Outcome ServiceError WaitMode)
      → Writes Any (mode_writes layout request mode) (
          lift mode >>= λ wait_mode. lift (check_jobs_size (jobs_bytes request.jobs)) >>= λ done.
          run_batch (traced h) fuel request layout wait_mode)
  mode-Writes request layout (ok mode) = record { writes = λ w. after.writes w }
    where
      after : Writes Any (batch_writes layout mode request) (
          lift (check_jobs_size (jobs_bytes request.jobs)) >>= λ done.
          run_batch (traced h) fuel request layout mode)
      after =
          bind-Writes Any Any [] _ _ _
            (lift-Writes Any (check_jobs_size (jobs_bytes request.jobs)) (λ a e. tt))
            (λ a any. run_batch-Writes request layout mode)
  mode-Writes request layout (err e) = record { writes = λ w. none-IsPart w.1 [] }
  mode-Writes request layout panic = record { writes = λ w. none-IsPart w.1 [] }

-- The same, seen on the host that writes down the writes.
traced_batch-Adds :
    (h : Host) (fuel : ℕ) (config : AcceleratorConfig) (request : HardwareBatchRequest)
    (w : h.World) (log : List Write)
    → Adds Any log
        (layout_writes config.wait_mode request (resolve_layout (traced h) config (w, log)).0)
        (verify_batch (traced h) fuel config request (w, log)).0
        (verify_batch (traced h) fuel config request (w, log)).1.1
unfolding verify_batch
traced_batch-Adds h fuel config request w log = checked (check_request request)
  where
    after_search : HardwareLayout → M (traced h).World HardwareBatchResult
    after_search layout =
        lift (wait_mode_for_layout config.wait_mode layout.control.path) >>= λ wait_mode.
        lift (check_jobs_size (jobs_bytes request.jobs)) >>= λ done.
        run_batch (traced h) fuel request layout wait_mode

    searched :
        (r : Outcome ServiceError HardwareLayout × (traced h).World)
        → r.1.1 ≡ log
        → Adds Any log
            (layout_writes config.wait_mode request r.0)
            (continue_with after_search r).0
            (continue_with after_search r).1.1
    searched (ok layout, w2) same =
        subst
          (λ l.
            Adds Any l (layout_writes config.wait_mode request (ok layout))
              (after_search layout w2).0 (after_search layout w2).1.1)
          same
          ((mode-Writes h fuel request layout
              (wait_mode_for_layout config.wait_mode layout.control.path)).writes
            w2)
    searched (err e, w2) same = subst (λ l. IsPart l [] w2.1) same (none-IsPart w2.1 [])
    searched (panic, w2) same = subst (λ l. IsPart l [] w2.1) same (none-IsPart w2.1 [])

    checked :
        (r : Outcome ServiceError (Unit {0}))
        → Adds Any log
            (layout_writes config.wait_mode request (resolve_layout (traced h) config (w, log)).0)
            ((lift r >>= λ done. resolve_layout (traced h) config >>= after_search) (w, log)).0
            ((lift r >>= λ done. resolve_layout (traced h) config >>= after_search) (w, log)).1.1
    checked (ok done) =
        let kept : Keeps Unit (λ w2. w2.1 ≡ log) Any (resolve_layout (traced h) config) =
          resolve_layout-Keeps (traced-Undisturbed h log) config in
        searched (resolve_layout (traced h) config (w, log)) (kept.keeps (w, log) refl).0
    checked (err e) = none-IsPart log _
    checked panic = none-IsPart log _

-- For every operating system and device, every configuration, request and bound on the polling:
-- `verify_batch` writes, in this order, the message and the jobs, each filled up with zeros to the
-- size of its region, the four registers of the batch, and the start command, in interrupt mode
-- between two acknowledgements, each at its address in the file of its region. A batch with a result
-- has made all of these writes and no other; one that ends in an error or a panic has made the first
-- so many of them, and none if no layout or no way to wait was found.
pub verify_batch-Adds :
    (h : Host) (fuel : ℕ) (config : AcceleratorConfig) (request : HardwareBatchRequest)
    (w : h.World) (log : List Write)
    → Adds Any log
        (layout_writes config.wait_mode request (resolve_layout h config w).0)
        (verify_batch h fuel config request w).0
        (written h fuel config request w log)
verify_batch-Adds h fuel config request w log =
    Adds-equal Any log _ _ (written h fuel config request w log) _ _
      (ap (λ r. layout_writes config.wait_mode request r) (same_layout h config w log))
      (same_result h fuel config request w log) (traced_batch-Adds h fuel config request w log)
