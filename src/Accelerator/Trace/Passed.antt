-- ===== src/Accelerator/Trace/Passed.antt =====
-- What a batch with a result has passed in `verify_batch` of accelerator.rs.
use kv260_sigverify.Prelude.{ℕ, ◌≤◌, ◌≡◌, ap, subst, List, ok, length, arith}
use kv260_sigverify.Accelerator.Types.{
  AcceleratorConfig, HardwareBatchRequest, HardwareBatchResult, HardwareLayout, WaitMode,
  control_size, message_size, job_size, max_job_count,
}
use kv260_sigverify.Accelerator.Host.{Host, lift}
use kv260_sigverify.Accelerator.Bind.{bind-eq-ok}
use kv260_sigverify.Accelerator.Post.{Post, bind-Post, pure-Post}
use kv260_sigverify.Accelerator.Layout.{resolve_layout, resolve_region, wait_mode_for_layout}
use kv260_sigverify.Accelerator.Found.{resolve_region-IsResolved}
use kv260_sigverify.Accelerator.Batch.{jobs_bytes, check_request, check_jobs_size, verify_batch}

-- The sizes of the regions that the search gives.
pub record IsSized (layout : HardwareLayout) : Type 0 where
  pub control_eq : layout.control.size ≡ control_size
  pub message_eq : layout.message.size ≡ message_size
  pub job_eq : layout.job.size ≡ job_size

resolve_layout-IsSized :
    (h : Host) (config : AcceleratorConfig) → Post IsSized (resolve_layout h config)
unfolding resolve_layout
resolve_layout-IsSized h config =
    bind-Post _ (resolve_region h config.control_path config.control_offset control_size) _
      (λ w1 w2 control e1.
        bind-Post _ (resolve_region h config.message_path config.message_offset message_size) _
          (λ w3 w4 message e2.
            bind-Post _ (resolve_region h config.job_path config.job_offset job_size) _
              (λ w5 w6 job e3. pure-Post _ _ (record {
                control_eq = (resolve_region-IsResolved h _ _ _ w1 w2 control e1).1;
                message_eq = (resolve_region-IsResolved h _ _ _ w3 w4 message e2).1;
                job_eq = (resolve_region-IsResolved h _ _ _ w5 w6 job e3).1;
              }))))

check_request_lem :
    (request : HardwareBatchRequest)
    → check_request request ≡ ok tt
    → (length request.message ≤ message_size) × (length request.jobs ≤ max_job_count)
unfolding check_request
check_request_lem request e = (ground arith, ground arith)

check_jobs_size_lem : (bytes : List ℕ) → check_jobs_size bytes ≡ ok tt → length bytes ≤ job_size
unfolding check_jobs_size
check_jobs_size_lem bytes e = ground arith

-- What a batch with a result has passed.
pub record IsPassed (config : AcceleratorConfig) (request : HardwareBatchRequest)
    (layout : HardwareLayout) : Type 0 where
  pub mode : WaitMode
  pub mode_eq : wait_mode_for_layout config.wait_mode layout.control.path ≡ ok mode
  pub message_fits : length request.message ≤ message_size
  pub few_jobs : length request.jobs ≤ max_job_count
  pub jobs_fit : length (jobs_bytes request.jobs) ≤ job_size
  pub sized : IsSized layout

pub verify_batch-IsPassed :
    (h : Host) (fuel : ℕ) (config : AcceleratorConfig) (request : HardwareBatchRequest)
    (w : h.World) (layout : HardwareLayout) (result : HardwareBatchResult)
    → (resolve_layout h config w).0 ≡ ok layout
    → (verify_batch h fuel config request w).0 ≡ ok result
    → IsPassed config request layout
unfolding verify_batch
verify_batch-IsPassed h fuel config request w layout result found e =
    let (done, (e1, f1)) = bind-eq-ok (lift (check_request request)) _ w result e in
    let (layout2, (e2, f2)) = bind-eq-ok (resolve_layout h config) _ w result f1 in
    let same : layout2 ≡ layout = cc in
    let (mode, (e3, f3)) =
      bind-eq-ok (lift (wait_mode_for_layout config.wait_mode layout2.control.path)) _
        (resolve_layout h config w).1 result f2 in
    let (checked, (e4, f4)) =
      bind-eq-ok (lift (check_jobs_size (jobs_bytes request.jobs))) _ (resolve_layout h config w).1
        result f3 in
    record {
      mode = mode;
      mode_eq = subst (λ l. wait_mode_for_layout config.wait_mode l.control.path ≡ ok mode) same e3;
      message_fits = (check_request_lem request e1).0;
      few_jobs = (check_request_lem request e1).1;
      jobs_fit = check_jobs_size_lem (jobs_bytes request.jobs) e4;
      sized =
          resolve_layout-IsSized h config w (resolve_layout h config w).1 layout
            (ap (λ r. (r, (resolve_layout h config w).1)) found);
    }
