-- ===== src/Accelerator/Trace/Image.antt =====
-- The device's memory after `verify_batch` of accelerator.rs has given a result.
use kv260_sigverify.Prelude.{
  ℕ, ◌+◌, ◌%◌, ◌^◌, ◌≤◌, ◌<◌, ◌≡◌, refl, ap, subst, ◌∙◌, List, ◌++◌, map, String, some, ok, length,
  get_elem?, lt_of_get_elem?, All-append, arith,
}
use kv260_sigverify.Accelerator.Types.{
  AcceleratorConfig, RegionSpec, HardwareBatchRequest, HardwareBatchResult, HardwareLayout,
  WaitMode, message_size, job_size, reg_message_len, reg_job_count,
}
use kv260_sigverify.Accelerator.Host.{Host}
use kv260_sigverify.Accelerator.Layout.{resolve_layout}
use kv260_sigverify.Accelerator.Words.Fill.{padded}
use kv260_sigverify.Accelerator.Batch.{jobs_bytes, verify_batch}
use kv260_sigverify.Accelerator.Keeps.Device.{IsRequest, jobs_bytes-IsByte}
use kv260_sigverify.Accelerator.Trace.{
  Write, written, region_writes, parameter_writes, start_writes, submit_writes, batch_writes,
  layout_writes,
}
use kv260_sigverify.Accelerator.Keeps.{Any}
use kv260_sigverify.Accelerator.Trace.Rules.{Adds-eq-ok}
use kv260_sigverify.Accelerator.Trace.Batch.{verify_batch-Adds}
use kv260_sigverify.Accelerator.Trace.Memory.{
  byte_of, byte_at, memory, memory_lem, byte_at-later, byte_at-earlier,
}
use kv260_sigverify.Accelerator.Trace.Passed.{IsSized, IsPassed, verify_batch-IsPassed}
use kv260_sigverify.Accelerator.Trace.Registers.{
  word_bytes, register-memory, message_len-byte_at, job_count-byte_at,
}
use kv260_sigverify.Accelerator.Trace.Places.{
  AreApart, AreApart-Outside, region_writes-Misses, parameter_writes-Misses, start_writes-Misses,
  length-padded, region_writes-byte_at,
}

-- The three regions share no place.
pub record IsDisjoint (layout : HardwareLayout) : Type 0 where
  pub message_job : AreApart layout.message layout.job
  pub message_control : AreApart layout.message layout.control
  pub job_control : AreApart layout.job layout.control

module _ (layout : HardwareLayout) (mode : WaitMode) (request : HardwareBatchRequest)
    (r : IsRequest request) (sized : IsSized layout) (apart : IsDisjoint layout) where
  message-byte_at :
      (k byte : ℕ)
      → length request.message ≤ layout.message.size
      → get_elem? (padded request.message layout.message.size) k ≡ some byte
      → byte_at (batch_writes layout mode request) layout.message.path (layout.message.offset + k)
        ≡ some byte
  message-byte_at k byte fits e =
      let message = layout.message in
      let inside : k < message.size = omega (
        arith,
        lt_of_get_elem? (padded request.message message.size) k e,
        length-padded request.message message.size fits,
      ) in
      let control = AreApart-Outside message layout.control k apart.message_control inside in
      byte_at-earlier message.path (message.offset + k) (submit_writes layout request)
        (start_writes layout.control mode)
        (start_writes-Misses layout.control message.path _ control sized.control_eq mode)
      ∙ (byte_at-earlier message.path (message.offset + k) (region_writes message request.message) _
            (All-append _ (region_writes layout.job (jobs_bytes request.jobs)) _
              (region_writes-Misses layout.job _ message.path _
                (AreApart-Outside message layout.job k apart.message_job inside))
              (parameter_writes-Misses layout.control message.path _ control sized.control_eq
                request))
          ∙ region_writes-byte_at message request.message k byte fits
              (omega (arith, sized.message_eq)) r.message_bytes e)

  job-byte_at :
      (k byte : ℕ)
      → length (jobs_bytes request.jobs) ≤ layout.job.size
      → get_elem? (padded (jobs_bytes request.jobs) layout.job.size) k ≡ some byte
      → byte_at (batch_writes layout mode request) layout.job.path (layout.job.offset + k)
        ≡ some byte
  job-byte_at k byte fits e =
      let job = layout.job in
      let bytes = jobs_bytes request.jobs in
      let inside : k < job.size =
        omega
          (arith, lt_of_get_elem? (padded bytes job.size) k e, length-padded bytes job.size fits) in
      let control = AreApart-Outside job layout.control k apart.job_control inside in
      byte_at-earlier job.path (job.offset + k) (submit_writes layout request)
        (start_writes layout.control mode)
        (start_writes-Misses layout.control job.path _ control sized.control_eq mode)
      ∙ byte_at-later job.path (job.offset + k) (region_writes layout.message request.message) _
          byte
          (byte_at-earlier job.path (job.offset + k) (region_writes job bytes)
              (parameter_writes layout.control request)
              (parameter_writes-Misses layout.control job.path _ control sized.control_eq request)
            ∙ region_writes-byte_at job bytes k byte fits (omega (arith, sized.job_eq))
                (jobs_bytes-IsByte request.jobs r.job_bytes) e)

memory-padded :
    (log : List Write) (spec : RegionSpec) (bytes : List ℕ) (size : ℕ)
    → spec.size ≡ size
    → length bytes ≤ size
    → ((k byte : ℕ)
        → get_elem? (padded bytes spec.size) k ≡ some byte
        → byte_at log spec.path (spec.offset + k) ≡ some byte)
    → memory log spec.path spec.offset size ≡ map some (padded bytes size)
memory-padded log spec bytes size size_eq fits all =
    let n = length-padded bytes size fits in
    subst (λ count. memory log spec.path spec.offset count ≡ map some (padded bytes size)) n
      (memory_lem log spec.path spec.offset (padded bytes size) (rw size_eq at all))

-- What a batch with a result has written last is left.
written-byte_at :
    (h : Host) (fuel : ℕ) (config : AcceleratorConfig) (request : HardwareBatchRequest)
    (w : h.World) (log : List Write) (layout : HardwareLayout) (result : HardwareBatchResult)
    (passed : IsPassed config request layout)
    → (resolve_layout h config w).0 ≡ ok layout
    → (verify_batch h fuel config request w).0 ≡ ok result
    → (path : String) (address byte : ℕ)
    → byte_at (batch_writes layout passed.mode request) path address ≡ some byte
    → byte_at (written h fuel config request w log) path address ≡ some byte
written-byte_at h fuel config request w log layout result passed found e path address byte
      at_batch =
    let batch : layout_writes config.wait_mode request (resolve_layout h config w).0
        ≡ batch_writes layout passed.mode request =
      rw (found, passed.mode_eq) refl in
    let after : written h fuel config request w log
        ≡ log ++ batch_writes layout passed.mode request =
      Adds-eq-ok Any log _ _ _ result (verify_batch-Adds h fuel config request w log) e
      ∙ ap (λ ws. log ++ ws) batch in
    ap (λ l. byte_at l path address) after
    ∙ byte_at-later path address log (batch_writes layout passed.mode request) byte at_batch

-- Whatever the operating system and the device do and whatever was written before: if the search gives
-- regions that share no place, and `verify_batch` gives a result for a request that Rust's types can
-- hold, then the bytes that its writes leave in the message region are the message, and those in the
-- job region each public key and signature in turn, both filled up with zeros to the region's end,
-- and the registers for the length of the message and the count of the jobs hold these numbers whole.
pub verify_batch-memory :
    (h : Host) (fuel : ℕ) (config : AcceleratorConfig) (request : HardwareBatchRequest)
    (w : h.World) (log : List Write) (layout : HardwareLayout) (result : HardwareBatchResult)
    → IsRequest request
    → (resolve_layout h config w).0 ≡ ok layout
    → IsDisjoint layout
    → (verify_batch h fuel config request w).0 ≡ ok result
    → (memory
          (written h fuel config request w log)
          layout.message.path
          layout.message.offset
          message_size
        ≡ map some (padded request.message message_size))
      × ((memory (written h fuel config request w log) layout.job.path layout.job.offset job_size
            ≡ map some (padded (jobs_bytes request.jobs) job_size))
          × ((memory
                  (written h fuel config request w log)
                  layout.control.path
                  (layout.control.offset + reg_message_len)
                  4
                ≡ map some (word_bytes (length request.message)))
              × (memory
                    (written h fuel config request w log)
                    layout.control.path
                    (layout.control.offset + reg_job_count)
                    4
                  ≡ map some (word_bytes (length request.jobs)))))
verify_batch-memory h fuel config request w log layout result r found apart e =
    let passed = verify_batch-IsPassed h fuel config request w layout result found e in
    let mode = passed.mode in
    let sized = passed.sized in
    let left = written-byte_at h fuel config request w log layout result passed found e in
    let message_len : length request.message % 2 ^ 32 ≡ length request.message =
      omega (arith, passed.message_fits) in
    let job_count : length request.jobs % 2 ^ 32 ≡ length request.jobs =
      omega (arith, passed.few_jobs) in
    (
      memory-padded (written h fuel config request w log) layout.message request.message
          message_size sized.message_eq passed.message_fits
          (λ k byte at_k. left layout.message.path (layout.message.offset + k) byte (
            message-byte_at layout mode request r sized apart k byte
              (omega (arith, passed.message_fits, sized.message_eq)) at_k)),
      (
        memory-padded (written h fuel config request w log) layout.job (jobs_bytes request.jobs)
            job_size sized.job_eq passed.jobs_fit
            (λ k byte at_k. left layout.job.path (layout.job.offset + k) byte (
              job-byte_at layout mode request r sized apart k byte
                (omega (arith, passed.jobs_fit, sized.job_eq)) at_k)),
        (
          register-memory (written h fuel config request w log) layout.control.path
              (layout.control.offset + reg_message_len) (length request.message)
              (λ k lt.
                left layout.control.path (layout.control.offset + reg_message_len + k) _
                  (message_len-byte_at layout mode request k lt)
                ∙ ap (λ n. some (byte_of n k)) message_len),
          register-memory (written h fuel config request w log) layout.control.path
              (layout.control.offset + reg_job_count) (length request.jobs)
              (λ k lt.
                left layout.control.path (layout.control.offset + reg_job_count + k) _
                  (job_count-byte_at layout mode request k lt)
                ∙ ap (λ n. some (byte_of n k)) job_count),
        ),
      ),
    )
