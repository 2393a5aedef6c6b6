-- ===== src/Accelerator/Batch.antt =====
-- `MappedAccelerator::verify_batch` and `status` of accelerator.rs.
pub mod Results
pub mod Ending
use kv260_sigverify.Prelude.{
  ℕ, ◌+◌, ◌*◌, ◌%◌, ◌^◌, List, [], ◌∷◌, ◌++◌, String, Bool, true, false, ◌||◌, ◌&&◌, Option, none,
  some, Outcome, ok, err, panic, bit_or, ltb, leb, ◌==◌, if◌then◌else◌, length,
}
use kv260_sigverify.Prelude.Format.{◌⧺◌, decimal}
use kv260_sigverify.ServiceError
use kv260_sigverify.ServiceError.{ServiceError}
use kv260_sigverify.Accelerator.Types.{
  AcceleratorConfig, VerificationJob, HardwareBatchRequest, HardwareBatchResult, AcceleratorStatus,
  HardwareIdentity, WaitMode, auto, irq, poll, message_size, job_size, max_job_count, register_bits,
  reg_control, reg_status, reg_message_len, reg_job_count, reg_verify_cfg, reg_job_timeout_cycles,
  reg_irq_ctrl_status, reg_batch_id, reg_last_job_cycles, reg_last_batch_cycles, hw_mode_full,
  hw_api_version, control_cmd_reset_then_start, irq_ctrl_enable_and_ack, HardwareLayout,
}
use kv260_sigverify.Accelerator.Host.{Host, M, pure, fail, lift, act, act_unit, ◌>>=◌, ◌>>◌}
use kv260_sigverify.Accelerator.Mmio.{
  MappedRegion, open_region, read_u32, write_u32, write_bytes, open_interrupt, arm, wait,
}
use kv260_sigverify.Accelerator.Layout.{resolve_layout, wait_mode_for_layout}
use kv260_sigverify.Accelerator.Device.{
  probe_hardware_identity, require_full_hardware, hw_mode_name, decode_status, poll_until_complete,
  read_snapshot, read_result_mask, result_mask_hex, mask_bits,
}

-- `Instant + Duration`, in milliseconds, with the largest `Instant`
unfoldable pub instant_add : ℕ → ℕ → ℕ → Outcome ServiceError ℕ
instant_add latest time duration =
    if leb (time + duration) latest then ok (time + duration) else panic

-- The job region's contents: each public key and signature in turn.
unfoldable pub jobs_bytes : List VerificationJob → List ℕ
jobs_bytes [] = []
jobs_bytes (job ∷ jobs) = job.pubkey ++ (job.signature ++ jobs_bytes jobs)

-- The checks on the request that come before any access.
unfoldable pub check_request : HardwareBatchRequest → Outcome ServiceError (Unit {0})
check_request request =
    if length request.message == 0
    then err (
        ServiceError.invalid_request "empty_message"
          "message must contain the exact serialized Solana message bytes")
    else if length request.jobs == 0
    then err (
        ServiceError.invalid_request "empty_jobs"
          "batch must contain at least one verification job")
    else if ltb message_size (length request.message)
    then err (
        ServiceError.limit "message_too_large" (
          "message is too large for the mapped BRAM window ("
          ⧺ decimal (length request.message)
          ⧺ " > "
          ⧺ decimal message_size
          ⧺ ")"))
    else if ltb max_job_count (length request.jobs)
    then err (
        ServiceError.limit "too_many_jobs" (
          "job count exceeds the accelerator limit ("
          ⧺ decimal (length request.jobs)
          ⧺ " > "
          ⧺ decimal max_job_count
          ⧺ ")"))
    else ok tt

unfoldable pub check_jobs_size : List ℕ → Outcome ServiceError (Unit {0})
check_jobs_size bytes =
    if ltb job_size (length bytes)
    then err (
        ServiceError.limit "jobs_too_large" (
          "jobs payload is too large for the mapped BRAM window ("
          ⧺ decimal (length bytes)
          ⧺ " > "
          ⧺ decimal job_size
          ⧺ ")"))
    else ok tt

module _ (h : Host) (fuel : ℕ) where
  open h use {World, Mapping}

  -- The writes that hand a batch to the device, up to the read of the batch number that it is to get.
  unfoldable pub submit :
      HardwareBatchRequest
      → MappedRegion Mapping
      → MappedRegion Mapping
      → MappedRegion Mapping
      → M World ℕ
  submit request control message_region job_region = do
    write_bytes h message_region request.message
    write_bytes h job_region (jobs_bytes request.jobs)
    write_u32 h control reg_message_len (length request.message % 2 ^ 32)
    write_u32 h control reg_job_count (length request.jobs % 2 ^ 32)
    write_u32 h control reg_verify_cfg
        (bit_or (request.dispatch_limit * 2 ^ 8 % 2 ^ 32) (register_bits request.verify_mode))
    write_u32 h control reg_job_timeout_cycles request.job_timeout_cycles
    last ← read_u32 h control reg_batch_id
    pure ((last + 1) % 2 ^ 32)

  -- The start command and the wait for its end, by interrupt or by polling.
  unfoldable pub start_and_wait : WaitMode → String → ℕ → MappedRegion Mapping → ℕ → M World ℕ
  start_and_wait irq control_path timeout control deadline = do
    interrupt ← open_interrupt h control_path
    write_u32 h control reg_irq_ctrl_status irq_ctrl_enable_and_ack
    arm h interrupt
    write_u32 h control reg_control control_cmd_reset_then_start
    _ ← wait h interrupt timeout
    write_u32 h control reg_irq_ctrl_status irq_ctrl_enable_and_ack
    status_word ← read_u32 h control reg_status
    let status = decode_status status_word
    elim (status.is_done || status.is_error) [
      | true ↦ pure status_word
      | false ↦ poll_until_complete h fuel control deadline
    ]
  start_and_wait poll control_path timeout control deadline = do
    write_u32 h control reg_control control_cmd_reset_then_start
    poll_until_complete h fuel control deadline
  start_and_wait auto control_path timeout control deadline = do
    write_u32 h control reg_control control_cmd_reset_then_start
    poll_until_complete h fuel control deadline

  -- The results, once the device is done.
  unfoldable pub collect : ℕ → MappedRegion Mapping → M World HardwareBatchResult
  collect expected_batch_id control = do
    snapshot ← read_snapshot h control
    if snapshot.batch_id == expected_batch_id
        then (do
          mask_words ← read_result_mask h control
          result_bits ← lift (mask_bits mask_words snapshot.accepted_job_count)
          last_job_cycles ← read_u32 h control reg_last_job_cycles
          last_batch_cycles ← read_u32 h control reg_last_batch_cycles
          pure (record {
            batch_id = snapshot.batch_id;
            accepted_job_count = snapshot.accepted_job_count;
            jobs_completed = snapshot.jobs_completed;
            jobs_dropped = snapshot.jobs_dropped;
            error = snapshot.error;
            result_valid = snapshot.result_valid;
            error_code = snapshot.error_code;
            result_mask_hex = result_mask_hex mask_words;
            result_bits = result_bits;
            last_job_cycles = last_job_cycles;
            last_batch_cycles = last_batch_cycles;
          }))
        else fail (
            ServiceError.unavailable "snapshot_batch_id_mismatch" (
              "snapshot batch_id mismatch: expected "
              ⧺ decimal expected_batch_id
              ⧺ ", got "
              ⧺ decimal snapshot.batch_id))

  -- The steps on the device, once the layout and the way to wait are known.
  unfoldable pub run_batch :
      HardwareBatchRequest → HardwareLayout → WaitMode → M World HardwareBatchResult
  run_batch request layout wait_mode = do
    control ← open_region h layout.control
    identity ← probe_hardware_identity h control
    lift (require_full_hardware identity)
    message_region ← open_region h layout.message
    job_region ← open_region h layout.job
    expected_batch_id ← submit request control message_region job_region
    time ← act h.now
    deadline ← lift (instant_add h.latest time request.timeout)
    status_word ← start_and_wait wait_mode layout.control.path request.timeout control deadline
    let status = decode_status status_word
    if status.is_done || status.is_error
        then collect expected_batch_id control
        else fail (
            ServiceError.timeout "completion_not_visible"
              "accelerator did not expose a terminal completion state before timeout")

  unfoldable pub verify_batch :
      AcceleratorConfig → HardwareBatchRequest → M World HardwareBatchResult
  verify_batch config request = do
    lift (check_request request)
    layout ← resolve_layout h config
    wait_mode ← lift (wait_mode_for_layout config.wait_mode layout.control.path)
    lift (check_jobs_size (jobs_bytes request.jobs))
    run_batch request layout wait_mode
