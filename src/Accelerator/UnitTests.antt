-- ===== src/Accelerator/UnitTests.antt =====
-- The unit tests of accelerator.rs and its accelerators for tests, as functions into Bool. The test that
-- runs a second thread is a sequence of steps of the two threads.
use kv260_sigverify.Prelude.{
  ℕ, zero, suc, if◌then◌else◌, ◌+◌, ◌≡◌, refl, List, [], ◌∷◌, ◌++◌, Bool, true, false, ◌&&◌, String,
  none, some, Outcome, ok, err, panic, replicate, ◌==◌,
}
use text.Mathlib.Text.{◌==◌ as same_text}
use kv260_sigverify.ServiceError
use kv260_sigverify.ServiceError.{ServiceError, ErrorKind, as_str}
use kv260_sigverify.Accelerator.Types.{
  AcceleratorStatus, HardwareBatchRequest, HardwareBatchResult, strict,
}
use kv260_sigverify.Accelerator.Host.{M}
use kv260_sigverify.Accelerator.LittleEndian.{full_word, last_word}
use kv260_sigverify.Accelerator.Words.{write_bytes_as_u32_words, full_words, tail_word, zero_words}
use kv260_sigverify.Accelerator.SingleFlight.{
  Accelerator, single_flight, System, start_state, Pc, entered, inside, returned, update,
  try_acquire,
}
use kv260_sigverify.Accelerator.SingleFlight.Advance.{advance}

abbrev ready_status : AcceleratorStatus
ready_status = record {
  ready = true;
  fpga_loaded = true;
  control_path = "/dev/uio0";
  message_path = "/dev/uio1";
  job_path = "/dev/uio2";
  last_seen_batch_id = some 41;
  hardware_mode = some "full";
  hardware_api_version = some 1;
  detail = none;
}

abbrev request_template : HardwareBatchRequest
request_template = record {
  message = 0x01 ∷ 0x02 ∷ 0x03 ∷ [];
  jobs = record { pubkey = replicate 32 0x11; signature = replicate 64 0x22 } ∷ [];
  verify_mode = strict;
  timeout = 50;
  dispatch_limit = 0;
  job_timeout_cycles = 0;
}

-- Its world is the count of its calls.
abbrev error_accelerator : Accelerator ℕ
error_accelerator = record {
  verify_batch = λ request calls.
      (err (ServiceError.accelerator "mock_failure" "mock accelerator failed"), calls + 1);
  status = λ calls. (ok ready_status, calls);
}

-- The words in the order of their writes.
abbrev writes_push : ℕ → ℕ → M (List (ℕ × ℕ)) (Unit {0})
writes_push offset value writes = (ok tt, writes ++ ((offset, value) ∷ []))

-- `|_, _| unreachable!()`
abbrev unreachable : ℕ → ℕ → M (List (ℕ × ℕ)) (Unit {0})
unreachable offset value writes = (panic, writes)

abbrev same_writes : List (ℕ × ℕ) → List (ℕ × ℕ) → Bool
same_writes [] [] = true
same_writes (x ∷ xs) (y ∷ ys) = x.0 == y.0 && x.1 == y.1 && same_writes xs ys
same_writes _ _ = false

-- `unwrap`, and then `assert_eq!` of the writes.
abbrev wrote : Outcome ServiceError (Unit {0}) × List (ℕ × ℕ) → List (ℕ × ℕ) → Bool
wrote (ok done, writes) expected = same_writes writes expected
wrote _ expected = false

-- `unwrap_err`, and then `assert_eq!` of the kind, and of the code.
abbrev failed_as : {A W : Type 0} → Outcome ServiceError A × W → ErrorKind → Bool
failed_as (err e, w) kind = same_text (as_str e.kind) (as_str kind)
failed_as _ kind = false

abbrev failed_with : {A W : Type 0} → Outcome ServiceError A × W → ErrorKind → String → Bool
failed_with (err e, w) kind code = failed_as {A = Unit {0}} (err e, w) kind && same_text e.code code
failed_with _ kind code = false

unfoldable mmio_byte_writer_emits_aligned_words_and_zero_fills_region : Bool
mmio_byte_writer_emits_aligned_words_and_zero_fills_region =
    wrote (write_bytes_as_u32_words writes_push (1 ∷ 2 ∷ 3 ∷ 4 ∷ 5 ∷ 6 ∷ []) 16 [])
      ((0, 0x04030201) ∷ (4, 0x00000605) ∷ (8, 0) ∷ (12, 0) ∷ [])

unfoldable mmio_byte_writer_preserves_exact_words : Bool
mmio_byte_writer_preserves_exact_words =
    wrote (write_bytes_as_u32_words writes_push (0xaa ∷ 0xbb ∷ 0xcc ∷ 0xdd ∷ []) 8 [])
      ((0, 0xddccbbaa) ∷ (4, 0) ∷ [])

unfoldable mmio_byte_writer_rejects_oversized_payloads : Bool
mmio_byte_writer_rejects_oversized_payloads =
    failed_with (write_bytes_as_u32_words unreachable (replicate 5 0) 4 []) ErrorKind.limit
      "payload_too_large"

unfoldable mmio_byte_writer_rejects_unaligned_regions : Bool
mmio_byte_writer_rejects_unaligned_regions =
    failed_with (write_bytes_as_u32_words unreachable (replicate 4 0) 6 []) ErrorKind.unavailable
      "mmio_alignment"

unfoldable single_flight_releases_lock_after_errors : Bool
single_flight_releases_lock_after_errors =
    let accelerator = single_flight error_accelerator in
    let first = accelerator.verify_batch request_template (false, 0) in
    let second = accelerator.verify_batch request_template first.1 in
    failed_as first ErrorKind.accelerator
    && failed_as second ErrorKind.accelerator
    && second.1.1 == 2

abbrev success_result : HardwareBatchResult
success_result = record {
  batch_id = 42;
  accepted_job_count = 1;
  jobs_completed = 1;
  jobs_dropped = 0;
  error = false;
  result_valid = true;
  error_code = 0;
  result_mask_hex = "0000000000000000000000000000000000000000000000000000000000000001";
  result_bits = true ∷ [];
  last_job_cycles = 100;
  last_batch_cycles = 200;
}

-- The world of `BlockingAccelerator`: whether it still has its sender, and the messages in the two
-- channels.
record Channels : Type 0 where
  pub entered_tx : Bool
  pub entered_rx : ℕ
  pub release_rx : ℕ

-- `recv().unwrap()`. The inner call begins and ends, which a test does once there is a message for it;
-- with none it would wait, and panic when all senders are gone.
abbrev receive : Channels → Outcome ServiceError HardwareBatchResult × Channels
receive s = elim s.release_rx [
  | zero ↦ (panic, s)
  | suc more ↦ (ok success_result, record s { release_rx = more })
]

abbrev blocking_accelerator : Accelerator Channels
blocking_accelerator = record {
  verify_batch = λ request s.
      receive (
        if s.entered_tx then record s { entered_tx = false; entered_rx = s.entered_rx + 1 } else s);
  status = λ s. (ok ready_status, s);
}

abbrev called : ℕ → System Channels → System Channels
called i s = record s { pc = update s.pc i (entered request_template) }

-- Whether a thread stands before the inner call, and what a thread has returned.
abbrev is_inside : Pc Channels → Bool
is_inside (inside request) = true
is_inside _ = false

abbrev returned_error : Pc Channels → ErrorKind → String → Bool
returned_error (returned r) kind code = failed_with {W = Unit {0}} (r, tt) kind code
returned_error _ kind code = false

abbrev returned_ok : Pc Channels → Bool
returned_ok (returned (ok result)) = true
returned_ok _ = false

-- The worker is thread 0 and the test itself thread 1, which calls while the worker is at the inner
-- call and then sends the message that the worker waits for.
unfoldable single_flight_rejects_concurrent_verify_requests : Bool
single_flight_rejects_concurrent_verify_requests =
    let step = advance blocking_accelerator in
    let before = start_state (record { entered_tx = true; entered_rx = 0; release_rx = 0 }) in
    let first = step 0 (called 0 before) in
    let second = step 1 (called 1 first) in
    let released = record second { world = record second.world { release_rx = 1 } } in
    let joined = step 0 (step 0 (step 0 released)) in
    is_inside (first.pc 0)
    && returned_error (second.pc 1) ErrorKind.unavailable "accelerator_busy"
    && joined.world.entered_rx == 1
    && returned_ok (joined.pc 0)

unit_tests :
    (mmio_byte_writer_emits_aligned_words_and_zero_fills_region ≡ true)
    × (mmio_byte_writer_preserves_exact_words ≡ true)
    × (mmio_byte_writer_rejects_oversized_payloads ≡ true)
    × (mmio_byte_writer_rejects_unaligned_regions ≡ true)
    × (single_flight_rejects_concurrent_verify_requests ≡ true)
    × (single_flight_releases_lock_after_errors ≡ true)
unfolding mmio_byte_writer_emits_aligned_words_and_zero_fills_region
    mmio_byte_writer_preserves_exact_words mmio_byte_writer_rejects_oversized_payloads
    mmio_byte_writer_rejects_unaligned_regions single_flight_rejects_concurrent_verify_requests
    advance try_acquire single_flight_releases_lock_after_errors write_bytes_as_u32_words full_word
    last_word full_words tail_word zero_words single_flight as_str
unit_tests = (refl, refl, refl, refl, refl, refl)
