-- ===== src/Accelerator/Keeps/Device.antt =====
-- The operations on the device in accelerator.rs keep an invariant of the world.
use kv260_sigverify.Prelude.{
  ℕ, zero, suc, ◌+◌, ◌*◌, ◌%◌, ◌^◌, ◌<◌, ◌≡◌, refl, List, [], ◌∷◌, String, true, false, ◌||◌, inl,
  inr, panic, length, ap, bit_or, leb, ◌==◌, All, All-append, Bool-cases, arith,
}
use kv260_sigverify.Prelude.Bits.{bit_or_zero, bit_or_one}
use kv260_sigverify.ServiceError
use kv260_sigverify.ServiceError.{ServiceError}
use kv260_sigverify.Parser.Types.{IsByte}
use kv260_sigverify.Accelerator.Types.{
  VerificationJob, HardwareBatchRequest, SnapshotStatus, WaitMode, auto, irq, poll, VerifyMode,
  strict, agave_zebra, register_bits, default_poll_interval, reg_status, hw_magic,
}
use kv260_sigverify.Accelerator.Host.{Host, fail, act, act_unit, ◌>>◌}
use kv260_sigverify.Accelerator.Mmio.{MappedRegion}
use kv260_sigverify.Accelerator.Device.{
  probe_hardware_identity, decode_status, poll_until_complete, read_mask_words, read_snapshot,
}
use kv260_sigverify.Prelude.Bits.{bit_and_mask255}
use kv260_sigverify.Accelerator.Batch.{jobs_bytes, submit, start_and_wait}
use kv260_sigverify.Accelerator.Keeps.{
  Any, Keeps, pure-Keeps, fail-Keeps, act-Keeps, act_unit-Keeps, lift-Keeps, bind-Keeps, then-Keeps,
}
use kv260_sigverify.Accelerator.Keeps.Invariant.{Undisturbed, Invariant}
use kv260_sigverify.Accelerator.Keeps.Searches.{open_interrupt-Keeps, arm-Keeps, wait-Keeps}
use kv260_sigverify.Accelerator.Keeps.Regions.{
  IsWord, IsMapped, read_u32-Keeps, write_u32-Keeps, write_bytes-Keeps,
}

-- A request as Rust's types hold it: bytes, a `u8` and a `u32`.
pub record IsRequest (request : HardwareBatchRequest) : Type 0 where
  pub message_bytes : All IsByte request.message
  pub job_bytes :
      All (λ (job : VerificationJob). All IsByte job.pubkey × All IsByte job.signature) request.jobs
  pub small_limit : request.dispatch_limit < 2 ^ 8
  pub small_cycles : request.job_timeout_cycles < 2 ^ 32

pub jobs_bytes-IsByte :
    (jobs : List VerificationJob)
    → All (λ (job : VerificationJob). All IsByte job.pubkey × All IsByte job.signature) jobs
    → All IsByte (jobs_bytes jobs)
unfolding jobs_bytes
jobs_bytes-IsByte [] all = tt
jobs_bytes-IsByte (job ∷ jobs) all =
    All-append IsByte job.pubkey _ all.0.0
      (All-append IsByte job.signature _ all.0.1 (jobs_bytes-IsByte jobs all.1))

config-IsWord :
    (limit : ℕ) (mode : VerifyMode)
    → limit < 2 ^ 8
    → IsWord (bit_or (limit * 2 ^ 8 % 2 ^ 32) (register_bits mode))
unfolding register_bits
config-IsWord limit strict lt = omega (arith, bit_or_zero (limit * 2 ^ 8 % 2 ^ 32))
config-IsWord limit agave_zebra lt = omega (arith, bit_or_one (limit * 2 ^ 8 % 2 ^ 32))

module _ {R : Type 0} {h : Host} {P : h.World → Type 0} {Fits : h.Mapping → ℕ → Type 0}
    (inv : Undisturbed h P Fits) where
  pub probe-Keeps :
      (control : MappedRegion h.Mapping)
      → IsMapped Fits control
      → Keeps R P Any (probe_hardware_identity h control)
  unfolding probe_hardware_identity
  probe-Keeps control c = then-Keeps Any _ _ (read_u32-Keeps inv control _ c) (λ magic.
      elim (Bool-cases (magic == hw_magic)) [
        | inl right ↦
            rw right
              (then-Keeps Any _ _ (read_u32-Keeps inv control _ c) (λ build. pure-Keeps Any _ tt))
        | inr wrong ↦ rw wrong (fail-Keeps Any _)
      ])

  -- For a bound that may run out.
  pub poll-Keeps :
      R
      → ((w : h.World) → P w → P (h.sleep default_poll_interval w))
      → (rounds : ℕ) (control : MappedRegion h.Mapping) (deadline : ℕ) → IsMapped Fits control
      → Keeps R P Any (poll_until_complete h rounds control deadline)
  unfolding poll_until_complete
  poll-Keeps out sleeps zero control deadline c = lift-Keeps Any panic out
  poll-Keeps out sleeps (suc rounds) control deadline c =
      let next = poll-Keeps out sleeps rounds control deadline c in
      then-Keeps Any _ _ (read_u32-Keeps inv control reg_status c) (λ word.
        elim (Bool-cases ((decode_status word).is_done || (decode_status word).is_error)) [
          | inl done ↦ rw done (pure-Keeps Any word tt)
          | inr busy ↦ rw busy (
              then-Keeps Any (act h.now)
                (λ time. elim (leb deadline time) [
                  | true ↦ fail (
                      ServiceError.timeout "completion_timeout"
                        "timed out waiting for accelerator completion")
                  | false ↦
                      act_unit (h.sleep default_poll_interval)
                      >> poll_until_complete h rounds control deadline
                ])
                (act-Keeps h.now inv.now_kept)
                (λ time. elim (Bool-cases (leb deadline time)) [
                  | inl late ↦ rw late (fail-Keeps Any _)
                  | inr early ↦ rw early (
                      then-Keeps Any (act_unit (h.sleep default_poll_interval)) _
                        (act_unit-Keeps (h.sleep default_poll_interval) sleeps) (λ done. next))
                ]))
        ])

  pub read_mask_words-Keeps :
      (control : MappedRegion h.Mapping) (word count : ℕ)
      → IsMapped Fits control
      → Keeps R P (λ words. length words ≡ count) (read_mask_words h control word count)
  unfolding read_mask_words
  read_mask_words-Keeps control word zero c = pure-Keeps _ [] refl
  read_mask_words-Keeps control word (suc count) c =
      then-Keeps _ _ _ (read_u32-Keeps inv control _ c) (λ value.
        bind-Keeps (λ values. length values ≡ count) _ _ _
          (read_mask_words-Keeps control (word + 1) count c)
          (λ values n. pure-Keeps _ _ (ap suc n)))

  pub read_snapshot-Keeps :
      (control : MappedRegion h.Mapping)
      → IsMapped Fits control
      → Keeps R P (λ (s : SnapshotStatus). s.accepted_job_count < 256) (read_snapshot h control)
  unfolding read_snapshot
  read_snapshot-Keeps control c = then-Keeps _ _ _ (read_u32-Keeps inv control _ c) (λ status.
      then-Keeps _ _ _ (read_u32-Keeps inv control _ c) (λ batch_id.
        then-Keeps _ _ _ (read_u32-Keeps inv control _ c) (λ accepted.
          then-Keeps _ _ _ (read_u32-Keeps inv control _ c) (λ completed.
            then-Keeps _ _ _ (read_u32-Keeps inv control _ c)
              (λ dropped. pure-Keeps _ _ (omega (arith, bit_and_mask255 accepted)))))))

module _ {R : Type 0} {h : Host} {P : h.World → Type 0} {Fits : h.Mapping → ℕ → Type 0}
    (inv : Invariant h P Fits) where
  pub submit-Keeps :
      (fuel : ℕ) (request : HardwareBatchRequest)
      (control message_region job_region : MappedRegion h.Mapping)
      → IsRequest request
      → IsMapped Fits control
      → IsMapped Fits message_region
      → IsMapped Fits job_region
      → Keeps R P Any (submit h fuel request control message_region job_region)
  unfolding submit
  submit-Keeps fuel request control message_region job_region r c m j =
      then-Keeps Any _ _ (write_bytes-Keeps inv message_region request.message m r.message_bytes)
        (λ a.
          then-Keeps Any _ _
            (write_bytes-Keeps inv job_region (jobs_bytes request.jobs) j
              (jobs_bytes-IsByte request.jobs r.job_bytes))
            (λ a. then-Keeps Any _ _ (write_u32-Keeps inv control _ _ c (omega arith)) (λ a.
              then-Keeps Any _ _ (write_u32-Keeps inv control _ _ c (omega arith)) (λ a.
                then-Keeps Any _ _
                  (write_u32-Keeps inv control _ _ c
                    (config-IsWord request.dispatch_limit request.verify_mode r.small_limit))
                  (λ a. then-Keeps Any _ _ (write_u32-Keeps inv control _ _ c r.small_cycles) (λ a.
                    then-Keeps Any _ _ (read_u32-Keeps inv.calls control _ c)
                      (λ last. pure-Keeps Any _ tt)))))))

  pub start_and_wait-Keeps :
      (fuel : ℕ) (mode : WaitMode) (path : String) (timeout : ℕ) (control : MappedRegion h.Mapping)
      (deadline : ℕ)
      → IsMapped Fits control
      → Keeps R P Any (poll_until_complete h fuel control deadline)
      → Keeps R P Any (start_and_wait h fuel mode path timeout control deadline)
  unfolding start_and_wait
  start_and_wait-Keeps fuel irq path timeout control deadline c polls =
      then-Keeps Any _ _ (open_interrupt-Keeps inv.calls path) (λ interrupt.
        then-Keeps Any _ _ (write_u32-Keeps inv control _ _ c (omega arith)) (λ a.
          then-Keeps Any _ _ (arm-Keeps inv.calls interrupt) (λ a.
            then-Keeps Any _ _ (write_u32-Keeps inv control _ _ c (omega arith)) (λ a.
              then-Keeps Any _ _ (wait-Keeps inv.calls interrupt timeout) (λ count.
                then-Keeps Any _ _ (write_u32-Keeps inv control _ _ c (omega arith)) (λ a.
                  then-Keeps Any _ _ (read_u32-Keeps inv.calls control reg_status c) (λ word.
                    elim (Bool-cases
                      ((decode_status word).is_done || (decode_status word).is_error)) [
                        | inl done ↦ rw done (pure-Keeps Any word tt)
                        | inr busy ↦ rw busy (polls)
                      ])))))))
  start_and_wait-Keeps fuel poll path timeout control deadline c polls =
      then-Keeps Any _ _ (write_u32-Keeps inv control _ _ c (omega arith)) (λ a. polls)
  start_and_wait-Keeps fuel auto path timeout control deadline c polls =
      then-Keeps Any _ _ (write_u32-Keeps inv control _ _ c (omega arith)) (λ a. polls)
