-- ===== src/Accelerator/Mirrors/Device.antt =====
-- The operations on the device in accelerator.rs do the same on a watching host.
use kv260_sigverify.Prelude.{
  ℕ, zero, suc, ◌+◌, String, true, false, ◌||◌, inl, inr, panic, leb, ◌==◌, Bool-cases,
}
use kv260_sigverify.ServiceError
use kv260_sigverify.Accelerator.Types.{
  HardwareBatchRequest, WaitMode, auto, irq, poll, default_poll_interval, reg_status, hw_magic,
}
use kv260_sigverify.Accelerator.Host.{Host, M, fail, act, act_unit, ◌>>◌}
use kv260_sigverify.Accelerator.Mmio.{MappedRegion}
use kv260_sigverify.Accelerator.Device.{
  probe_hardware_identity, decode_status, poll_until_complete, read_mask_words, read_snapshot,
}
use kv260_sigverify.Accelerator.Batch.{jobs_bytes, submit, start_and_wait}
use kv260_sigverify.Accelerator.Mirrors.{
  Mirrors, id, pure-Mirrors, fail-Mirrors, lift-Mirrors, act-Mirrors, act_unit-Mirrors,
  bind-Mirrors,
}
use kv260_sigverify.Accelerator.Mirrors.Watching.{Watching}
use kv260_sigverify.Accelerator.Mirrors.Searches.{open_interrupt-Mirrors, arm-Mirrors, wait-Mirrors}
use kv260_sigverify.Accelerator.Mirrors.Regions.{
  region_of, read_u32-Mirrors, write_u32-Mirrors, write_bytes-Mirrors,
}

-- What `poll_until_complete` does at a time at which the device is still busy.
abbrev next_round : (h : Host) → ℕ → MappedRegion h.Mapping → ℕ → ℕ → M h.World ℕ
next_round h rounds control deadline time = elim (leb deadline time) [
  | true ↦
      fail
        (ServiceError.timeout "completion_timeout" "timed out waiting for accelerator completion")
  | false ↦
      act_unit (h.sleep default_poll_interval) >> poll_until_complete h rounds control deadline
]

module _ {g h : Host} (v : Watching g h) where
  pub probe-Mirrors :
      (control : MappedRegion g.Mapping)
      → Mirrors v.strip id
          (probe_hardware_identity g control)
          (probe_hardware_identity h (region_of v control))
  unfolding probe_hardware_identity
  probe-Mirrors control = bind-Mirrors id id _ _ _ _ (read_u32-Mirrors v control _) (λ magic.
      elim (Bool-cases (magic == hw_magic)) [
        | inl right ↦
            rw right (
              bind-Mirrors id id _ _ _ _ (read_u32-Mirrors v control _)
                (λ build. pure-Mirrors id _))
        | inr wrong ↦ rw wrong (fail-Mirrors id _)
      ])

  pub poll-Mirrors :
      (rounds : ℕ) (control : MappedRegion g.Mapping) (deadline : ℕ)
      → Mirrors v.strip id
          (poll_until_complete g rounds control deadline)
          (poll_until_complete h rounds (region_of v control) deadline)
  unfolding poll_until_complete
  poll-Mirrors zero control deadline = lift-Mirrors panic
  poll-Mirrors (suc rounds) control deadline =
      let next = poll-Mirrors rounds control deadline in
      bind-Mirrors id id _ _ _ _ (read_u32-Mirrors v control reg_status) (λ word.
        elim (Bool-cases ((decode_status word).is_done || (decode_status word).is_error)) [
          | inl done ↦ rw done (pure-Mirrors id word)
          | inr busy ↦ rw busy (
              bind-Mirrors id id (act g.now) (act h.now) (next_round g rounds control deadline)
                (next_round h rounds (region_of v control) deadline)
                (act-Mirrors g.now h.now v.now_eq)
                (λ time. elim (Bool-cases (leb deadline time)) [
                  | inl late ↦ rw (late, next_round) (fail-Mirrors id _)
                  | inr early ↦
                      rw (early, next_round)
                        (bind-Mirrors id id (act_unit (g.sleep default_poll_interval))
                          (act_unit (h.sleep default_poll_interval)) _ _
                          (act_unit-Mirrors (g.sleep default_poll_interval)
                            (h.sleep default_poll_interval) (v.sleep_eq default_poll_interval))
                          (λ done. next))
                ]))
        ])

  pub read_mask_words-Mirrors :
      (control : MappedRegion g.Mapping) (word count : ℕ)
      → Mirrors v.strip id
          (read_mask_words g control word count)
          (read_mask_words h (region_of v control) word count)
  unfolding read_mask_words
  read_mask_words-Mirrors control word zero = pure-Mirrors id _
  read_mask_words-Mirrors control word (suc count) =
      let next = read_mask_words-Mirrors control (word + 1) count in
      bind-Mirrors id id _ _ _ _ (read_u32-Mirrors v control _)
        (λ value. bind-Mirrors id id _ _ _ _ next (λ values. pure-Mirrors id _))

  pub read_snapshot-Mirrors :
      (control : MappedRegion g.Mapping)
      → Mirrors v.strip id (read_snapshot g control) (read_snapshot h (region_of v control))
  unfolding read_snapshot
  read_snapshot-Mirrors control =
      bind-Mirrors id id _ _ _ _ (read_u32-Mirrors v control _) (λ status.
        bind-Mirrors id id _ _ _ _ (read_u32-Mirrors v control _) (λ batch_id.
          bind-Mirrors id id _ _ _ _ (read_u32-Mirrors v control _) (λ accepted.
            bind-Mirrors id id _ _ _ _ (read_u32-Mirrors v control _) (λ completed.
              bind-Mirrors id id _ _ _ _ (read_u32-Mirrors v control _)
                (λ dropped. pure-Mirrors id _)))))

  pub submit-Mirrors :
      (fuel : ℕ) (request : HardwareBatchRequest)
      (control message_region job_region : MappedRegion g.Mapping)
      → Mirrors v.strip id (submit g fuel request control message_region job_region) (
          submit h fuel request
            (region_of v control)
            (region_of v message_region)
            (region_of v job_region))
  unfolding submit
  submit-Mirrors fuel request control message_region job_region =
      bind-Mirrors id id _ _ _ _ (write_bytes-Mirrors v message_region request.message) (λ a.
        bind-Mirrors id id _ _ _ _ (write_bytes-Mirrors v job_region (jobs_bytes request.jobs))
          (λ a. bind-Mirrors id id _ _ _ _ (write_u32-Mirrors v control _ _) (λ a.
            bind-Mirrors id id _ _ _ _ (write_u32-Mirrors v control _ _) (λ a.
              bind-Mirrors id id _ _ _ _ (write_u32-Mirrors v control _ _) (λ a.
                bind-Mirrors id id _ _ _ _ (write_u32-Mirrors v control _ _) (λ a.
                  bind-Mirrors id id _ _ _ _ (read_u32-Mirrors v control _)
                    (λ last. pure-Mirrors id _)))))))

  pub start_and_wait-Mirrors :
      (fuel : ℕ) (mode : WaitMode) (path : String) (timeout : ℕ) (control : MappedRegion g.Mapping)
      (deadline : ℕ)
      → Mirrors v.strip id
          (start_and_wait g fuel mode path timeout control deadline)
          (start_and_wait h fuel mode path timeout (region_of v control) deadline)
  unfolding start_and_wait
  start_and_wait-Mirrors fuel irq path timeout control deadline =
      bind-Mirrors v.file id _ _ _ _ (open_interrupt-Mirrors v path) (λ interrupt.
        bind-Mirrors id id _ _ _ _ (write_u32-Mirrors v control _ _) (λ a.
          bind-Mirrors id id _ _ _ _ (arm-Mirrors v interrupt) (λ a.
            bind-Mirrors id id _ _ _ _ (write_u32-Mirrors v control _ _) (λ a.
              bind-Mirrors id id _ _ _ _ (wait-Mirrors v interrupt timeout) (λ count.
                bind-Mirrors id id _ _ _ _ (write_u32-Mirrors v control _ _) (λ a.
                  bind-Mirrors id id _ _ _ _ (read_u32-Mirrors v control reg_status) (λ word.
                    elim (Bool-cases
                      ((decode_status word).is_done || (decode_status word).is_error)) [
                        | inl done ↦ rw done (pure-Mirrors id word)
                        | inr busy ↦ rw busy (poll-Mirrors fuel control deadline)
                      ])))))))
  start_and_wait-Mirrors fuel poll path timeout control deadline =
      bind-Mirrors id id _ _ _ _ (write_u32-Mirrors v control _ _)
        (λ a. poll-Mirrors fuel control deadline)
  start_and_wait-Mirrors fuel auto path timeout control deadline =
      bind-Mirrors id id _ _ _ _ (write_u32-Mirrors v control _ _)
        (λ a. poll-Mirrors fuel control deadline)
