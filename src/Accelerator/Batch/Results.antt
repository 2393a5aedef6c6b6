-- ===== src/Accelerator/Batch/Results.antt =====
-- What a result of `verify_batch` of accelerator.rs is like, whatever the device answers.
use kv260_sigverify.Prelude.{
  ℕ, zero, suc, ◌+◌, ◌*◌, ◌<◌, ◌≤◌, ◌≡◌, refl, ap, ◌∙◌, List, [], ◌∷◌, Bool, true, false, ◌||◌, ok,
  length, ◌==◌, ==_iff, if◌then◌else◌, arith,
}
use kv260_sigverify.Prelude.Bits.{bit_and_mask255}
use kv260_sigverify.ServiceError
use kv260_sigverify.ServiceError.{ServiceError}
use kv260_sigverify.Accelerator.Types.{
  AcceleratorConfig, HardwareBatchRequest, HardwareBatchResult, SnapshotStatus, HardwareLayout,
  WaitMode,
}
use kv260_sigverify.Accelerator.Host.{Host, M, fail, lift, act, ◌>>=◌}
use kv260_sigverify.Accelerator.Mmio.{MappedRegion, read_u32, open_region}
use kv260_sigverify.Accelerator.Device.{
  read_mask_words, read_result_mask, read_snapshot, mask_bits, result_mask_hex, decode_status,
  probe_hardware_identity, require_full_hardware,
}
use kv260_sigverify.Accelerator.Device.Mask.{bits_of, mask_bits-bits_of, length-bits_of}
use kv260_sigverify.Accelerator.Batch.{
  collect, run_batch, verify_batch, submit, start_and_wait, check_request, check_jobs_size,
  jobs_bytes, instant_add,
}
use kv260_sigverify.Accelerator.Layout.{resolve_layout, wait_mode_for_layout}
use kv260_sigverify.Accelerator.Post.{Post, bind-Post, pure-Post, fail-Post}

-- One bit for each accepted job, each read from one mask of eight words.
pub record IsResult (result : HardwareBatchResult) : Type 0 where
  pub words : List ℕ
  pub eight : length words ≡ 8
  pub few : result.accepted_job_count < 256
  pub bits_eq : result.result_bits ≡ bits_of words 0 result.accepted_job_count
  pub hex_eq : result.result_mask_hex ≡ result_mask_hex words

-- A step by the two ways of a test.
if-Post :
    {W A : Type 0} (P : A → Type 0) (b : Bool) (m n : M W A)
    → (b ≡ true → Post P m)
    → Post P n
    → Post P (if b then m else n)
if-Post P true m n pm pn = pm refl
if-Post P false m n pm pn = pn

bits_unique :
    (words : List ℕ) (count : ℕ) (bits : List Bool)
    → count ≤ length words * 32
    → mask_bits words count ≡ ok bits
    → bits ≡ bits_of words 0 count
bits_unique words count bits le e = let e2 = mask_bits-bits_of words count le in cc

module _ (h : Host) (fuel : ℕ) where
  open h use {World, Mapping}

  read_mask_words-Post :
      (control : MappedRegion Mapping) (word count : ℕ)
      → Post (λ words. length words ≡ count) (read_mask_words h control word count)
  unfolding read_mask_words
  read_mask_words-Post control word zero = pure-Post _ [] refl
  read_mask_words-Post control word (suc count) =
      bind-Post _ (read_u32 h control _) _ (λ w w2 value e.
        bind-Post _ (read_mask_words h control (word + 1) count) _ (λ w3 w4 values e2.
          pure-Post _ (value ∷ values)
            (ap suc (read_mask_words-Post control (word + 1) count w3 w4 values e2))))

  read_snapshot-Post :
      (control : MappedRegion Mapping)
      → Post (λ (s : SnapshotStatus). s.accepted_job_count < 256) (read_snapshot h control)
  unfolding read_snapshot
  read_snapshot-Post control = bind-Post _ (read_u32 h control _) _ (λ w1 w2 err_status e1.
      bind-Post _ (read_u32 h control _) _ (λ w3 w4 batch_id e2.
        bind-Post _ (read_u32 h control _) _ (λ w5 w6 accepted e3.
          bind-Post _ (read_u32 h control _) _ (λ w7 w8 completed e4.
            bind-Post _ (read_u32 h control _) _
              (λ w9 w10 dropped e5. pure-Post _ _ (omega (arith, bit_and_mask255 accepted)))))))

  collect-Post :
      (expected : ℕ) (control : MappedRegion Mapping)
      → Post
          (λ result. IsResult result × (result.batch_id ≡ expected))
          (collect h fuel expected control)
  unfolding collect read_result_mask
  collect-Post expected control = bind-Post _ (read_snapshot h control) _ (λ w w1 snapshot e1.
      if-Post _ (snapshot.batch_id == expected) _ _
        (λ same. bind-Post _ (read_result_mask h control) _ (λ w2 w3 words e2.
          bind-Post _ (lift (mask_bits words snapshot.accepted_job_count)) _ (λ w4 w5 bits e3.
            bind-Post _ (read_u32 h control _) _ (λ w6 w7 last_job e4.
              bind-Post _ (read_u32 h control _) _ (λ w8 w9 last_batch e5. pure-Post _ _ (
                let eight = read_mask_words-Post control 0 8 w2 w3 words e2 in
                let few = read_snapshot-Post control w w1 snapshot e1 in
                (
                  record {
                    words = words;
                    eight = eight;
                    few = few;
                    bits_eq =
                        bits_unique words snapshot.accepted_job_count bits
                          (omega (arith, eight, few)) (ap (λ x. x.0) e3);
                    hex_eq = refl;
                  },
                  (==_iff _ _).0 same,
                )))))))
        (fail-Post _ _))

  after_start-Post :
      (request : HardwareBatchRequest) (layout : HardwareLayout) (wait_mode : WaitMode)
      (expected : ℕ) (control : MappedRegion Mapping) (deadline : ℕ)
      → Post IsResult (
          start_and_wait h fuel wait_mode layout.control.path request.timeout control deadline
          >>= λ word.
              if (decode_status word).is_done || (decode_status word).is_error
              then collect h fuel expected control
              else fail (
                  ServiceError.timeout "completion_not_visible"
                    "accelerator did not expose a terminal completion state before timeout"))
  after_start-Post request layout wait_mode expected control deadline =
      bind-Post _
        (start_and_wait h fuel wait_mode layout.control.path request.timeout control deadline) _
        (λ w w2 word e.
          if-Post _ ((decode_status word).is_done || (decode_status word).is_error) _ _
            (λ c w3 w4 result e2. (collect-Post expected control w3 w4 result e2).0)
            (fail-Post _ _))

  run_batch-Post :
      (request : HardwareBatchRequest) (layout : HardwareLayout) (wait_mode : WaitMode)
      → Post IsResult (run_batch h fuel request layout wait_mode)
  unfolding run_batch
  run_batch-Post request layout wait_mode =
      bind-Post _ (open_region h layout.control) _ (λ w1 w2 control e1.
        bind-Post _ (probe_hardware_identity h control) _ (λ w3 w4 identity e2.
          bind-Post _ (lift (require_full_hardware identity)) _ (λ w5 w6 done e3.
            bind-Post _ (open_region h layout.message) _ (λ w7 w8 message_region e4.
              bind-Post _ (open_region h layout.job) _ (λ w9 w10 job_region e5.
                bind-Post _ (submit h fuel request control message_region job_region) _
                  (λ w11 w12 expected e6. bind-Post _ (act h.now) _ (λ w13 w14 time e7.
                    bind-Post _ (lift (instant_add h.latest time request.timeout)) _
                      (λ w15 w16 deadline e8.
                        after_start-Post request layout wait_mode expected control deadline))))))))

  verify_batch-Post :
      (config : AcceleratorConfig) (request : HardwareBatchRequest)
      → Post IsResult (verify_batch h fuel config request)
  unfolding verify_batch
  verify_batch-Post config request = bind-Post _ (lift (check_request request)) _ (λ w1 w2 done e1.
      bind-Post _ (resolve_layout h config) _ (λ w3 w4 layout e2.
        bind-Post _ (lift (wait_mode_for_layout config.wait_mode layout.control.path)) _
          (λ w5 w6 wait_mode e3.
            bind-Post _ (lift (check_jobs_size (jobs_bytes request.jobs))) _
              (λ w7 w8 done2 e4. run_batch-Post request layout wait_mode))))

-- A result of `verify_batch` has one bit for each job that the device accepted, at most 255: the
-- bits numbered from 0 up of one mask of eight words, which the result's hexadecimal text shows too.
pub verify_batch-IsResult :
    (h : Host) (fuel : ℕ) (config : AcceleratorConfig) (request : HardwareBatchRequest)
    (w w2 : h.World) (result : HardwareBatchResult)
    → verify_batch h fuel config request w ≡ (ok result, w2)
    → IsResult result × (length result.result_bits ≡ result.accepted_job_count)
verify_batch-IsResult h fuel config request w w2 result e =
    let is = verify_batch-Post h fuel config request w w2 result e in
    (is, ap length is.bits_eq ∙ length-bits_of is.words 0 result.accepted_job_count)
