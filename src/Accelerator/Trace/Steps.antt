-- ===== src/Accelerator/Trace/Steps.antt =====
-- The writes of the steps of `verify_batch` of accelerator.rs on the opened regions.
use kv260_sigverify.Prelude.{ℕ, Bool, List, [], ◌∷◌, String, true, false, ◌||◌}
use kv260_sigverify.Accelerator.Types.{
  RegionSpec, HardwareBatchRequest, HardwareLayout, WaitMode, auto, irq, poll,
}
use kv260_sigverify.Accelerator.Host.{Host, M, pure, ◌>>=◌}
use kv260_sigverify.Accelerator.Mmio.{MappedRegion, read_u32, write_u32}
use kv260_sigverify.Accelerator.Device.{decode_status, poll_until_complete}
use kv260_sigverify.Accelerator.Batch.{jobs_bytes, submit, start_and_wait}
use kv260_sigverify.Accelerator.Keeps.{Any}
use kv260_sigverify.Accelerator.Keeps.Searches.{open_interrupt-Keeps, arm-Keeps, wait-Keeps}
use kv260_sigverify.Accelerator.Keeps.Regions.{read_u32-Keeps}
use kv260_sigverify.Accelerator.Keeps.Device.{poll-Keeps}
use kv260_sigverify.Accelerator.Trace.{
  Write, traced, write_at, start_writes, submit_writes, region_writes,
}
use kv260_sigverify.Accelerator.Trace.Rules.{Writes, pure-Writes, bind-Writes, calm-Writes}
use kv260_sigverify.Accelerator.Trace.Regions.{
  traced-Undisturbed, IsOpen, write_u32-Writes, write_bytes-Writes,
}

module _ (h : Host) (fuel : ℕ) where
  read_u32-Writes :
      (region : MappedRegion (traced h).Mapping) (offset : ℕ)
      → Writes Any [] (read_u32 (traced h) region offset)
  read_u32-Writes region offset =
      calm-Writes _ (λ log. read_u32-Keeps (traced-Undisturbed h log) region offset tt)

  poll-Writes :
      (control : MappedRegion (traced h).Mapping) (deadline : ℕ)
      → Writes Any [] (poll_until_complete (traced h) fuel control deadline)
  poll-Writes control deadline =
      calm-Writes _
        (λ log. poll-Keeps (traced-Undisturbed h log) tt (λ w same. same) fuel control deadline tt)

  after_write-Writes :
      {B : Type 0} (S : B → Type 0) (ys : List Write) (spec : RegionSpec)
      (region : MappedRegion (traced h).Mapping) (offset value : ℕ)
      (f : Unit {0} → M (traced h).World B)
      → IsOpen h spec region
      → ((done : Unit {0}) → Writes S ys (f done))
      → Writes S (write_at spec offset value ∷ ys) (write_u32 (traced h) region offset value >>= f)
  after_write-Writes S ys spec region offset value f o next =
      bind-Writes Any S (write_at spec offset value ∷ []) ys
        (write_u32 (traced h) region offset value) f (write_u32-Writes h spec region offset value o)
        (λ done any. next done)

  after_read-Writes :
      {B : Type 0} (S : B → Type 0) (ys : List Write) (region : MappedRegion (traced h).Mapping)
      (offset : ℕ) (f : ℕ → M (traced h).World B)
      → ((value : ℕ) → Writes S ys (f value))
      → Writes S ys (read_u32 (traced h) region offset >>= f)
  after_read-Writes S ys region offset f next =
      bind-Writes Any S [] ys (read_u32 (traced h) region offset) f (read_u32-Writes region offset)
        (λ value any. next value)

  pub submit-Writes :
      (layout : HardwareLayout) (request : HardwareBatchRequest)
      (control message_region job_region : MappedRegion (traced h).Mapping)
      → IsOpen h layout.control control
      → IsOpen h layout.message message_region
      → IsOpen h layout.job job_region
      → Writes Any
          (submit_writes layout request)
          (submit (traced h) fuel request control message_region job_region)
  unfolding submit
  submit-Writes layout request control message_region job_region c m j =
      bind-Writes Any Any (region_writes layout.message request.message) _ _ _
        (write_bytes-Writes h layout.message message_region request.message m)
        (λ a any.
          bind-Writes Any Any (region_writes layout.job (jobs_bytes request.jobs)) _ _ _
            (write_bytes-Writes h layout.job job_region (jobs_bytes request.jobs) j)
            (λ a any. after_write-Writes Any _ layout.control control _ _ _ c (λ a.
              after_write-Writes Any _ layout.control control _ _ _ c (λ a.
                after_write-Writes Any _ layout.control control _ _ _ c (λ a.
                  after_write-Writes Any [] layout.control control _ _ _ c
                    (λ a. after_read-Writes Any [] control _ _ (λ last. pure-Writes Any _ tt)))))))

  ended-Writes :
      (control : MappedRegion (traced h).Mapping) (deadline word : ℕ) (ended : Bool)
      → Writes {A = ℕ} Any [] (elim ended [
        | true ↦ pure word
        | false ↦ poll_until_complete (traced h) fuel control deadline
      ])
  ended-Writes control deadline word true = pure-Writes Any word tt
  ended-Writes control deadline word false = poll-Writes control deadline

  pub start_and_wait-Writes :
      (spec : RegionSpec) (mode : WaitMode) (path : String) (timeout : ℕ)
      (control : MappedRegion (traced h).Mapping) (deadline : ℕ)
      → IsOpen h spec control
      → Writes Any
          (start_writes spec mode)
          (start_and_wait (traced h) fuel mode path timeout control deadline)
  unfolding start_and_wait
  start_and_wait-Writes spec irq path timeout control deadline c =
      bind-Writes Any Any [] _ _ _
        (calm-Writes _ (λ log. open_interrupt-Keeps (traced-Undisturbed h log) path))
        (λ interrupt any. after_write-Writes Any _ spec control _ _ _ c (λ a.
          bind-Writes Any Any [] _ _ _
            (calm-Writes _ (λ log. arm-Keeps (traced-Undisturbed h log) interrupt))
            (λ a any. after_write-Writes Any _ spec control _ _ _ c (λ a.
              bind-Writes Any Any [] _ _ _
                (calm-Writes _ (λ log. wait-Keeps (traced-Undisturbed h log) interrupt timeout))
                (λ count any. after_write-Writes Any [] spec control _ _ _ c (λ a.
                  after_read-Writes Any [] control _ _ (λ word.
                    ended-Writes control deadline word
                      ((decode_status word).is_done || (decode_status word).is_error))))))))
  start_and_wait-Writes spec poll path timeout control deadline c =
      after_write-Writes Any [] spec control _ _ _ c (λ a. poll-Writes control deadline)
  start_and_wait-Writes spec auto path timeout control deadline c =
      after_write-Writes Any [] spec control _ _ _ c (λ a. poll-Writes control deadline)
