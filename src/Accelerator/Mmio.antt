-- ===== src/Accelerator/Mmio.antt =====
-- `MappedRegion` and `UioInterrupt` of accelerator.rs.
use kv260_sigverify.Prelude.{
  ℕ, ◌+◌, ◌-◌, ◌%◌, ◌^◌, List, [], ◌∷◌, String, true, false, none, some, Outcome, ok, err, ltb,
  ◌==◌, if◌then◌else◌, min,
}
use kv260_sigverify.Prelude.Format.{◌⧺◌, hex_padded}
use kv260_sigverify.Parser.Reader.{usize_max}
use kv260_sigverify.ServiceError
use kv260_sigverify.ServiceError.{ServiceError}
use kv260_sigverify.Accelerator.Types.{RegionSpec}
use kv260_sigverify.Accelerator.Host.{Host, M, pure, fail, lift, act, act_unit, or_fail, ◌>>=◌}
use kv260_sigverify.Accelerator.LittleEndian.{from_le_bytes}
use kv260_sigverify.Accelerator.Words.{write_bytes_as_u32_words}

pub record MappedRegion (Mapping : Type 0) : Type 0 where
  pub mapping : Mapping
  pub delta : ℕ
  pub size : ℕ

out_of_bounds : String → ℕ → ServiceError
out_of_bounds operation offset =
    ServiceError.unavailable "mmio_bounds" (
      "attempted to " ⧺ operation ⧺ " past mapped region bounds at offset 0x" ⧺ hex_padded 4 offset)

-- `checked_word_start`, from the region's `size` and `delta`
unfoldable pub checked_word_start : ℕ → ℕ → ℕ → String → Outcome ServiceError ℕ
unfolding out_of_bounds
checked_word_start size delta offset operation =
    if ltb usize_max (offset + 4)
    then err (out_of_bounds operation offset)
    else if ltb size (offset + 4)
    then err (out_of_bounds operation offset)
    else if ltb usize_max (delta + offset)
    then err (
        ServiceError.unavailable "mmio_bounds" (
          "attempted to "
          ⧺ operation
          ⧺ " using an overflowing MMIO offset 0x"
          ⧺ hex_padded 4 offset))
    else if (delta + offset) % 4 == 0
    then ok (delta + offset)
    else err (
        ServiceError.unavailable "mmio_alignment"
          ("attempted to " ⧺ operation ⧺ " unaligned MMIO word at offset 0x" ⧺ hex_padded 4 offset))

module _ (h : Host) where
  open h use {World, File, Mapping}

  -- `system_page_size`
  unfoldable pub system_page_size : M World ℕ
  system_page_size = act h.page_size >>= λ value. elim value [
    | none ↦
        fail (ServiceError.unavailable "page_size_unavailable" "failed to determine host page size")
    | some size ↦ pure size
  ]

  -- `MappedRegion::open`
  unfoldable pub open_region : RegionSpec → M World (MappedRegion Mapping)
  unfolding system_page_size
  open_region spec = do
    page_size ← system_page_size
    let aligned_offset = spec.offset - spec.offset % page_size
    let delta = spec.offset - aligned_offset
    file ←
        or_fail
          (λ error.
            ServiceError.unavailable "open_region_failed"
              ("failed to open " ⧺ spec.path ⧺ ": " ⧺ error))
          (h.open_file true spec.path)
    mapping ←
        or_fail
          (λ error.
            ServiceError.unavailable "map_region_failed"
              ("failed to map " ⧺ spec.path ⧺ ": " ⧺ error))
          (h.map_file file aligned_offset (delta + spec.size))
    pure (record { mapping = mapping; delta = delta; size = spec.size })

  unfoldable pub read_u32 : MappedRegion Mapping → ℕ → M World ℕ
  read_u32 region offset = do
    start ← lift (checked_word_start region.size region.delta offset "read")
    act (h.read_volatile region.mapping start)

  unfoldable pub write_u32 : MappedRegion Mapping → ℕ → ℕ → M World (Unit {0})
  write_u32 region offset value = do
    start ← lift (checked_word_start region.size region.delta offset "write")
    act_unit (h.write_volatile region.mapping start value)

  unfoldable pub write_bytes : MappedRegion Mapping → List ℕ → M World (Unit {0})
  write_bytes region bytes = write_bytes_as_u32_words (write_u32 region) bytes region.size

  -- `UioInterrupt`, whose one field is the file
  unfoldable pub open_interrupt : String → M World File
  open_interrupt path =
      or_fail
        (λ error.
          ServiceError.unavailable "open_uio_failed"
            ("failed to open " ⧺ path ⧺ " for interrupt handling: " ⧺ error))
        (h.open_file false path)

  unfoldable pub arm : File → M World (Unit {0})
  arm file =
      or_fail
        (λ error. ServiceError.unavailable "arm_irq_failed" ("failed to arm interrupt: " ⧺ error))
        (h.write_all file (1 ∷ 0 ∷ 0 ∷ 0 ∷ []))

  -- The wait is cut to `u16::MAX` milliseconds.
  unfoldable pub wait : File → ℕ → M World ℕ
  wait file timeout = do
    ready ←
        or_fail
          (λ error.
            ServiceError.unavailable "poll_irq_failed"
              ("failed while waiting for interrupt: " ⧺ error))
          (h.poll_in file (min timeout (2 ^ 16 - 1)))
    if ready == 0
        then fail (
            ServiceError.timeout "irq_wait_timeout"
              ("timed out waiting for interrupt after " ⧺ h.seconds_text timeout ⧺ "s"))
        else (do
          count ←
              or_fail
                (λ error.
                  ServiceError.unavailable "irq_read_failed"
                    ("failed to read interrupt event counter: " ⧺ error))
                (h.read_exact file 4)
          pure (from_le_bytes count))
