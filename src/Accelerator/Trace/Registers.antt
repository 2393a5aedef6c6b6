-- ===== src/Accelerator/Trace/Registers.antt =====
-- The registers that a batch of accelerator.rs leaves behind for the device.
use kv260_sigverify.Prelude.{
  ℕ, zero, suc, ◌+◌, ◌%◌, ◌^◌, ◌<◌, ◌≤◌, ◌≡◌, refl, ap, ◌∙◌, List, [], ◌∷◌, ◌++◌, map, String, some,
  ◌⊎◌, inl, inr, length, get_elem?, All, arith,
}
use kv260_sigverify.Accelerator.Types.{
  RegionSpec, HardwareBatchRequest, HardwareLayout, WaitMode, auto, irq, poll, reg_message_len,
  reg_job_count,
}
use kv260_sigverify.Accelerator.Batch.{jobs_bytes}
use kv260_sigverify.Accelerator.Trace.{
  Write, write_at, region_writes, parameter_writes, start_writes, submit_writes, batch_writes,
}
use kv260_sigverify.Accelerator.Trace.Memory.{
  byte_of, byte_at, memory, memory_lem, Misses, byte_at-later, byte_at-earlier, write_at-Misses,
}
use kv260_sigverify.Accelerator.Trace.Memory.Words.{byte_at-newest}

-- A word of 32 bits, the lowest byte first.
abbrev pub word_bytes : ℕ → List ℕ
word_bytes value = byte_of value 0 ∷ byte_of value 1 ∷ byte_of value 2 ∷ byte_of value 3 ∷ []

word_bytes_lem :
    (value k byte : ℕ)
    → get_elem? (word_bytes value) k ≡ some byte
    → (k < 4) × (some (byte_of value k) ≡ some byte)
word_bytes_lem value zero byte e = (omega arith, e)
word_bytes_lem value (suc zero) byte e = (omega arith, e)
word_bytes_lem value (suc (suc zero)) byte e = (omega arith, e)
word_bytes_lem value (suc (suc (suc zero))) byte e = (omega arith, e)
word_bytes_lem value (suc (suc (suc (suc k)))) byte e = cc

-- Registers at which a write leaves a word at another one alone.
module _ (control : RegionSpec) (register k : ℕ) (lt : k < 4) where
  other-Misses :
      (offset value : ℕ)
      → (offset + 4 ≤ register) ⊎ (register + 4 ≤ offset)
      → Misses control.path (control.offset + register + k) (write_at control offset value)
  other-Misses offset value (inl below) =
      write_at-Misses control control.path _ offset value (inr (inr (omega arith)))
  other-Misses offset value (inr above) =
      write_at-Misses control control.path _ offset value (inr (inl (omega arith)))

  start-Misses :
      (mode : WaitMode)
      → 4 ≤ register
      → register + 4 ≤ 0x60
      → All (Misses control.path (control.offset + register + k)) (start_writes control mode)
  start-Misses irq low high =
      (other-Misses _ 0 (inr high), (other-Misses _ 0 (inl low), (other-Misses _ 0 (inr high), tt)))
  start-Misses poll low high = (other-Misses _ 0 (inl low), tt)
  start-Misses auto low high = (other-Misses _ 0 (inl low), tt)

module _ (layout : HardwareLayout) (mode : WaitMode) (request : HardwareBatchRequest) where
  -- One of the parameters of a batch, between those that are written before and behind it.
  parameter-byte_at :
      (register value k : ℕ) (before behind : List Write)
      → parameter_writes layout.control request
        ≡ before ++ (write_at layout.control register value ∷ behind)
      → k < 4
      → 4 ≤ register
      → register + 4 ≤ 0x60
      → All (Misses layout.control.path (layout.control.offset + register + k)) behind
      → byte_at
          (batch_writes layout mode request)
          layout.control.path
          (layout.control.offset + register + k)
        ≡ some (byte_of value k)
  parameter-byte_at register value k before behind split lt low high missed =
      let path = layout.control.path in
      let place = layout.control.offset + register + k in
      byte_at-earlier path place (submit_writes layout request) (start_writes layout.control mode)
        (start-Misses layout.control register k lt mode low high)
      ∙ byte_at-later path place (region_writes layout.message request.message) _ _ (
          byte_at-later path place (region_writes layout.job (jobs_bytes request.jobs)) _ _ (
            ap (λ ws. byte_at ws path place) split
            ∙ byte_at-later path place before _ _
                (byte_at-newest layout.control register value k behind lt missed)))

  pub message_len-byte_at :
      (k : ℕ)
      → k < 4
      → byte_at
          (batch_writes layout mode request)
          layout.control.path
          (layout.control.offset + reg_message_len + k)
        ≡ some (byte_of (length request.message % 2 ^ 32) k)
  message_len-byte_at k lt =
      parameter-byte_at reg_message_len (length request.message % 2 ^ 32) k [] _ refl lt
        (omega arith) (omega arith)
        (
          other-Misses layout.control reg_message_len k lt _ 0 (inr (omega arith)),
          (
            other-Misses layout.control reg_message_len k lt _ 0 (inr (omega arith)),
            (other-Misses layout.control reg_message_len k lt _ 0 (inr (omega arith)), tt),
          ),
        )

  pub job_count-byte_at :
      (k : ℕ)
      → k < 4
      → byte_at
          (batch_writes layout mode request)
          layout.control.path
          (layout.control.offset + reg_job_count + k)
        ≡ some (byte_of (length request.jobs % 2 ^ 32) k)
  job_count-byte_at k lt =
      parameter-byte_at reg_job_count (length request.jobs % 2 ^ 32) k (_ ∷ []) _ refl lt
        (omega arith) (omega arith)
        (
          other-Misses layout.control reg_job_count k lt _ 0 (inr (omega arith)),
          (other-Misses layout.control reg_job_count k lt _ 0 (inr (omega arith)), tt),
        )

-- The bytes of a register.
pub register-memory :
    (log : List Write) (path : String) (address value : ℕ)
    → ((k : ℕ) → k < 4 → byte_at log path (address + k) ≡ some (byte_of value k))
    → memory log path address 4 ≡ map some (word_bytes value)
register-memory log path address value all =
    memory_lem log path address (word_bytes value)
      (λ k byte e. let (lt, same) = word_bytes_lem value k byte e in all k lt ∙ same)
