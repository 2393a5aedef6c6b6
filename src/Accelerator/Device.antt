-- ===== src/Accelerator/Device.antt =====
-- The registers of the device: its identity, its status, its results (accelerator.rs).
pub mod Mask
pub mod Polling
use kv260_sigverify.Prelude.{
  ℕ, zero, suc, ◌+◌, ◌*◌, ◌/◌, ◌%◌, ◌^◌, List, [], ◌∷◌, String, Bool, true, false, ◌||◌, not,
  Outcome, ok, err, panic, bit_and, ltb, leb, ◌==◌, if◌then◌else◌, get_elem?, Option, none, some,
}
use mathlib.Core.List.{foldr}
use kv260_sigverify.Prelude.Format.{◌⧺◌, decimal, hex_padded}
use kv260_sigverify.Parser.Reader.{index}
use kv260_sigverify.ServiceError
use kv260_sigverify.ServiceError.{ServiceError}
use kv260_sigverify.Accelerator.Types.{
  HardwareIdentity, StatusBits, SnapshotStatus, reg_hw_magic, reg_hw_build, hw_magic, hw_mode_full,
  hw_mode_bringup, hw_api_version, reg_status, reg_result_mask_base, reg_snapshot_batch_id,
  reg_snapshot_accepted, reg_snapshot_completed, reg_snapshot_dropped, reg_snapshot_err_status,
  default_poll_interval,
}
use kv260_sigverify.Accelerator.Host.{Host, M, pure, fail, lift, act, act_unit, ◌>>=◌, ◌>>◌}
use kv260_sigverify.Accelerator.Mmio.{MappedRegion, read_u32}

unfoldable pub hw_mode_name : ℕ → String
hw_mode_name mode =
    if mode == hw_mode_full
    then "full"
    else if mode == hw_mode_bringup
    then "bringup"
    else "unknown"

unfoldable pub require_full_hardware : HardwareIdentity → Outcome ServiceError (Unit {0})
require_full_hardware identity =
    if identity.mode == hw_mode_full
    then (if identity.api_version == hw_api_version
        then ok tt
        else err (
            ServiceError.unavailable "hardware_api_mismatch" (
              "loaded hardware API is "
              ⧺ decimal identity.api_version
              ⧺ "; expected "
              ⧺ decimal hw_api_version)))
    else err (
        ServiceError.unavailable "hardware_mode_mismatch"
          ("loaded hardware mode is " ⧺ hw_mode_name identity.mode ⧺ "; expected full"))

unfoldable pub decode_status : ℕ → StatusBits
decode_status word = record {
  is_done = not (bit_and word 0x2 == 0);
  is_error = not (bit_and word 0x4 == 0);
}

-- Words from the last to the first, eight hexadecimal digits each.
unfoldable pub result_mask_hex : List ℕ → String
result_mask_hex [] = ""
result_mask_hex (word ∷ words) = result_mask_hex words ⧺ hex_padded 8 word

-- The closure of `mask_bits` at one bit; `words[bit / 32]` panics out of range.
unfoldable pub mask_bit : List ℕ → ℕ → Outcome ServiceError Bool
mask_bit words bit = elim (get_elem? words (bit / 32)) [
  | none ↦ panic
  | some word ↦ ok (not (bit_and (word / 2 ^ (bit % 32)) 0x1 == 0))
]

-- The bits from `bit` on, so many of them.
unfoldable pub mask_bits_from : List ℕ → ℕ → ℕ → Outcome ServiceError (List Bool)
mask_bits_from words bit zero = ok []
mask_bits_from words bit (suc count) = elim (mask_bit words bit) [
  | ok value ↦ elim (mask_bits_from words (bit + 1) count) [
    | ok values ↦ ok (value ∷ values)
    | err e ↦ err e
    | panic ↦ panic
  ]
  | err e ↦ err e
  | panic ↦ panic
]

unfoldable pub mask_bits : List ℕ → ℕ → Outcome ServiceError (List Bool)
unfolding mask_bits_from
mask_bits words job_count = mask_bits_from words 0 job_count

module _ (h : Host) where
  open h use {World, Mapping}

  unfoldable pub probe_hardware_identity : MappedRegion Mapping → M World HardwareIdentity
  probe_hardware_identity control = do
    magic ← read_u32 h control reg_hw_magic
    if magic == hw_magic
        then (do
          build ← read_u32 h control reg_hw_build
          pure (record { mode = bit_and build 0xff; api_version = bit_and (build / 2 ^ 8) 0xff }))
        else fail (
            ServiceError.unavailable "hardware_magic_mismatch" (
              "unexpected hardware magic 0x"
              ⧺ hex_padded 8 magic
              ⧺ "; expected 0x"
              ⧺ hex_padded 8 hw_magic))

  -- The loop, with a bound on its rounds, past which the result would be a panic.
  unfoldable pub poll_until_complete : ℕ → MappedRegion Mapping → ℕ → M World ℕ
  poll_until_complete zero control deadline = lift panic
  poll_until_complete (suc fuel) control deadline = do
    status_word ← read_u32 h control reg_status
    let status = decode_status status_word
    elim (status.is_done || status.is_error) [
      | true ↦ pure status_word
      | false ↦ (do
        time ← act h.now
        elim (leb deadline time) [
          | true ↦ fail (
              ServiceError.timeout "completion_timeout"
                "timed out waiting for accelerator completion")
          | false ↦
              act_unit (h.sleep default_poll_interval) >> poll_until_complete fuel control deadline
        ])
    ]

  -- The words of the result mask from `word` on, so many of them.
  unfoldable pub read_mask_words : MappedRegion Mapping → ℕ → ℕ → M World (List ℕ)
  read_mask_words control word zero = pure []
  read_mask_words control word (suc count) = do
    value ← read_u32 h control (reg_result_mask_base + word * 4)
    values ← read_mask_words control (word + 1) count
    pure (value ∷ values)

  unfoldable pub read_result_mask : MappedRegion Mapping → M World (List ℕ)
  unfolding read_mask_words
  read_result_mask control = read_mask_words control 0 8

  unfoldable pub read_snapshot : MappedRegion Mapping → M World SnapshotStatus
  read_snapshot control = do
    err_status ← read_u32 h control reg_snapshot_err_status
    batch_id ← read_u32 h control reg_snapshot_batch_id
    accepted ← read_u32 h control reg_snapshot_accepted
    completed ← read_u32 h control reg_snapshot_completed
    dropped ← read_u32 h control reg_snapshot_dropped
    pure (record {
      batch_id = batch_id;
      accepted_job_count = bit_and accepted 0xff;
      jobs_completed = completed;
      jobs_dropped = dropped;
      error = not (bit_and (err_status / 2 ^ 8) 0x1 == 0);
      result_valid = not (bit_and (err_status / 2 ^ 9) 0x1 == 0);
      error_code = bit_and err_status 0xff;
    })
