-- ===== src/Accelerator/Examples.antt =====
-- A device that answers one batch, runs of accelerator.rs on it, and the theorems at it.
use kv260_sigverify.Prelude.{
  ◌^◌, ℕ, suc, ◌≡◌, inl, inr, ◌↔◌, panic, arith, refl, [], ◌∷◌, true, false, some, ok, replicate,
  ◌==◌, if◌then◌else◌, length,
}
use kv260_sigverify.Accelerator.Types.{
  AcceleratorConfig, HardwareBatchRequest, HardwareBatchResult, control_base, message_base,
  job_base, control_size, RegionSpec, poll, strict,
}
use kv260_sigverify.Accelerator.Host.{Host}
use kv260_sigverify.Accelerator.Mmio.{
  open_region, system_page_size, checked_word_start, read_u32, write_u32, write_bytes,
}
use kv260_sigverify.Accelerator.LittleEndian.{full_word, last_word}
use kv260_sigverify.Accelerator.Words.{full_words, tail_word, zero_words, write_bytes_as_u32_words}
use kv260_sigverify.Accelerator.Layout.{
  resolve_region, resolve_layout, wait_mode_for_layout, path_uses_uio, discover_uio_region,
  search_entries, both_exist, read_metadata, parse_u64_auto, parse_text,
}
use kv260_sigverify.Accelerator.Found.{IsResolved, resolve_region-IsResolved}
use text.Mathlib.Text.{◌==◌ as same_text}
use kv260_sigverify.Accelerator.Device.{
  probe_hardware_identity, require_full_hardware, decode_status, poll_until_complete,
  read_mask_words, read_result_mask, read_snapshot, mask_bit, mask_bits_from, mask_bits,
  result_mask_hex,
}
use kv260_sigverify.Prelude.Format.{hex_padded}
use kv260_sigverify.StdText.{
  file_name, path_parts, last_part, trim, trim_start, trim_end, strip_hex_prefix, from_str_radix,
  radix_digits, to_digit,
}
use kv260_sigverify.Accelerator.Device.Mask.{mask_bits-bits_of, bits_of}
use kv260_sigverify.Accelerator.Batch.Results.{IsResult, verify_batch-IsResult}
use kv260_sigverify.Accelerator.SingleFlight.{
  Accelerator, System, Reach, start, later, call, exchange, begin_run, end_run, critical,
  try_acquire,
}
use kv260_sigverify.Accelerator.SingleFlight.Safety.{mutual_exclusion, busy_iff}
use kv260_sigverify.Accelerator.Batch.{
  jobs_bytes, check_request, check_jobs_size, submit, start_and_wait, collect, instant_add,
  run_batch, verify_batch,
}

-- A register's value, by its offset: the device has done batch 42, of one job, which it verified.
abbrev pub register : ℕ → ℕ
register offset =
    if offset == 0x04
    then 2
    else if offset == 0x10
    then 1
    else if offset == 0x64
    then 41
    else if offset == 0x68
    then 42
    else if offset == 0x6c
    then 1
    else if offset == 0x70
    then 1
    else if offset == 0x78
    then 0x200
    else if offset == 0x7c
    then 0x5349_4756
    else if offset == 0x80
    then 0x100
    else 0

abbrev pub ready_host : Host
ready_host = record {
  World = Unit;
  File = Unit;
  Mapping = Unit;
  page_size = λ w. (some 4096, w);
  open_file = λ flag path w. (inr tt, w);
  map_file = λ file offset size w. (inr tt, w);
  read_volatile = λ mapping offset w. (register offset, w);
  write_volatile = λ mapping offset value w. w;
  now = λ w. (0, w);
  sleep = λ time w. w;
  exists = λ path w. (false, w);
  read_dir = λ path w. (inr [], w);
  read_to_string = λ path w. (inl "no file", w);
  write_all = λ file bytes w. (inr tt, w);
  poll_in = λ file time w. (inr 1, w);
  read_exact = λ file count w. (inr (replicate count 0), w);
  debug_text = λ text. text;
  seconds_text = λ time. "0.00";
  latest = 2 ^ 63;
}

abbrev pub mem_config : AcceleratorConfig
mem_config = record {
  control_path = "/dev/mem";
  message_path = "/dev/mem";
  job_path = "/dev/mem";
  control_offset = control_base;
  message_offset = message_base;
  job_offset = job_base;
  wait_mode = poll;
}

abbrev pub one_request : HardwareBatchRequest
one_request = record {
  message = 1 ∷ 2 ∷ 3 ∷ [];
  jobs = record { pubkey = replicate 32 7; signature = replicate 64 9 } ∷ [];
  verify_mode = strict;
  timeout = 5000;
  dispatch_limit = 0;
  job_timeout_cycles = 0;
}

abbrev pub one_result : HardwareBatchResult
one_result = record {
  batch_id = 42;
  accepted_job_count = 1;
  jobs_completed = 1;
  jobs_dropped = 0;
  error = false;
  result_valid = true;
  error_code = 0;
  result_mask_hex = "0000000000000000000000000000000000000000000000000000000000000001";
  result_bits = true ∷ [];
  last_job_cycles = 0;
  last_batch_cycles = 0;
}

pub one_batch : verify_batch ready_host 3 mem_config one_request tt ≡ (ok one_result, tt)
unfolding zero_words full_word last_word full_words tail_word write_bytes_as_u32_words write_bytes
    write_u32 read_u32 checked_word_start open_region system_page_size resolve_region resolve_layout
    wait_mode_for_layout path_uses_uio probe_hardware_identity require_full_hardware decode_status
    poll_until_complete read_mask_words read_result_mask read_snapshot mask_bit mask_bits_from
    mask_bits result_mask_hex jobs_bytes check_request check_jobs_size submit start_and_wait collect
    instant_add run_batch verify_batch file_name path_parts last_part hex_padded
one_batch = refl

verify_batch-IsResult_example :
    IsResult one_result × (length one_result.result_bits ≡ one_result.accepted_job_count)
verify_batch-IsResult_example =
    verify_batch-IsResult ready_host 3 mem_config one_request tt tt one_result one_batch

mask_bits-bits_of_example : mask_bits (5 ∷ replicate 7 0) 3 ≡ ok (bits_of (5 ∷ replicate 7 0) 0 3)
mask_bits-bits_of_example = mask_bits-bits_of (5 ∷ replicate 7 0) 3 (omega arith)

five_bits : mask_bits (5 ∷ replicate 7 0) 3 ≡ ok (true ∷ false ∷ true ∷ [])
unfolding mask_bits mask_bits_from mask_bit
five_bits = refl

-- An accelerator that counts its calls and panics.
abbrev pub counting : Accelerator ℕ
counting = record { verify_batch = λ request n. (panic, suc n); status = λ n. (panic, n) }

-- Two threads call; the first one wins the exchange, the second one is refused, and the first one's
-- call panics.
unfoldable pub two_threads :
    (s : System ℕ) × Reach counting 0 s × (critical (s.pc 0) ≡ true) × (s.busy ≡ true)
unfolding try_acquire
two_threads = (
  _,
  later
      (later
        (later
          (later (later (later start (call 0 one_request refl refl)) (call 1 one_request refl refl))
            (exchange 0 one_request refl refl))
          (exchange 1 one_request refl refl))
        (begin_run 0 one_request refl refl))
      (end_run 0 one_request 0 refl refl),
  refl,
  refl,
)

mutual_exclusion_example : ◌≡◌ {A = ℕ} 0 0
mutual_exclusion_example = mutual_exclusion two_threads.1 0 0 two_threads.2 two_threads.2

busy_iff_example : (two_threads.0.busy ≡ true) ↔ ((i : ℕ) × (critical (two_threads.0.pc i) ≡ true))
busy_iff_example = busy_iff two_threads.1

-- A system with one UIO device, of 64 KiB at the control region's address.
abbrev uio_host : Host
uio_host = record ready_host {
  exists = λ path w. (true, w);
  read_dir = λ path w. (inr (inr "uio4" ∷ []), w);
  read_to_string = λ path w. (
    inr (if same_text path "/sys/class/uio/uio4/maps/map0/addr" then "0xa0000000\n" else "65536\n"),
    w,
  );
}

abbrev uio_region : RegionSpec
uio_region = record { path = "/dev/uio4"; offset = 0; size = control_size }

uio_found : resolve_region uio_host "auto" control_base control_size tt ≡ (ok uio_region, tt)
unfolding resolve_region discover_uio_region search_entries both_exist read_metadata parse_u64_auto
    parse_text trim trim_start trim_end strip_hex_prefix from_str_radix radix_digits to_digit
uio_found = refl

resolve_region-IsResolved_example :
    IsResolved uio_host "auto" control_base control_size uio_region
    × (uio_region.size ≡ control_size)
resolve_region-IsResolved_example =
    resolve_region-IsResolved uio_host "auto" control_base control_size tt tt uio_region uio_found
