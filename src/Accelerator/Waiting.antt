-- ===== src/Accelerator/Waiting.antt =====
-- A device of accelerator.rs that never gets done, a clock for it, and the theorems on the loops at it.
use kv260_sigverify.Prelude.{
  ◌≡◌, refl, ◌^◌, ℕ, ◌+◌, ◌≢◌, inl, inr, [], ◌∷◌, some, ok, panic, replicate, arith, false,
}
use kv260_sigverify.Accelerator.Host.{Host}
use kv260_sigverify.Accelerator.Mmio.{MappedRegion}
use kv260_sigverify.Accelerator.Words.{write_bytes_as_u32_words}
use kv260_sigverify.Accelerator.Words.Ends.{write_bytes_as_u32_words-ne-panic}
use kv260_sigverify.Accelerator.Batch.{verify_batch}
use kv260_sigverify.Accelerator.Batch.Ending.{Forward, Early, verify_batch-ne-panic}
use kv260_sigverify.Accelerator.Examples.{mem_config, one_request}
use kv260_sigverify.Accelerator.Device.{poll_until_complete}
use kv260_sigverify.Accelerator.Device.Polling.{Clock, Ends, poll_until_complete-Ends}

-- The world is the time.
abbrev stuck_host : Host
stuck_host = record {
  World = ℕ;
  File = Unit;
  Mapping = Unit;
  page_size = λ w. (some 4096, w);
  open_file = λ flag path w. (inr tt, w);
  map_file = λ file offset size w. (inr tt, w);
  read_volatile = λ mapping offset w. (0, w);
  write_volatile = λ mapping offset value w. w;
  now = λ w. (w, w);
  sleep = λ time w. w + time;
  exists = λ path w. (false, w);
  read_dir = λ path w. (inr [], w);
  read_to_string = λ path w. (inl "no file", w);
  write_all = λ file bytes w. (inr tt, w);
  poll_in = λ file time w. (inr 0, w);
  read_exact = λ file count w. (inr (replicate count 0), w);
  debug_text = λ text. text;
  seconds_text = λ time. "0.00";
  latest = 2 ^ 63;
}

stuck_clock : Clock stuck_host
stuck_clock = record {
  clock = λ w. w;
  now_reads = λ w. omega arith;
  now_after = λ w. omega arith;
  read_after = λ m a w. omega arith;
  sleep_after = λ d w. omega arith;
}

abbrev control : MappedRegion Unit
control = record { mapping = tt; delta = 0; size = 0x1000 }

poll_until_complete-Ends_example : Ends (poll_until_complete stuck_host 3 control 15 0).0
unfolding stuck_clock
poll_until_complete-Ends_example =
    poll_until_complete-Ends stuck_host stuck_clock 2 control 15 0 (omega arith)

-- A writer that counts the words.
write_bytes_as_u32_words-ne-panic_example :
    (write_bytes_as_u32_words (λ offset value w. (ok tt, w + 1)) (1 ∷ 2 ∷ 3 ∷ []) 8 0).0 ≢ panic
write_bytes_as_u32_words-ne-panic_example =
    write_bytes_as_u32_words-ne-panic (λ offset value w. (ok tt, w + 1)) (λ offset value w e. cc)
      (1 ∷ 2 ∷ 3 ∷ []) 8 0

stuck-Forward : Forward stuck_host stuck_clock
unfolding stuck_clock
stuck-Forward = record {
  now_ahead = λ w. omega arith;
  page_size_after = λ w. omega arith;
  open_file_after = λ flag path w. omega arith;
  map_file_after = λ file offset size w. omega arith;
  write_after = λ m start value w. omega arith;
  exists_after = λ path w. omega arith;
  read_dir_after = λ path w. omega arith;
  read_to_string_after = λ path w. omega arith;
  write_all_after = λ file bytes w. omega arith;
  poll_in_after = λ file time w. omega arith;
  read_exact_after = λ file count w. omega arith;
}

-- Only a sleep moves the clock of this host.
stuck-Early : Early stuck_host 5000 (λ w. w ≡ 0)
stuck-Early = record {
  room = λ w p. omega (arith, p);
  kept = record {
    calls = record {
      page_size_kept = λ w p. p;
      open_file_kept = λ flag path w p. p;
      map_file_kept = λ file offset size w p. p;
      map_file_fits = λ file offset size w m e. tt;
      read_kept = λ m start size w fits inside aligned p. p;
      now_kept = λ w p. p;
      exists_kept = λ path w p. p;
      read_dir_kept = λ path w p. p;
      read_to_string_kept = λ path w p. p;
      write_all_kept = λ file bytes w p. p;
      poll_in_kept = λ file time w p. p;
      read_exact_kept = λ file count w p. p;
    };
    write_kept = λ m start size value w fits inside aligned small p. p;
  };
}

verify_batch-ne-panic_example : (verify_batch stuck_host 501 mem_config one_request 0).0 ≢ panic
verify_batch-ne-panic_example =
    verify_batch-ne-panic stuck_host stuck_clock stuck-Forward (λ w. w ≡ 0) 500 mem_config
      one_request 0
      (record {
        message_bytes = omega arith;
        job_bytes = omega arith;
        small_limit = omega arith;
        small_cycles = omega arith;
      })
      stuck-Early refl (omega arith)
