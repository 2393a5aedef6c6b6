-- ===== src/Accelerator/Batch/Ending.antt =====
-- `verify_batch` of accelerator.rs ends, given a clock that does not stand still.
use kv260_sigverify.Prelude.{
  ℕ, suc, ◌+◌, ◌*◌, ◌≤◌, ◌≢◌, List, String, Bool, inl, inr, Outcome, ok, panic, ◌≡◌, arith,
}
use kv260_sigverify.ServiceError.{ServiceError}
use kv260_sigverify.Accelerator.Types.{
  AcceleratorConfig, HardwareBatchRequest, default_poll_interval,
}
use kv260_sigverify.Accelerator.Host.{Host}
use kv260_sigverify.Accelerator.Mmio.{MappedRegion}
use kv260_sigverify.Accelerator.Device.{poll_until_complete}
use kv260_sigverify.Accelerator.Device.Polling.{Clock, Ends, poll_until_complete-Ends}
use kv260_sigverify.Accelerator.Batch.{verify_batch, instant_add}
use kv260_sigverify.Accelerator.Keeps.{Keeps, Any, Comes, Leads}
use kv260_sigverify.Accelerator.Keeps.Invariant.{Invariant}
use kv260_sigverify.Accelerator.Keeps.Device.{IsRequest, poll-Keeps}
use kv260_sigverify.Accelerator.Keeps.Batch.{rest_from, finish-Keeps, verify_batch-Leads}

-- No call turns the clock back, and what `Instant::now` reads is not ahead of it.
pub record Forward (h : Host) (c : Clock h) : Type 0 where
  pub now_ahead : (w : h.World) → (h.now w).0 ≤ c.clock (h.now w).1
  pub page_size_after : (w : h.World) → c.clock w ≤ c.clock (h.page_size w).1
  pub open_file_after :
      (flag : Bool) (path : String) (w : h.World) → c.clock w ≤ c.clock (h.open_file flag path w).1
  pub map_file_after :
      (file : h.File) (offset size : ℕ) (w : h.World)
      → c.clock w ≤ c.clock (h.map_file file offset size w).1
  pub write_after :
      (m : h.Mapping) (start value : ℕ) (w : h.World)
      → c.clock w ≤ c.clock (h.write_volatile m start value w)
  pub exists_after : (path : String) (w : h.World) → c.clock w ≤ c.clock (h.exists path w).1
  pub read_dir_after : (path : String) (w : h.World) → c.clock w ≤ c.clock (h.read_dir path w).1
  pub read_to_string_after :
      (path : String) (w : h.World) → c.clock w ≤ c.clock (h.read_to_string path w).1
  pub write_all_after :
      (file : h.File) (bytes : List ℕ) (w : h.World)
      → c.clock w ≤ c.clock (h.write_all file bytes w).1
  pub poll_in_after :
      (file : h.File) (time : ℕ) (w : h.World) → c.clock w ≤ c.clock (h.poll_in file time w).1
  pub read_exact_after :
      (file : h.File) (count : ℕ) (w : h.World) → c.clock w ≤ c.clock (h.read_exact file count w).1

instant_add_lem :
    (latest time duration : ℕ)
    → time + duration ≤ latest
    → instant_add latest time duration ≡ ok (time + duration)
unfolding instant_add
instant_add_lem latest time duration room = ground arith

-- Worlds where the timeout can be added to what the clock reads, and that only a sleep leads out of: the
-- calls up to the deadline take less time than there is left to the largest `Instant`.
pub record Early (h : Host) (timeout : ℕ) (early : h.World → Type 0) : Type 0 where
  pub room : (w : h.World) → early w → (h.now w).0 + timeout ≤ h.latest
  pub kept : Invariant h early (λ mapping size. Unit)

module _ (h : Host) (c : Clock h) (forward : Forward h c) where
  abbrev LaterThan : ℕ → h.World → Type 0
  LaterThan time w = time ≤ c.clock w

  LaterThan-Invariant : (time : ℕ) → Invariant h (LaterThan time) (λ mapping size. Unit)
  LaterThan-Invariant time = record {
    calls = record {
      page_size_kept = λ w p. omega (arith, p, forward.page_size_after w);
      open_file_kept = λ flag path w p. omega (arith, p, forward.open_file_after flag path w);
      map_file_kept =
          λ file offset size w p. omega (arith, p, forward.map_file_after file offset size w);
      map_file_fits = λ file offset size w m e. tt;
      read_kept = λ m start size w fits inside aligned p. omega (arith, p, c.read_after m start w);
      now_kept = λ w p. omega (arith, p, c.now_after w);
      exists_kept = λ path w p. omega (arith, p, forward.exists_after path w);
      read_dir_kept = λ path w p. omega (arith, p, forward.read_dir_after path w);
      read_to_string_kept = λ path w p. omega (arith, p, forward.read_to_string_after path w);
      write_all_kept = λ file bytes w p. omega (arith, p, forward.write_all_after file bytes w);
      poll_in_kept = λ file duration w p. omega (arith, p, forward.poll_in_after file duration w);
      read_exact_kept = λ file count w p. omega (arith, p, forward.read_exact_after file count w);
    };
    write_kept = λ m start size value w fits inside aligned small p.
        omega (arith, p, forward.write_after m start value w);
  }

  Ends-Comes : (r : Outcome ServiceError ℕ) → Ends r → Comes ⊥ Any r
  Ends-Comes r (inl (word, e, terminal)) = rw e tt
  Ends-Comes r (inr (x, e)) = rw e tt

  polls-Keeps :
      (rounds : ℕ) (control : MappedRegion h.Mapping) (time timeout : ℕ)
      → timeout ≤ default_poll_interval * rounds
      → Keeps ⊥ (LaterThan time) Any (poll_until_complete h (suc rounds) control (time + timeout))
  polls-Keeps rounds control time timeout enough =
      let kept : Keeps Unit (LaterThan time) Any
          (poll_until_complete h (suc rounds) control (time + timeout)) =
        poll-Keeps (LaterThan-Invariant time).calls tt
          (λ w p. omega (arith, p, c.sleep_after default_poll_interval w)) (suc rounds) control
          (time + timeout) tt in
      record {
        keeps = λ w p. (
          (kept.keeps w p).0,
          Ends-Comes _ (
              poll_until_complete-Ends h c rounds control (time + timeout) w
                (omega (arith, p, enough))),
        );
      }

  rest-Leads :
      (early : h.World → Type 0) (rounds : ℕ) (request : HardwareBatchRequest) (mode : _)
      (path : String) (expected : ℕ) (control : MappedRegion h.Mapping)
      → Early h request.timeout early
      → request.timeout ≤ default_poll_interval * rounds
      → Leads ⊥ early (λ w. Unit) Any (rest_from h (suc rounds) request mode path expected control)
  rest-Leads early rounds request mode path expected control before enough = record {
    leads = λ w p.
        let time = (h.now w).0 in
        let finished =
          finish-Keeps (LaterThan-Invariant time) (suc rounds) request mode path expected control
            (time + request.timeout) tt (polls-Keeps rounds control time request.timeout enough) in
        rw (instant_add_lem h.latest time request.timeout (before.room w p))
          (tt, (finished.keeps (h.now w).1 (forward.now_ahead w)).1);
  }

  -- With a clock that no call turns back and that sleeps move on, a first world from which calls other
  -- than `sleep` only lead to worlds where the request's timeout can be added to what the clock reads
  -- without leaving the range of `Instant`, and a bound of one polling round for each ten milliseconds
  -- of the timeout and one more, `verify_batch` gives a result or an error for every configuration and
  -- every request that Rust's types can hold, whatever the device and the system answer: no loop goes
  -- on for ever, no index or slice is out of range and the deadline does not overflow.
  pub verify_batch-ne-panic :
      (early : h.World → Type 0) (rounds : ℕ) (config : AcceleratorConfig)
      (request : HardwareBatchRequest) (w : h.World)
      → IsRequest request
      → Early h request.timeout early
      → early w
      → request.timeout ≤ default_poll_interval * rounds
      → (verify_batch h (suc rounds) config request w).0 ≢ panic
  verify_batch-ne-panic early rounds config request w r before at_first enough e =
      let whole : Leads ⊥ early (λ w2. Unit) Any (verify_batch h (suc rounds) config request) =
        verify_batch-Leads before.kept (suc rounds) (λ w2 p. tt) config request r
          (λ mode path expected control mapped.
            rest-Leads early rounds request mode path expected control before enough) in
      let impossible = (whole.leads w at_first).1 in rw e at impossible
