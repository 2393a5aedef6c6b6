-- ===== src/Accelerator/Audit/Runs.antt =====
-- The watched host of accelerator.rs keeps its flag up as long as the accesses stay in their mappings.
use kv260_sigverify.Prelude.{ℕ, ◌+◌, ◌%◌, ◌^◌, ◌≤◌, ◌≡◌, refl, true, lt→ltb, arith}
use kv260_sigverify.Accelerator.Types.{AcceleratorConfig, HardwareBatchRequest}
use kv260_sigverify.Accelerator.Host.{Host, act, lift}
use kv260_sigverify.Accelerator.Batch.{verify_batch, instant_add}
use kv260_sigverify.Accelerator.Keeps.{
  Leads, Keeps-Leads, Any, act-Keeps, lift-Keeps, Any-outcome, then-Keeps,
}
use kv260_sigverify.Accelerator.Keeps.Invariant.{Invariant}
use kv260_sigverify.Accelerator.Keeps.Device.{IsRequest, poll-Keeps}
use kv260_sigverify.Accelerator.Keeps.Batch.{finish-Keeps, verify_batch-Leads}
use kv260_sigverify.Accelerator.Watch.{labelled_lem}
use kv260_sigverify.Accelerator.Mirrors.Batch.{verify_batch-Mirrors}
use kv260_sigverify.Accelerator.Mirrors.Outcomes.{Mirrors-outcome}
use kv260_sigverify.Accelerator.Audit.Watching.{audited_watching}
use kv260_sigverify.Accelerator.Audit.{audited, in_mapping}

in_mapping_lem : (start size : ℕ) → start + 4 ≤ size → start % 4 ≡ 0 → in_mapping start size ≡ true
in_mapping_lem start size inside aligned = ground arith

audited-Invariant :
    (h : Host) → Invariant (audited h) (λ w. w.1 ≡ true) (λ mapping size. mapping.1 ≡ size)
audited-Invariant h = record {
  calls = record {
    page_size_kept = λ w up. up;
    open_file_kept = λ flag path w up. up;
    map_file_kept = λ file offset size w up. up;
    map_file_fits =
        λ file offset size w m e. labelled_lem size (h.map_file file offset size w.0).0 m e;
    read_kept = λ m start size w fits inside aligned up.
        rw (up, fits, in_mapping_lem start size inside aligned) refl;
    now_kept = λ w up. up;
    exists_kept = λ path w up. up;
    read_dir_kept = λ path w up. up;
    read_to_string_kept = λ path w up. up;
    write_all_kept = λ file bytes w up. up;
    poll_in_kept = λ file time w up. up;
    read_exact_kept = λ file count w up. up;
  };
  write_kept = λ m start size value w fits inside aligned small up.
      rw (up, fits, in_mapping_lem start size inside aligned, lt→ltb value (2 ^ 32) small) refl;
}

-- For every operating system and device, every configuration, every bound on the polling and every
-- request that Rust's types can hold, each volatile access that `verify_batch` makes lies, with its
-- four bytes, inside the mapping that it goes through, at an offset that is a multiple of four, and
-- each value that it writes is a `u32`; and the host that watches the accesses does not change what the
-- batch comes to.
pub verify_batch-audited :
    (h : Host) (fuel : ℕ) (config : AcceleratorConfig) (request : HardwareBatchRequest)
    (w : h.World)
    → IsRequest request
    → ((verify_batch (audited h) fuel config request (w, true)).1.1 ≡ true)
      × ((verify_batch (audited h) fuel config request (w, true)).0
          ≡ (verify_batch h fuel config request w).0)
verify_batch-audited h fuel config request w r =
    let inv = audited-Invariant h in
    let safe : Leads Unit (λ x. x.1 ≡ true) (λ x. x.1 ≡ true) Any
        (verify_batch (audited h) fuel config request) =
      verify_batch-Leads inv fuel (λ x up. up) config request r
        (λ mode path expected control c. Keeps-Leads (
          then-Keeps Any (act (audited h).now) _ (act-Keeps (audited h).now inv.calls.now_kept)
            (λ time.
              then-Keeps Any (lift (instant_add h.latest time request.timeout)) _
                (lift-Keeps Any (instant_add h.latest time request.timeout) (Any-outcome _))
                (λ deadline.
                  finish-Keeps inv fuel request mode path expected control deadline c
                    (poll-Keeps inv.calls tt (λ w up. up) fuel control _ c))))) in
    (
      (safe.leads (w, true) refl).0,
      Mirrors-outcome (λ x. x.0) _ (verify_batch h fuel config request) (w, true)
          (verify_batch-Mirrors (audited_watching h) fuel config request),
    )
