-- ===== src/Accelerator/Trace/Watching.antt =====
-- The host that writes down the writes of accelerator.rs watches another host.
use kv260_sigverify.Prelude.{ℕ, ◌≡◌, refl, ap, List}
use kv260_sigverify.Accelerator.Types.{AcceleratorConfig, HardwareBatchRequest}
use kv260_sigverify.Accelerator.Layout.{resolve_layout}
use kv260_sigverify.Accelerator.Batch.{verify_batch}
use kv260_sigverify.Accelerator.Mirrors.Searches.{resolve_layout-Mirrors}
use kv260_sigverify.Accelerator.Mirrors.Batch.{verify_batch-Mirrors}
use kv260_sigverify.Accelerator.Host.{Host}
use kv260_sigverify.Accelerator.Mirrors.Watching.{Watching}
use kv260_sigverify.Accelerator.Mirrors.Outcomes.{Mirrors-outcome, onto-labelled, onto-id}
use kv260_sigverify.Accelerator.Trace.{Write, traced}

abbrev pub traced_watching : (h : Host) → Watching (traced h) h
traced_watching h = record {
  strip = λ w. w.0;
  file = λ f. f.0;
  mapping = λ m. m.0;
  page_size_eq = λ w. refl;
  open_file_eq = λ flag path w.
      ap (λ r. (r, (h.open_file flag path w.0).1))
        (onto-labelled path (h.open_file flag path w.0).0);
  map_file_eq = λ f offset size w.
      ap (λ r. (r, (h.map_file f.0 offset size w.0).1))
        (onto-labelled (f.1, offset) (h.map_file f.0 offset size w.0).0);
  read_eq = λ m start w. refl;
  write_eq = λ m start value w. refl;
  now_eq = λ w. refl;
  sleep_eq = λ time w. refl;
  exists_eq = λ path w. refl;
  read_dir_eq = λ path w. ap (λ r. (r, (h.read_dir path w.0).1)) (onto-id (h.read_dir path w.0).0);
  read_to_string_eq = λ path w.
      ap (λ r. (r, (h.read_to_string path w.0).1)) (onto-id (h.read_to_string path w.0).0);
  write_all_eq = λ f bytes w.
      ap (λ r. (r, (h.write_all f.0 bytes w.0).1)) (onto-id (h.write_all f.0 bytes w.0).0);
  poll_in_eq =
      λ f time w. ap (λ r. (r, (h.poll_in f.0 time w.0).1)) (onto-id (h.poll_in f.0 time w.0).0);
  read_exact_eq = λ f count w.
      ap (λ r. (r, (h.read_exact f.0 count w.0).1)) (onto-id (h.read_exact f.0 count w.0).0);
  debug_text_eq = λ text. refl;
  seconds_text_eq = λ time. refl;
  latest_eq = refl;
}

module _ (h : Host) where
  pub same_layout :
      (config : AcceleratorConfig) (w : h.World) (log : List Write)
      → (resolve_layout (traced h) config (w, log)).0 ≡ (resolve_layout h config w).0
  same_layout config w log =
      Mirrors-outcome (λ x. x.0) _ (resolve_layout h config) (w, log)
        (resolve_layout-Mirrors (traced_watching h) config)

  pub same_result :
      (fuel : ℕ) (config : AcceleratorConfig) (request : HardwareBatchRequest) (w : h.World)
      (log : List Write)
      → (verify_batch (traced h) fuel config request (w, log)).0
        ≡ (verify_batch h fuel config request w).0
  same_result fuel config request w log =
      Mirrors-outcome (λ x. x.0) _ (verify_batch h fuel config request) (w, log)
        (verify_batch-Mirrors (traced_watching h) fuel config request)
