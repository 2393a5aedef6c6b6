-- ===== src/Accelerator/Audit/Watching.antt =====
-- The host that watches the accesses of accelerator.rs watches another host.
use kv260_sigverify.Prelude.{refl, ap}
use kv260_sigverify.Accelerator.Host.{Host}
use kv260_sigverify.Accelerator.Mirrors.Watching.{Watching}
use kv260_sigverify.Accelerator.Mirrors.Outcomes.{onto-labelled, onto-id}
use kv260_sigverify.Accelerator.Audit.{audited}

abbrev pub audited_watching : (h : Host) → Watching (audited h) h
audited_watching h = record {
  strip = λ w. w.0;
  file = λ f. f;
  mapping = λ m. m.0;
  page_size_eq = λ w. refl;
  open_file_eq = λ flag path w.
      ap (λ r. (r, (h.open_file flag path w.0).1)) (onto-id (h.open_file flag path w.0).0);
  map_file_eq = λ f offset size w.
      ap (λ r. (r, (h.map_file f offset size w.0).1))
        (onto-labelled size (h.map_file f offset size w.0).0);
  read_eq = λ m start w. refl;
  write_eq = λ m start value w. refl;
  now_eq = λ w. refl;
  sleep_eq = λ time w. refl;
  exists_eq = λ path w. refl;
  read_dir_eq = λ path w. ap (λ r. (r, (h.read_dir path w.0).1)) (onto-id (h.read_dir path w.0).0);
  read_to_string_eq = λ path w.
      ap (λ r. (r, (h.read_to_string path w.0).1)) (onto-id (h.read_to_string path w.0).0);
  write_all_eq =
      λ f bytes w. ap (λ r. (r, (h.write_all f bytes w.0).1)) (onto-id (h.write_all f bytes w.0).0);
  poll_in_eq =
      λ f time w. ap (λ r. (r, (h.poll_in f time w.0).1)) (onto-id (h.poll_in f time w.0).0);
  read_exact_eq = λ f count w.
      ap (λ r. (r, (h.read_exact f count w.0).1)) (onto-id (h.read_exact f count w.0).0);
  debug_text_eq = λ text. refl;
  seconds_text_eq = λ time. refl;
  latest_eq = refl;
}
