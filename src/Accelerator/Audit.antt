-- ===== src/Accelerator/Audit.antt =====
-- A host that watches the accesses of accelerator.rs: it does what another host does, and keeps a flag
-- that goes down at the first access outside a mapping, at an offset that is no multiple of four, or
-- of a value that is no `u32`.
pub mod Watching
pub mod Runs
mod Example
use kv260_sigverify.Prelude.{ℕ, ◌+◌, ◌%◌, ◌^◌, Bool, ◌&&◌, leb, ltb, ◌==◌}
use kv260_sigverify.Accelerator.Host.{Host}
use kv260_sigverify.Accelerator.Watch.{watch, labelled}

-- A word at this offset lies in a mapping of this length.
abbrev pub in_mapping : ℕ → ℕ → Bool
in_mapping start size = leb (start + 4) size && start % 4 == 0

abbrev pub audited : Host → Host
audited h = record {
  World = h.World × Bool;
  File = h.File;
  Mapping = h.Mapping × ℕ;
  page_size = watch h.page_size;
  open_file = λ flag path. watch (h.open_file flag path);
  map_file = λ file offset size w.
      let r = h.map_file file offset size w.0 in (labelled size r.0, (r.1, w.1));
  read_volatile = λ m start w.
      let r = h.read_volatile m.0 start w.0 in (r.0, (r.1, w.1 && in_mapping start m.1));
  write_volatile = λ m start value w.
      (h.write_volatile m.0 start value w.0, w.1 && in_mapping start m.1 && ltb value (2 ^ 32));
  now = watch h.now;
  sleep = λ time w. (h.sleep time w.0, w.1);
  exists = λ path. watch (h.exists path);
  read_dir = λ path. watch (h.read_dir path);
  read_to_string = λ path. watch (h.read_to_string path);
  write_all = λ file bytes. watch (h.write_all file bytes);
  poll_in = λ file time. watch (h.poll_in file time);
  read_exact = λ file count. watch (h.read_exact file count);
  debug_text = h.debug_text;
  seconds_text = h.seconds_text;
  latest = h.latest;
}
