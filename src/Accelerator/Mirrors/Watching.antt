-- ===== src/Accelerator/Mirrors/Watching.antt =====
-- A host of accelerator.rs that does what another one does, with something beside its world, its files
-- and its mappings.
use kv260_sigverify.Prelude.{ℕ, ◌≡◌, List, String, Bool}
use kv260_sigverify.Accelerator.Host.{Host}
use kv260_sigverify.Accelerator.Mirrors.{onto, id}

pub record Watching (g h : Host) : Type 0 where
  pub strip : g.World → h.World
  pub file : g.File → h.File
  pub mapping : g.Mapping → h.Mapping
  pub page_size_eq :
      (w : g.World) → ((g.page_size w).0, strip (g.page_size w).1) ≡ h.page_size (strip w)
  pub open_file_eq :
      (flag : Bool) (path : String) (w : g.World)
      → (onto file (g.open_file flag path w).0, strip (g.open_file flag path w).1)
        ≡ h.open_file flag path (strip w)
  pub map_file_eq :
      (f : g.File) (offset size : ℕ) (w : g.World)
      → (onto mapping (g.map_file f offset size w).0, strip (g.map_file f offset size w).1)
        ≡ h.map_file (file f) offset size (strip w)
  pub read_eq :
      (m : g.Mapping) (start : ℕ) (w : g.World)
      → ((g.read_volatile m start w).0, strip (g.read_volatile m start w).1)
        ≡ h.read_volatile (mapping m) start (strip w)
  pub write_eq :
      (m : g.Mapping) (start value : ℕ) (w : g.World)
      → strip (g.write_volatile m start value w)
        ≡ h.write_volatile (mapping m) start value (strip w)
  pub now_eq : (w : g.World) → ((g.now w).0, strip (g.now w).1) ≡ h.now (strip w)
  pub sleep_eq : (time : ℕ) (w : g.World) → strip (g.sleep time w) ≡ h.sleep time (strip w)
  pub exists_eq :
      (path : String) (w : g.World)
      → ((g.exists path w).0, strip (g.exists path w).1) ≡ h.exists path (strip w)
  pub read_dir_eq :
      (path : String) (w : g.World)
      → (onto id (g.read_dir path w).0, strip (g.read_dir path w).1) ≡ h.read_dir path (strip w)
  pub read_to_string_eq :
      (path : String) (w : g.World)
      → (onto id (g.read_to_string path w).0, strip (g.read_to_string path w).1)
        ≡ h.read_to_string path (strip w)
  pub write_all_eq :
      (f : g.File) (bytes : List ℕ) (w : g.World)
      → (onto id (g.write_all f bytes w).0, strip (g.write_all f bytes w).1)
        ≡ h.write_all (file f) bytes (strip w)
  pub poll_in_eq :
      (f : g.File) (time : ℕ) (w : g.World)
      → (onto id (g.poll_in f time w).0, strip (g.poll_in f time w).1)
        ≡ h.poll_in (file f) time (strip w)
  pub read_exact_eq :
      (f : g.File) (count : ℕ) (w : g.World)
      → (onto id (g.read_exact f count w).0, strip (g.read_exact f count w).1)
        ≡ h.read_exact (file f) count (strip w)
  pub debug_text_eq : (text : String) → g.debug_text text ≡ h.debug_text text
  pub seconds_text_eq : (time : ℕ) → g.seconds_text time ≡ h.seconds_text time
  pub latest_eq : g.latest ≡ h.latest
