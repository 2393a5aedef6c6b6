-- ===== src/Accelerator/Keeps/Invariant.antt =====
-- What the operating system and the device do to an invariant of their world: no call of accelerator.rs
-- breaks it, a volatile access as long as it is aligned and inside its mapping.
use kv260_sigverify.Prelude.{ℕ, ◌+◌, ◌%◌, ◌^◌, ◌<◌, ◌≤◌, ◌≡◌, List, String, Bool, inr}
use kv260_sigverify.Accelerator.Host.{Host}

-- Every call but a write and a sleep: `Fits m size` says that the mapping `m` has `size` bytes.
pub record Undisturbed (h : Host) (P : h.World → Type 0) (Fits : h.Mapping → ℕ → Type 0)
    : Type 0 where
  pub page_size_kept : (w : h.World) → P w → P (h.page_size w).1
  pub open_file_kept :
      (flag : Bool) (path : String) (w : h.World) → P w → P (h.open_file flag path w).1
  pub map_file_kept :
      (file : h.File) (offset size : ℕ) (w : h.World) → P w → P (h.map_file file offset size w).1
  pub map_file_fits :
      (file : h.File) (offset size : ℕ) (w : h.World) (m : h.Mapping)
      → (h.map_file file offset size w).0 ≡ inr m
      → Fits m size
  pub read_kept :
      (m : h.Mapping) (start size : ℕ) (w : h.World)
      → Fits m size
      → start + 4 ≤ size
      → start % 4 ≡ 0
      → P w
      → P (h.read_volatile m start w).1
  pub now_kept : (w : h.World) → P w → P (h.now w).1
  pub exists_kept : (path : String) (w : h.World) → P w → P (h.exists path w).1
  pub read_dir_kept : (path : String) (w : h.World) → P w → P (h.read_dir path w).1
  pub read_to_string_kept : (path : String) (w : h.World) → P w → P (h.read_to_string path w).1
  pub write_all_kept :
      (file : h.File) (bytes : List ℕ) (w : h.World) → P w → P (h.write_all file bytes w).1
  pub poll_in_kept : (file : h.File) (time : ℕ) (w : h.World) → P w → P (h.poll_in file time w).1
  pub read_exact_kept :
      (file : h.File) (count : ℕ) (w : h.World) → P w → P (h.read_exact file count w).1

pub record Invariant (h : Host) (P : h.World → Type 0) (Fits : h.Mapping → ℕ → Type 0)
    : Type 0 where
  pub calls : Undisturbed h P Fits
  pub write_kept :
      (m : h.Mapping) (start size value : ℕ) (w : h.World)
      → Fits m size
      → start + 4 ≤ size
      → start % 4 ≡ 0
      → value < 2 ^ 32
      → P w
      → P (h.write_volatile m start value w)
