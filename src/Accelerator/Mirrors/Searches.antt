-- ===== src/Accelerator/Mirrors/Searches.antt =====
-- The search for the regions and the interrupt of accelerator.rs does the same on a watching host.
use kv260_sigverify.Prelude.{
  ◌≡◌, Bool, ℕ, List, [], ◌∷◌, String, false, ◌&&◌, Option, none, some, ◌⊎◌, inl, inr, leb, ◌==◌,
  Bool-cases, ap, map_err, if◌then◌else◌,
}
use kv260_sigverify.Prelude.Format.{◌⧺◌}
use kv260_sigverify.ServiceError
use text.Mathlib.Text.{◌==◌ as same_text}
use kv260_sigverify.Accelerator.Types.{
  control_size, message_size, job_size, AcceleratorConfig, RegionSpec,
}
use kv260_sigverify.Accelerator.Host.{Host, M, pure, act, or_fail, ◌>>=◌}
use kv260_sigverify.Accelerator.Mmio.{open_interrupt, arm, wait}
use kv260_sigverify.Accelerator.Layout.{
  resolve_layout, resolve_region, discover_uio_region, search_entries, both_exist, read_metadata,
  parse_u64_auto, parse_text,
}
use kv260_sigverify.StdText.{trim}
use kv260_sigverify.Accelerator.Mirrors.{
  Mirrors, id, pure-Mirrors, fail-Mirrors, lift-Mirrors, act-Mirrors, or_fail-Mirrors, bind-Mirrors,
  if-Mirrors,
}
use kv260_sigverify.Accelerator.Mirrors.Watching.{Watching}

-- What `discover_uio_region` does once it knows whether the directory is there.
abbrev enumerated : (h : Host) → ℕ → ℕ → Bool → M h.World (Option RegionSpec)
enumerated h target_addr requested_size present =
    if present
    then or_fail
        (λ error.
          ServiceError.unavailable "enumerate_uio_failed"
            ("failed to enumerate /sys/class/uio: " ⧺ error))
        (h.read_dir "/sys/class/uio")
      >>= (λ entries. search_entries h target_addr requested_size entries)
    else pure none

module _ {g h : Host} (v : Watching g h) where
  parse_u64_auto_eq : (raw : String) → parse_u64_auto g raw ≡ parse_u64_auto h raw
  unfolding parse_u64_auto
  parse_u64_auto_eq raw =
      ap
        (λ shown.
          map_err
            (λ error.
              ServiceError.unavailable "parse_numeric_metadata_failed"
                ("failed to parse numeric metadata value " ⧺ shown ⧺ ": " ⧺ error))
            (parse_text (trim raw)))
        (v.debug_text_eq (trim raw))

  both_exist-Mirrors : (a b : String) → Mirrors v.strip id (both_exist g a b) (both_exist h a b)
  unfolding both_exist
  both_exist-Mirrors a b =
      bind-Mirrors id id (act (g.exists a)) (act (h.exists a)) _ _
        (act-Mirrors (g.exists a) (h.exists a) (v.exists_eq a))
        (λ first.
          if-Mirrors id first _ _ _ _ (act-Mirrors (g.exists b) (h.exists b) (v.exists_eq b))
            (pure-Mirrors id false))

  read_metadata-Mirrors :
      (path : String) → Mirrors v.strip id (read_metadata g path) (read_metadata h path)
  unfolding read_metadata
  read_metadata-Mirrors path =
      bind-Mirrors id id (or_fail _ (g.read_to_string path)) (or_fail _ (h.read_to_string path)) _ _
        (or_fail-Mirrors id _ (g.read_to_string path) (h.read_to_string path)
          (v.read_to_string_eq path))
        (λ raw. rw (parse_u64_auto_eq raw) (lift-Mirrors (parse_u64_auto h raw)))

  search_entries-Mirrors :
      (target_addr requested_size : ℕ) (entries : List (String ⊎ String))
      → Mirrors v.strip id
          (search_entries g target_addr requested_size entries)
          (search_entries h target_addr requested_size entries)
  unfolding search_entries
  search_entries-Mirrors target_addr requested_size [] = pure-Mirrors id none
  search_entries-Mirrors target_addr requested_size (inl error ∷ entries) = fail-Mirrors id _
  search_entries-Mirrors target_addr requested_size (inr name ∷ entries) =
      let next = search_entries-Mirrors target_addr requested_size entries in
      bind-Mirrors id id (both_exist g _ _) (both_exist h _ _) _ _ (both_exist-Mirrors _ _)
        (λ present. elim (Bool-cases present) [
          | inr absent ↦ rw absent next
          | inl there ↦ rw there (
              bind-Mirrors id id (read_metadata g _) (read_metadata h _) _ _
                (read_metadata-Mirrors _)
                (λ region_addr.
                  bind-Mirrors id id (read_metadata g _) (read_metadata h _) _ _
                    (read_metadata-Mirrors _)
                    (λ region_size.
                      elim (Bool-cases
                        (region_addr == target_addr && leb requested_size region_size)) [
                          | inl fits ↦ rw fits (pure-Mirrors id _)
                          | inr other ↦ rw other next
                        ])))
        ])

  discover_uio_region-Mirrors :
      (target_addr requested_size : ℕ)
      → Mirrors v.strip id
          (discover_uio_region g target_addr requested_size)
          (discover_uio_region h target_addr requested_size)
  unfolding discover_uio_region
  discover_uio_region-Mirrors target_addr requested_size =
      bind-Mirrors id id (act (g.exists "/sys/class/uio")) (act (h.exists "/sys/class/uio"))
        (enumerated g target_addr requested_size) (enumerated h target_addr requested_size)
        (act-Mirrors (g.exists _) (h.exists _) (v.exists_eq "/sys/class/uio"))
        (λ present.
          if-Mirrors id present _ _ _ _
            (bind-Mirrors id id (or_fail _ (g.read_dir _)) (or_fail _ (h.read_dir _)) _ _
              (or_fail-Mirrors id _ (g.read_dir _) (h.read_dir _) (v.read_dir_eq "/sys/class/uio"))
              (λ entries. search_entries-Mirrors target_addr requested_size entries))
            (pure-Mirrors id none))

  found_or_mem :
      (offset size : ℕ) (found : Option RegionSpec)
      → Mirrors {A = RegionSpec} v.strip id
          (elim found [
            | some spec ↦ pure spec
            | none ↦ pure (record { path = "/dev/mem"; offset = offset; size = size })
          ])
          (elim found [
            | some spec ↦ pure spec
            | none ↦ pure (record { path = "/dev/mem"; offset = offset; size = size })
          ])
  found_or_mem offset size (some spec) = pure-Mirrors id spec
  found_or_mem offset size none = pure-Mirrors id _

  resolve_region-Mirrors :
      (path_value : String) (offset size : ℕ)
      → Mirrors v.strip id
          (resolve_region g path_value offset size)
          (resolve_region h path_value offset size)
  unfolding resolve_region
  resolve_region-Mirrors path_value offset size =
      if-Mirrors id (same_text path_value "auto") _ _ _ _
        (bind-Mirrors id id (discover_uio_region g offset size) (discover_uio_region h offset size)
          _ _ (discover_uio_region-Mirrors offset size) (λ found. found_or_mem offset size found))
        (pure-Mirrors id _)

  pub resolve_layout-Mirrors :
      (config : AcceleratorConfig)
      → Mirrors v.strip id (resolve_layout g config) (resolve_layout h config)
  unfolding resolve_layout
  resolve_layout-Mirrors config =
      bind-Mirrors id id _ _ _ _
        (resolve_region-Mirrors config.control_path config.control_offset control_size)
        (λ control.
          bind-Mirrors id id _ _ _ _
            (resolve_region-Mirrors config.message_path config.message_offset message_size)
            (λ message.
              bind-Mirrors id id _ _ _ _
                (resolve_region-Mirrors config.job_path config.job_offset job_size)
                (λ job. pure-Mirrors id _)))

  pub open_interrupt-Mirrors :
      (path : String) → Mirrors v.strip v.file (open_interrupt g path) (open_interrupt h path)
  unfolding open_interrupt
  open_interrupt-Mirrors path =
      or_fail-Mirrors v.file _ (g.open_file false path) (h.open_file false path)
        (v.open_file_eq false path)

  pub arm-Mirrors : (f : g.File) → Mirrors v.strip id (arm g f) (arm h (v.file f))
  unfolding arm
  arm-Mirrors f =
      or_fail-Mirrors id _ (g.write_all f _) (h.write_all (v.file f) _) (v.write_all_eq f _)

  pub wait-Mirrors :
      (f : g.File) (timeout : ℕ) → Mirrors v.strip id (wait g f timeout) (wait h (v.file f) timeout)
  unfolding wait
  wait-Mirrors f timeout = rw (v.seconds_text_eq timeout) (
      bind-Mirrors id id (or_fail _ (g.poll_in f _)) (or_fail _ (h.poll_in (v.file f) _)) _ _
        (or_fail-Mirrors id _ (g.poll_in f _) (h.poll_in (v.file f) _) (v.poll_in_eq f _))
        (λ ready. if-Mirrors id (ready == 0) _ _ _ _ (fail-Mirrors id _) (
          bind-Mirrors id id (or_fail _ (g.read_exact f 4)) (or_fail _ (h.read_exact (v.file f) 4))
            _ _
            (or_fail-Mirrors id _ (g.read_exact f 4) (h.read_exact (v.file f) 4)
              (v.read_exact_eq f 4))
            (λ count. pure-Mirrors id _))))
