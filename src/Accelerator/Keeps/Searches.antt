-- ===== src/Accelerator/Keeps/Searches.antt =====
-- The search for the regions and the interrupt of accelerator.rs keeps an invariant of the world.
use kv260_sigverify.Prelude.{
  ◌≡◌, ◌≢◌, refl, Outcome, ok, err, panic, map_err, ℕ, List, [], ◌∷◌, String, false, ◌&&◌, Option,
  none, some, ◌⊎◌, inl, inr, leb, ◌==◌, if◌then◌else◌, Bool-cases,
}
use kv260_sigverify.Prelude.Format.{◌⧺◌}
use kv260_sigverify.ServiceError
use kv260_sigverify.ServiceError.{ServiceError}
use text.Mathlib.Text.{◌==◌ as same_text}
use kv260_sigverify.Accelerator.Types.{
  control_size, message_size, job_size, AcceleratorConfig, RegionSpec,
}
use kv260_sigverify.Accelerator.Host.{Host, pure, act, or_fail, ◌>>=◌}
use kv260_sigverify.Accelerator.Mmio.{open_interrupt, arm, wait}
use kv260_sigverify.Accelerator.Layout.{
  resolve_layout, resolve_region, discover_uio_region, search_entries, both_exist, read_metadata,
  parse_u64_auto, parse_text,
}
use kv260_sigverify.StdText.{trim, strip_hex_prefix}
use kv260_sigverify.StdText.Numbers.{from_str_radix-ne-panic}
use kv260_sigverify.Accelerator.Keeps.{
  Any, Keeps, pure-Keeps, fail-Keeps, act-Keeps, or_fail-Keeps, if-Keeps, lifted, then-Keeps,
}
use kv260_sigverify.Accelerator.Keeps.Invariant.{Undisturbed}

parse_text-ne-panic : (raw : String) → parse_text raw ≢ panic
unfolding parse_text
parse_text-ne-panic raw = go (strip_hex_prefix raw) refl
  where
    go : (o : Option String) → strip_hex_prefix raw ≡ o → parse_text raw ≢ panic
    go none s e = from_str_radix-ne-panic 10 raw (rw (s, parse_text) at e)
    go (some text) s e = from_str_radix-ne-panic 16 text (rw (s, parse_text) at e)

map_err-ne-panic : {E F A : Type 0} (f : E → F) (m : Outcome E A) → m ≢ panic → map_err f m ≢ panic
map_err-ne-panic f (ok a) calm e = cc
map_err-ne-panic f (err x) calm e = cc
map_err-ne-panic f panic calm e = calm refl

parse_u64_auto-ne-panic : (h : Host) (raw : String) → parse_u64_auto h raw ≢ panic
unfolding parse_u64_auto
parse_u64_auto-ne-panic h raw =
    map_err-ne-panic _ (parse_text (trim raw)) (parse_text-ne-panic (trim raw))

module _ {R : Type 0} {h : Host} {P : h.World → Type 0} {Fits : h.Mapping → ℕ → Type 0}
    (inv : Undisturbed h P Fits) where
  both_exist-Keeps : (a b : String) → Keeps R P Any (both_exist h a b)
  unfolding both_exist
  both_exist-Keeps a b =
      then-Keeps Any (act (h.exists a)) _ (act-Keeps (h.exists a) (inv.exists_kept a)) (λ first.
        if-Keeps Any first _ _ (λ e. act-Keeps (h.exists b) (inv.exists_kept b))
          (λ e. pure-Keeps Any false tt))

  read_metadata-Keeps : (path : String) → Keeps R P Any (read_metadata h path)
  unfolding read_metadata
  read_metadata-Keeps path =
      then-Keeps Any (or_fail _ (h.read_to_string path)) _
        (or_fail-Keeps Any _ (h.read_to_string path) (inv.read_to_string_kept path) (λ w a e. tt))
        (λ raw. lifted (parse_u64_auto h raw) (parse_u64_auto-ne-panic h raw))

  search_entries-Keeps :
      (target_addr requested_size : ℕ) (entries : List (String ⊎ String))
      → Keeps R P Any (search_entries h target_addr requested_size entries)
  unfolding search_entries
  search_entries-Keeps target_addr requested_size [] = pure-Keeps Any none tt
  search_entries-Keeps target_addr requested_size (inl error ∷ entries) = fail-Keeps Any _
  search_entries-Keeps target_addr requested_size (inr name ∷ entries) =
      let next = search_entries-Keeps target_addr requested_size entries in
      then-Keeps Any (both_exist h _ _) _ (both_exist-Keeps _ _) (λ present.
        elim (Bool-cases present) [
          | inr absent ↦ rw absent next
          | inl there ↦ rw there (
              then-Keeps Any (read_metadata h _) _ (read_metadata-Keeps _) (λ region_addr.
                then-Keeps Any (read_metadata h _) _ (read_metadata-Keeps _) (λ region_size.
                  elim (Bool-cases (region_addr == target_addr && leb requested_size region_size)) [
                    | inl fits ↦ rw fits (pure-Keeps Any _ tt)
                    | inr other ↦ rw other next
                  ])))
        ])

  discover_uio_region-Keeps :
      (target_addr requested_size : ℕ)
      → Keeps R P Any (discover_uio_region h target_addr requested_size)
  unfolding discover_uio_region
  discover_uio_region-Keeps target_addr requested_size =
      then-Keeps Any (act (h.exists "/sys/class/uio"))
        (λ present.
          if present
          then or_fail
              (λ error.
                ServiceError.unavailable "enumerate_uio_failed"
                  ("failed to enumerate /sys/class/uio: " ⧺ error))
              (h.read_dir "/sys/class/uio")
            >>= (λ entries. search_entries h target_addr requested_size entries)
          else pure none)
        (act-Keeps (h.exists "/sys/class/uio") (inv.exists_kept "/sys/class/uio"))
        (λ present. elim (Bool-cases present) [
          | inl there ↦ rw there (
              then-Keeps Any (or_fail _ (h.read_dir _)) _
                (or_fail-Keeps Any _ (h.read_dir "/sys/class/uio")
                  (inv.read_dir_kept "/sys/class/uio") (λ w a e. tt))
                (λ entries. search_entries-Keeps target_addr requested_size entries))
          | inr absent ↦ rw absent (pure-Keeps Any none tt)
        ])

  found_or_mem :
      (offset size : ℕ) (found : Option RegionSpec)
      → Keeps {A = RegionSpec} R P Any (elim found [
        | some spec ↦ pure spec
        | none ↦ pure (record { path = "/dev/mem"; offset = offset; size = size })
      ])
  found_or_mem offset size (some spec) = pure-Keeps Any spec tt
  found_or_mem offset size none = pure-Keeps Any _ tt

  resolve_region-Keeps :
      (path_value : String) (offset size : ℕ)
      → Keeps R P Any (resolve_region h path_value offset size)
  unfolding resolve_region
  resolve_region-Keeps path_value offset size =
      if-Keeps Any (same_text path_value "auto") _ _
        (λ e.
          then-Keeps Any (discover_uio_region h offset size) _
            (discover_uio_region-Keeps offset size) (λ found. found_or_mem offset size found))
        (λ e. pure-Keeps Any _ tt)

  pub resolve_layout-Keeps : (config : AcceleratorConfig) → Keeps R P Any (resolve_layout h config)
  unfolding resolve_layout
  resolve_layout-Keeps config =
      then-Keeps Any _ _
        (resolve_region-Keeps config.control_path config.control_offset control_size)
        (λ control.
          then-Keeps Any _ _
            (resolve_region-Keeps config.message_path config.message_offset message_size)
            (λ message.
              then-Keeps Any _ _ (resolve_region-Keeps config.job_path config.job_offset job_size)
                (λ job. pure-Keeps Any _ tt)))

  pub open_interrupt-Keeps : (path : String) → Keeps R P Any (open_interrupt h path)
  unfolding open_interrupt
  open_interrupt-Keeps path =
      or_fail-Keeps Any _ (h.open_file false path) (inv.open_file_kept false path) (λ w a e. tt)

  pub arm-Keeps : (file : h.File) → Keeps R P Any (arm h file)
  unfolding arm
  arm-Keeps file =
      or_fail-Keeps Any _ (h.write_all file _) (inv.write_all_kept file _) (λ w a e. tt)

  pub wait-Keeps : (file : h.File) (timeout : ℕ) → Keeps R P Any (wait h file timeout)
  unfolding wait
  wait-Keeps file timeout =
      then-Keeps Any (or_fail _ (h.poll_in file _)) _
        (or_fail-Keeps Any _ (h.poll_in file _) (inv.poll_in_kept file _) (λ w a e. tt))
        (λ ready.
          if-Keeps Any (ready == 0) _ _ (λ e. fail-Keeps Any _)
            (λ e.
              then-Keeps Any (or_fail _ (h.read_exact file 4)) _
                (or_fail-Keeps Any _ (h.read_exact file 4) (inv.read_exact_kept file 4)
                  (λ w a e. tt))
                (λ count. pure-Keeps Any _ tt)))
