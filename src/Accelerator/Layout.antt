-- ===== src/Accelerator/Layout.antt =====
-- Where the regions lie and how completion is awaited: `resolve_layout`, `resolve_region`,
-- `discover_uio_region`, `wait_mode_for_layout` of accelerator.rs.
use kv260_sigverify.Prelude.{
  ℕ, List, [], ◌∷◌, String, Bool, true, false, ◌&&◌, Option, none, some, ◌⊎◌, inl, inr, Outcome, ok,
  err, map_err, leb, ◌==◌, if◌then◌else◌,
}
use kv260_sigverify.Prelude.Format.{◌⧺◌}
use text.Mathlib.Text.{starts_with, ◌==◌ as same_text}
use kv260_sigverify.StdText.{trim, strip_hex_prefix, from_str_radix, file_name}
use kv260_sigverify.ServiceError
use kv260_sigverify.ServiceError.{ServiceError}
use kv260_sigverify.Accelerator.Types.{
  AcceleratorConfig, RegionSpec, HardwareLayout, WaitMode, auto, irq, poll, control_size,
  message_size, job_size,
}
use kv260_sigverify.Accelerator.Host.{Host, M, pure, fail, lift, act, or_fail, ◌>>=◌}

unfoldable pub path_uses_uio : String → Bool
unfolding file_name
path_uses_uio path = elim (file_name path) [ none ↦ false | some name ↦ starts_with name "uio" ]

-- `parse_u64_auto` of the UIO metadata, before its error is wrapped
unfoldable pub parse_text : String → Outcome String ℕ
parse_text text = elim (strip_hex_prefix text) [
  | some stripped ↦ from_str_radix 16 stripped
  | none ↦ from_str_radix 10 text
]

unfoldable pub wait_mode_for_layout : WaitMode → String → Outcome ServiceError WaitMode
wait_mode_for_layout auto control_path = ok poll
wait_mode_for_layout irq control_path =
    if path_uses_uio control_path
    then ok irq
    else err (
        ServiceError.unavailable "irq_requires_uio"
          "interrupt-driven wait requires the control region to be mapped through /dev/uio")
wait_mode_for_layout poll control_path = ok poll

module _ (h : Host) where
  open h use {World}

  unfoldable pub parse_u64_auto : String → Outcome ServiceError ℕ
  unfolding parse_text
  parse_u64_auto raw =
      map_err
        (λ error.
          ServiceError.unavailable "parse_numeric_metadata_failed"
            ("failed to parse numeric metadata value " ⧺ h.debug_text (trim raw) ⧺ ": " ⧺ error))
        (parse_text (trim raw))

  -- A file of a UIO entry, read and parsed.
  unfoldable pub read_metadata : String → M World ℕ
  unfolding parse_u64_auto
  read_metadata path = do
    raw ←
        or_fail
          (λ error.
            ServiceError.unavailable "read_uio_metadata_failed"
              ("failed to read " ⧺ path ⧺ ": " ⧺ error))
          (h.read_to_string path)
    lift (parse_u64_auto raw)

  -- `addr_path.exists() && size_path.exists()`, which asks for the second only after the first
  unfoldable pub both_exist : String → String → M World Bool
  both_exist a b = do first ← act (h.exists a); if first then act (h.exists b) else pure false

  -- The loop over the entries of the directory.
  unfoldable pub search_entries : ℕ → ℕ → List (String ⊎ String) → M World (Option RegionSpec)
  search_entries target_addr requested_size [] = pure none
  search_entries target_addr requested_size (inl error ∷ entries) =
      fail (ServiceError.unavailable "enumerate_uio_failed" ("failed to read UIO entry: " ⧺ error))
  search_entries target_addr requested_size (inr name ∷ entries) = do
    let addr_path = "/sys/class/uio/" ⧺ name ⧺ "/maps/map0/addr"
    let size_path = "/sys/class/uio/" ⧺ name ⧺ "/maps/map0/size"
    present ← both_exist addr_path size_path
    elim present [
      | false ↦ search_entries target_addr requested_size entries
      | true ↦ (do
        region_addr ← read_metadata addr_path
        region_size ← read_metadata size_path
        elim (region_addr == target_addr && leb requested_size region_size) [
          | true ↦ pure (some (record { path = "/dev/" ⧺ name; offset = 0; size = requested_size }))
          | false ↦ search_entries target_addr requested_size entries
        ])
    ]

  unfoldable pub discover_uio_region : ℕ → ℕ → M World (Option RegionSpec)
  unfolding search_entries
  discover_uio_region target_addr requested_size = do
    present ← act (h.exists "/sys/class/uio")
    if present
        then (do
          entries ←
              or_fail
                (λ error.
                  ServiceError.unavailable "enumerate_uio_failed"
                    ("failed to enumerate /sys/class/uio: " ⧺ error))
                (h.read_dir "/sys/class/uio")
          search_entries target_addr requested_size entries)
        else pure none

  unfoldable pub resolve_region : String → ℕ → ℕ → M World RegionSpec
  resolve_region path_value offset size =
      if same_text path_value "auto"
      then (do
        found ← discover_uio_region offset size
        elim found [
          | some spec ↦ pure spec
          | none ↦ pure (record { path = "/dev/mem"; offset = offset; size = size })
        ])
      else pure (record {
        path = path_value;
        offset = if path_uses_uio path_value then 0 else offset;
        size = size;
      })

  unfoldable pub resolve_layout : AcceleratorConfig → M World HardwareLayout
  resolve_layout config = do
    control ← resolve_region config.control_path config.control_offset control_size
    message ← resolve_region config.message_path config.message_offset message_size
    job ← resolve_region config.job_path config.job_offset job_size
    pure (record { control = control; message = message; job = job })
