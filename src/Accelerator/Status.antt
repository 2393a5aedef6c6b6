-- ===== src/Accelerator/Status.antt =====
-- `MappedAccelerator::status` of accelerator.rs, which reports every failure as a status.
pub mod Reported
pub mod Quiet
use kv260_sigverify.Prelude.{
  ℕ, String, true, false, ◌&&◌, none, some, Outcome, ok, err, panic, ◌==◌, if◌then◌else◌,
}
use kv260_sigverify.Prelude.Format.{◌⧺◌, decimal}
use kv260_sigverify.ServiceError.{ServiceError}
use kv260_sigverify.Accelerator.Types.{
  AcceleratorConfig, AcceleratorStatus, HardwareIdentity, HardwareLayout, reg_batch_id,
  hw_mode_full, hw_api_version,
}
use kv260_sigverify.Accelerator.Host.{Host, M, pure, ◌>>=◌}
use kv260_sigverify.Accelerator.Mmio.{open_region, read_u32}
use kv260_sigverify.Accelerator.Layout.{resolve_layout}
use kv260_sigverify.Accelerator.Device.{probe_hardware_identity, hw_mode_name}

-- The status with nothing known of the hardware but why.
unfoldable pub unready : String → String → String → String → AcceleratorStatus
unready control_path message_path job_path message = record {
  ready = false;
  fpga_loaded = false;
  control_path = control_path;
  message_path = message_path;
  job_path = job_path;
  last_seen_batch_id = none;
  hardware_mode = none;
  hardware_api_version = none;
  detail = some message;
}

unfoldable pub loaded : HardwareLayout → HardwareIdentity → ℕ → AcceleratorStatus
loaded layout identity batch_id =
    let full_ready = identity.mode == hw_mode_full && identity.api_version == hw_api_version in
    record {
      ready = full_ready;
      fpga_loaded = true;
      control_path = layout.control.path;
      message_path = layout.message.path;
      job_path = layout.job.path;
      last_seen_batch_id = some batch_id;
      hardware_mode = some (hw_mode_name identity.mode);
      hardware_api_version = some identity.api_version;
      detail =
          if full_ready
          then none
          else some (
              "loaded hardware mode/api is "
              ⧺ hw_mode_name identity.mode
              ⧺ "/"
              ⧺ decimal identity.api_version
              ⧺ "; expected full/"
              ⧺ decimal hw_api_version);
    }

module _ (h : Host) where
  open h use {World}

  unfoldable pub read_identity : HardwareLayout → M World (HardwareIdentity × ℕ)
  read_identity layout = do
    control ← open_region h layout.control
    identity ← probe_hardware_identity h control
    batch_id ← read_u32 h control reg_batch_id
    pure (identity, batch_id)

  status_of :
      HardwareLayout
      → Outcome ServiceError (HardwareIdentity × ℕ)
      → Outcome ServiceError AcceleratorStatus
  status_of layout (ok (identity, batch_id)) = ok (loaded layout identity batch_id)
  status_of layout (err e) =
      ok (unready layout.control.path layout.message.path layout.job.path e.message)
  status_of layout panic = panic

  probe_layout :
      AcceleratorConfig
      → Outcome ServiceError HardwareLayout × World
      → Outcome ServiceError AcceleratorStatus × World
  unfolding status_of
  probe_layout config (ok layout, w) = let r = read_identity layout w in (status_of layout r.0, r.1)
  probe_layout config (err e, w) =
      (ok (unready config.control_path config.message_path config.job_path e.message), w)
  probe_layout config (panic, w) = (panic, w)

  unfoldable pub status : AcceleratorConfig → M World AcceleratorStatus
  unfolding probe_layout
  status config w = probe_layout config (resolve_layout h config w)
