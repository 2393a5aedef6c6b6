-- ===== src/Accelerator/Status/Reported.antt =====
-- `MappedAccelerator::status` of accelerator.rs never gives an error.
use kv260_sigverify.Prelude.{◌≡◌, refl, ◌⊎◌, inl, inr, Outcome, ok, err, panic}
use kv260_sigverify.ServiceError.{ServiceError}
use kv260_sigverify.Accelerator.Types.{AcceleratorConfig, AcceleratorStatus, HardwareLayout}
use kv260_sigverify.Accelerator.Host.{Host}
use kv260_sigverify.Accelerator.Layout.{resolve_layout}
use kv260_sigverify.Accelerator.Status.{status, status_of, probe_layout, read_identity}

-- A status or a panic.
abbrev pub IsReported : Outcome ServiceError AcceleratorStatus → Type 0
IsReported r = ((s : AcceleratorStatus) × (r ≡ ok s)) ⊎ (r ≡ panic)

module _ (h : Host) where
  status_of-IsReported : (layout : HardwareLayout) (r : _) → IsReported (status_of h layout r)
  unfolding status_of
  status_of-IsReported layout (ok (identity, batch_id)) = inl (_, refl)
  status_of-IsReported layout (err e) = inl (_, refl)
  status_of-IsReported layout panic = inr refl

  probe_layout-IsReported :
      (config : AcceleratorConfig) (r : Outcome ServiceError HardwareLayout × h.World)
      → IsReported (probe_layout h config r).0
  unfolding probe_layout
  probe_layout-IsReported config (ok layout, w) =
      status_of-IsReported layout (read_identity h layout w).0
  probe_layout-IsReported config (err e, w) = inl (_, refl)
  probe_layout-IsReported config (panic, w) = inr refl

  pub status-IsReported :
      (config : AcceleratorConfig) (w : h.World) → IsReported (status h config w).0
  unfolding status
  status-IsReported config w = probe_layout-IsReported config (resolve_layout h config w)
