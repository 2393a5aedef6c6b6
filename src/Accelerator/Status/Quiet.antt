-- ===== src/Accelerator/Status/Quiet.antt =====
-- `MappedAccelerator::status` of accelerator.rs reads, and does not write.
use kv260_sigverify.Prelude.{ℕ, ◌≡◌, refl, List, inl, inr, Outcome, ok, err, panic}
use kv260_sigverify.ServiceError.{ServiceError}
use kv260_sigverify.Accelerator.Types.{
  AcceleratorConfig, AcceleratorStatus, HardwareIdentity, HardwareLayout,
}
use kv260_sigverify.Accelerator.Host.{Host}
use kv260_sigverify.Accelerator.Keeps.{Comes, Any, Keeps, pure-Keeps, bind-Keeps, then-Keeps}
use kv260_sigverify.Accelerator.Keeps.Invariant.{Undisturbed, Invariant}
use kv260_sigverify.Accelerator.Keeps.Searches.{resolve_layout-Keeps}
use kv260_sigverify.Accelerator.Keeps.Regions.{IsMapped, read_u32-Keeps, open_region-Keeps}
use kv260_sigverify.Accelerator.Keeps.Device.{probe-Keeps}
use kv260_sigverify.Accelerator.Layout.{resolve_layout}
use kv260_sigverify.Accelerator.Status.{status, status_of, probe_layout, read_identity}
use kv260_sigverify.Accelerator.Status.Reported.{IsReported, status-IsReported}
use kv260_sigverify.Accelerator.Trace.{Write, traced}
use kv260_sigverify.Accelerator.Trace.Regions.{traced-Undisturbed}

any-Invariant : (h : Host) → Invariant h (λ w. Unit) (λ mapping size. Unit)
any-Invariant h = record {
  calls = record {
    page_size_kept = λ w p. tt;
    open_file_kept = λ flag path w p. tt;
    map_file_kept = λ file offset size w p. tt;
    map_file_fits = λ file offset size w m e. tt;
    read_kept = λ m start size w fits inside aligned p. tt;
    now_kept = λ w p. tt;
    exists_kept = λ path w p. tt;
    read_dir_kept = λ path w p. tt;
    read_to_string_kept = λ path w p. tt;
    write_all_kept = λ file bytes w p. tt;
    poll_in_kept = λ file time w p. tt;
    read_exact_kept = λ file count w p. tt;
  };
  write_kept = λ m start size value w fits inside aligned small p. tt;
}

status_of-Comes :
    (R : Type 0) (h : Host) (layout : HardwareLayout)
    (r : Outcome ServiceError (HardwareIdentity × ℕ))
    → Comes R Any r
    → Comes R Any (status_of h layout r)
unfolding status_of
status_of-Comes R h layout (ok (identity, batch_id)) comes = tt
status_of-Comes R h layout (err e) comes = tt
status_of-Comes R h layout panic comes = comes

module _ {R : Type 0} {h : Host} {P : h.World → Type 0} {Fits : h.Mapping → ℕ → Type 0}
    (inv : Undisturbed h P Fits) where
  read_identity-Keeps : (layout : HardwareLayout) → Keeps R P Any (read_identity h layout)
  unfolding read_identity
  read_identity-Keeps layout =
      bind-Keeps (IsMapped Fits) Any _ _ (open_region-Keeps inv layout.control) (λ control c.
        then-Keeps Any _ _ (probe-Keeps inv control c) (λ identity.
          then-Keeps Any _ _ (read_u32-Keeps inv control _ c) (λ batch_id. pure-Keeps Any _ tt)))

  -- No call of `status` is a write.
  pub status-Keeps : (config : AcceleratorConfig) → Keeps R P Any (status h config)
  unfolding status probe_layout
  status-Keeps config = record {
    keeps = λ w p. go (resolve_layout h config w) ((resolve_layout-Keeps inv config).keeps w p);
  }
    where
      go :
          (r : Outcome ServiceError HardwareLayout × h.World)
          → P r.1 × Comes R Any r.0
          → P (probe_layout h config r).1 × Comes R Any (probe_layout h config r).0
      go (ok layout, w) (p, comes) =
          let read = (read_identity-Keeps layout).keeps w p in
          (read.0, status_of-Comes R h layout (read_identity h layout w).0 read.1)
      go (err e, w) (p, comes) = (p, tt)
      go (panic, w) (p, comes) = (p, comes)

-- The status of a device and a system that answer at all.
pub status-eq-ok :
    (h : Host) (config : AcceleratorConfig) (w : h.World)
    → (s : AcceleratorStatus) × ((status h config w).0 ≡ ok s)
status-eq-ok h config w =
    let calm : Keeps ⊥ (λ w. Unit) Any (status h config) =
      status-Keeps (any-Invariant h).calls config in
    go (status h config w).0 (status-IsReported h config w) (calm.keeps w tt).1
  where
    go :
        (r : Outcome ServiceError AcceleratorStatus)
        → IsReported r
        → Comes ⊥ Any r
        → (s : AcceleratorStatus) × (r ≡ ok s)
    go r (inl reported) comes = reported
    go r (inr panics) comes = absurd (rw panics at comes)

pub status_quiet :
    (h : Host) (config : AcceleratorConfig) (w : h.World) (log : List Write)
    → (status (traced h) config (w, log)).1.1 ≡ log
status_quiet h config w log =
    let kept : Keeps Unit (λ x. x.1 ≡ log) Any (status (traced h) config) =
      status-Keeps (traced-Undisturbed h log) config in
    (kept.keeps (w, log) refl).0
