-- ===== src/Accelerator/Mapped.antt =====
-- `MappedAccelerator` of accelerator.rs as an accelerator.
use kv260_sigverify.Prelude.{ℕ}
use kv260_sigverify.Accelerator.Types.{AcceleratorConfig}
use kv260_sigverify.Accelerator.Host.{Host}
use kv260_sigverify.Accelerator.Batch.{verify_batch}
use kv260_sigverify.Accelerator.Status.{status}
use kv260_sigverify.Accelerator.SingleFlight.{Accelerator}

unfoldable pub mapped_accelerator : (h : Host) → ℕ → AcceleratorConfig → Accelerator h.World
mapped_accelerator h fuel config = record {
  verify_batch = verify_batch h fuel config;
  status = status h config;
}
