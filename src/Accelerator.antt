-- ===== src/Accelerator.antt =====
-- tools/kv260_sigv_daemon/src/accelerator.rs: the memory-mapped accelerator.
pub mod Bind
pub mod Post
pub mod Examples
mod Waiting
mod UnitTests
pub mod Types
pub mod Host
pub mod LittleEndian
pub mod Words
pub mod Mmio
pub mod Layout
pub mod Found
pub mod Device
pub mod Keeps
pub mod Watch
pub mod Mirrors
pub mod Audit
pub mod Trace
pub mod Batch
pub mod Status
pub mod SingleFlight
pub mod Mapped
