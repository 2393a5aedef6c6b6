-- ===== src/Main.antt =====
-- tools/kv260_sigv_daemon/src/main.rs: the command line and the server loop.
pub mod Args
pub mod Router
pub mod Serve
mod Example
