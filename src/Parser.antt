-- ===== src/Parser.antt =====
-- tools/kv260_sigv_daemon/src/parser.rs: the parser of serialized Solana transactions.
pub mod Types
pub mod Compact
pub mod Reader
pub mod Place
pub mod Grammar
pub mod Skips
pub mod Instructions
pub mod Arrays
pub mod Message
pub mod Transaction
pub mod Examples
mod CountExamples
mod UnitTests
