-- ===== src/Api.antt =====
-- tools/kv260_sigv_daemon/src/api.rs: the HTTP interface.
pub mod Examples
mod AnswerExamples
mod UnitTests
mod BatchExamples
pub mod Types
pub mod Build
pub mod Handlers
pub mod Requests
pub mod Jobs
pub mod BadRequest
pub mod Success
pub mod Verified
pub mod VerifiedBatch
pub mod Panics
pub mod Answers
pub mod Statuses
