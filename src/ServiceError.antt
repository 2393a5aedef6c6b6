-- ===== src/ServiceError.antt =====
-- tools/kv260_sigv_daemon/src/error.rs: the service's error values. The functions below are the
-- associated functions of `ServiceError`, one for each kind.
pub mod Kind
pub use Kind.{ErrorKind}
unfoldable pub use Kind.{as_str}
use kv260_sigverify.Prelude.{String}

pub record ServiceError : Type 0 where
  pub kind : ErrorKind
  pub code : String
  pub message : String

abbrev new : ErrorKind → String → String → ServiceError
new kind code message = record { kind = kind; code = code; message = message }

abbrev pub parse : String → String → ServiceError
parse code message = new ErrorKind.parse code message

abbrev pub invalid_request : String → String → ServiceError
invalid_request code message = new ErrorKind.invalid_request code message

abbrev pub limit : String → String → ServiceError
limit code message = new ErrorKind.limit code message

abbrev pub accelerator : String → String → ServiceError
accelerator code message = new ErrorKind.accelerator code message

abbrev pub timeout : String → String → ServiceError
timeout code message = new ErrorKind.timeout code message

abbrev pub unavailable : String → String → ServiceError
unavailable code message = new ErrorKind.unavailable code message
