-- ===== src/ServiceError/Kind.antt =====
-- `ErrorKind` of tools/kv260_sigv_daemon/src/error.rs.
use kv260_sigverify.Prelude.{String}

pub data ErrorKind : Type 0 where
  parse invalid_request limit accelerator timeout unavailable : ErrorKind

-- `ErrorKind::as_str`
unfoldable pub as_str : ErrorKind → String
as_str parse = "parse_error"
as_str invalid_request = "invalid_request"
as_str limit = "limit_error"
as_str accelerator = "accelerator_error"
as_str timeout = "service_timeout"
as_str unavailable = "service_unavailable"
