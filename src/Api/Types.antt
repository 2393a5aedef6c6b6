-- ===== src/Api/Types.antt =====
-- The requests and responses of api.rs, and what it takes from other crates.
use kv260_sigverify.Prelude.{ℕ, List, Bool, String, Option, ◌⊎◌}
use kv260_sigverify.Accelerator.Types.{VerifyMode, HardwareBatchRequest}

pub data PayloadEncoding : Type 0 where
  base64 hex : PayloadEncoding

pub record EncodedPayload : Type 0 where
  pub encoding : PayloadEncoding
  pub data_text : String

pub record VerifyTransactionRequest : Type 0 where
  pub transaction : EncodedPayload
  pub verify_mode : VerifyMode
  pub timeout_ms : ℕ
  pub dispatch_limit : ℕ
  pub job_timeout_cycles : ℕ
  pub include_parse_summary : Bool

abbrev pub default_timeout_ms : ℕ
default_timeout_ms = 5000

pub record BatchJobRequest : Type 0 where
  pub pubkey : String
  pub signature : String

pub record VerifyBatchRequest : Type 0 where
  pub message : EncodedPayload
  pub jobs : List BatchJobRequest
  pub verify_mode : VerifyMode
  pub timeout_ms : ℕ
  pub dispatch_limit : ℕ
  pub job_timeout_cycles : ℕ

pub record ParsedSummary : Type 0 where
  pub message_version : String
  pub message_length : ℕ
  pub num_required_signatures : ℕ

pub record VerificationSummary : Type 0 where
  pub verify_mode : String
  pub verified : Bool
  pub all_signers_verified : Bool
  pub result_bits : List Bool
  pub result_mask_hex : String

pub record HardwareSummary : Type 0 where
  pub batch_id : ℕ
  pub accepted_job_count : ℕ
  pub jobs_completed : ℕ
  pub jobs_dropped : ℕ
  pub error : Bool
  pub error_code : String
  pub last_job_cycles : ℕ
  pub last_batch_cycles : ℕ

pub record VerifySuccessResponse : Type 0 where
  pub is_ok : Bool
  pub request_id : String
  pub parsed : Option ParsedSummary
  pub verification : VerificationSummary
  pub hardware : HardwareSummary

pub record StatusResponse : Type 0 where
  pub is_ok : Bool
  pub ready : Bool
  pub fpga_loaded : Bool
  pub control_path : String
  pub message_path : String
  pub job_path : String
  pub last_seen_batch_id : Option ℕ
  pub hardware_mode : Option String
  pub hardware_api_version : Option ℕ
  pub detail : Option String

pub record ErrorBody : Type 0 where
  pub error_type : String
  pub code : String
  pub message : String

pub record ErrorEnvelope : Type 0 where
  pub is_ok : Bool
  pub request_id : String
  pub error : ErrorBody

-- A response's body, before it is written as JSON.
pub data Body : Type 0 where
  success_body : VerifySuccessResponse → Body
  status_body : StatusResponse → Body
  error_body : ErrorEnvelope → Body

pub record Response : Type 0 where
  pub status_code : ℕ
  pub body : Body

pub record BuiltRequest : Type 0 where
  pub batch_request : HardwareBatchRequest
  pub parsed_summary : Option ParsedSummary
  pub verify_mode : VerifyMode
  pub timeout_ms : ℕ
  pub total_jobs : ℕ

-- serde_json at the two request types, base64's standard engine, hex, and the text of tokio's
-- `JoinError`. A failed call gives the text of its error.
pub record Crates : Type 0 where
  pub transaction_from_slice : List ℕ → String ⊎ VerifyTransactionRequest
  pub batch_from_slice : List ℕ → String ⊎ VerifyBatchRequest
  pub base64_decode : String → String ⊎ List ℕ
  pub hex_decode : String → String ⊎ List ℕ
  pub join_error : String
