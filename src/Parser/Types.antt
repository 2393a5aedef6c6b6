-- ===== src/Parser/Types.antt =====
-- The types of tools/kv260_sigv_daemon/src/parser.rs. A byte is a number below 256, a byte slice a
-- list of such; `[u8; 32]` and `[u8; 64]` are lists too, and their length is proved, not built in.
use kv260_sigverify.Prelude.{ℕ, ◌<◌, List, String, Outcome}

pub data MessageVersion : Type 0 where
  legacy v0 : MessageVersion

-- `impl Display for MessageVersion`
unfoldable pub to_string : MessageVersion → String
to_string legacy = "legacy"
to_string v0 = "v0"

pub record VerificationJob : Type 0 where
  pub index : ℕ
  pub pubkey : List ℕ
  pub signature : List ℕ

pub record ParsedTransaction : Type 0 where
  pub transaction_bytes : List ℕ
  pub message_bytes : List ℕ
  pub message_version : MessageVersion
  pub num_required_signatures : ℕ
  pub jobs : List VerificationJob

pub record ParseError : Type 0 where
  pub message : String

abbrev pub parse_error : String → ParseError
parse_error message = record { message = message }

pub record ParsedMessage : Type 0 where
  pub message_version : MessageVersion
  pub num_required_signatures : ℕ
  pub static_account_keys : List (List ℕ)

abbrev pub Parse : Type 0 → Type 0
Parse A = Outcome ParseError A

abbrev pub IsByte : ℕ → Type 0
IsByte b = b < 256
