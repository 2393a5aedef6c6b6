-- ===== src/Accelerator/Types.antt =====
-- The constants and types of accelerator.rs. Numbers of every width are natural numbers; a duration
-- is a count of milliseconds, and `[u8; 32]` and `[u8; 64]` are lists.
use kv260_sigverify.Prelude.{ℕ, Bool, List, String, Option}

abbrev pub control_base : ℕ
control_base = 0xa000_0000

abbrev pub message_base : ℕ
message_base = 0xa001_0000

abbrev pub job_base : ℕ
job_base = 0xa002_0000

abbrev pub control_size : ℕ
control_size = 0x1000

abbrev pub message_size : ℕ
message_size = 0x1000

abbrev pub job_size : ℕ
job_size = 0x8000

abbrev pub max_job_count : ℕ
max_job_count = 255

-- Register offsets
abbrev pub reg_control : ℕ
reg_control = 0x0000

abbrev pub reg_status : ℕ
reg_status = 0x0004

abbrev pub reg_message_len : ℕ
reg_message_len = 0x0008

abbrev pub reg_job_count : ℕ
reg_job_count = 0x000c

abbrev pub reg_result_mask_base : ℕ
reg_result_mask_base = 0x0010

abbrev pub reg_verify_cfg : ℕ
reg_verify_cfg = 0x0038

abbrev pub reg_last_job_cycles : ℕ
reg_last_job_cycles = 0x0050

abbrev pub reg_last_batch_cycles : ℕ
reg_last_batch_cycles = 0x0058

abbrev pub reg_job_timeout_cycles : ℕ
reg_job_timeout_cycles = 0x005c

abbrev pub reg_irq_ctrl_status : ℕ
reg_irq_ctrl_status = 0x0060

abbrev pub reg_batch_id : ℕ
reg_batch_id = 0x0064

abbrev pub reg_snapshot_batch_id : ℕ
reg_snapshot_batch_id = 0x0068

abbrev pub reg_snapshot_accepted : ℕ
reg_snapshot_accepted = 0x006c

abbrev pub reg_snapshot_completed : ℕ
reg_snapshot_completed = 0x0070

abbrev pub reg_snapshot_dropped : ℕ
reg_snapshot_dropped = 0x0074

abbrev pub reg_snapshot_err_status : ℕ
reg_snapshot_err_status = 0x0078

abbrev pub reg_hw_magic : ℕ
reg_hw_magic = 0x007c

abbrev pub reg_hw_build : ℕ
reg_hw_build = 0x0080

abbrev pub hw_magic : ℕ
hw_magic = 0x5349_4756

abbrev pub hw_mode_full : ℕ
hw_mode_full = 0

abbrev pub hw_mode_bringup : ℕ
hw_mode_bringup = 1

abbrev pub hw_api_version : ℕ
hw_api_version = 1

-- `CONTROL_CMD_START | CONTROL_CMD_SOFT_RESET`
abbrev pub control_cmd_reset_then_start : ℕ
control_cmd_reset_then_start = 0x3

abbrev pub irq_ctrl_enable_and_ack : ℕ
irq_ctrl_enable_and_ack = 0x3

-- `DEFAULT_POLL_INTERVAL`, in milliseconds
abbrev pub default_poll_interval : ℕ
default_poll_interval = 10

pub data VerifyMode : Type 0 where
  strict agave_zebra : VerifyMode

unfoldable pub register_bits : VerifyMode → ℕ
register_bits strict = 0
register_bits agave_zebra = 1

-- `VerifyMode::as_str`
unfoldable pub mode_name : VerifyMode → String
mode_name strict = "strict"
mode_name agave_zebra = "agave_zebra"

pub data WaitMode : Type 0 where
  auto irq poll : WaitMode

pub record AcceleratorConfig : Type 0 where
  pub control_path : String
  pub message_path : String
  pub job_path : String
  pub control_offset : ℕ
  pub message_offset : ℕ
  pub job_offset : ℕ
  pub wait_mode : WaitMode

-- `AcceleratorConfig::default`
abbrev pub default_config : AcceleratorConfig
default_config = record {
  control_path = "auto";
  message_path = "auto";
  job_path = "auto";
  control_offset = control_base;
  message_offset = message_base;
  job_offset = job_base;
  wait_mode = auto;
}

-- The accelerator's own `VerificationJob`, which has no index.
pub record VerificationJob : Type 0 where
  pub pubkey : List ℕ
  pub signature : List ℕ

pub record HardwareBatchRequest : Type 0 where
  pub message : List ℕ
  pub jobs : List VerificationJob
  pub verify_mode : VerifyMode
  pub timeout : ℕ
  pub dispatch_limit : ℕ
  pub job_timeout_cycles : ℕ

pub record AcceleratorStatus : Type 0 where
  pub ready : Bool
  pub fpga_loaded : Bool
  pub control_path : String
  pub message_path : String
  pub job_path : String
  pub last_seen_batch_id : Option ℕ
  pub hardware_mode : Option String
  pub hardware_api_version : Option ℕ
  pub detail : Option String

pub record HardwareBatchResult : Type 0 where
  pub batch_id : ℕ
  pub accepted_job_count : ℕ
  pub jobs_completed : ℕ
  pub jobs_dropped : ℕ
  pub error : Bool
  pub result_valid : Bool
  pub error_code : ℕ
  pub result_mask_hex : String
  pub result_bits : List Bool
  pub last_job_cycles : ℕ
  pub last_batch_cycles : ℕ

pub record RegionSpec : Type 0 where
  pub path : String
  pub offset : ℕ
  pub size : ℕ

pub record HardwareLayout : Type 0 where
  pub control : RegionSpec
  pub message : RegionSpec
  pub job : RegionSpec

pub record StatusBits : Type 0 where
  pub is_done : Bool
  pub is_error : Bool

pub record SnapshotStatus : Type 0 where
  pub batch_id : ℕ
  pub accepted_job_count : ℕ
  pub jobs_completed : ℕ
  pub jobs_dropped : ℕ
  pub error : Bool
  pub result_valid : Bool
  pub error_code : ℕ

pub record HardwareIdentity : Type 0 where
  pub mode : ℕ
  pub api_version : ℕ
