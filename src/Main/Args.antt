-- ===== src/Main/Args.antt =====
-- The command line of main.rs. What clap makes of the words of the command line is the value given for
-- each long option, if there is one; the values are parsed and filled up here. The parser that clap
-- derives for `WaitMode` and the text `{raw:?}` are parameters.
use kv260_sigverify.Prelude.{ℕ, String, Option, none, some, Outcome, ok, ◌>>=◌, map_err}
use kv260_sigverify.Prelude.Format.{◌⧺◌}
use kv260_sigverify.StdText.{strip_hex_prefix, from_str_radix}
use kv260_sigverify.Accelerator.Types.{AcceleratorConfig, WaitMode, poll}

pub record ServeArgs : Type 0 where
  pub socket_path : String
  pub control_path : String
  pub message_path : String
  pub job_path : String
  pub control_offset : ℕ
  pub message_offset : ℕ
  pub job_offset : ℕ
  pub wait_mode : WaitMode
  pub log_filter : String

-- The subcommands of `Cli`.
pub data Command : Type 0 where
  serve_command : ServeArgs → Command

-- The value of an option, or its default text.
abbrev pub or_default : String → Option String → String
or_default default_value none = default_value
or_default default_value (some value) = value

module _ (debug_text : String → String) where
  unfoldable pub parse_u64_auto : String → Outcome String ℕ
  parse_u64_auto raw = elim (strip_hex_prefix raw) [
    | some stripped ↦
        map_err (λ error. "invalid hex value " ⧺ debug_text raw ⧺ ": " ⧺ error)
          (from_str_radix 16 stripped)
    | none ↦
        map_err (λ error. "invalid numeric value " ⧺ debug_text raw ⧺ ": " ⧺ error)
          (from_str_radix 10 raw)
  ]

  -- `value_enum` with `default_value_t`
  unfoldable pub wait_mode_or_default :
      (String → Outcome String WaitMode) → Option String → Outcome String WaitMode
  wait_mode_or_default parse_wait_mode none = ok poll
  wait_mode_or_default parse_wait_mode (some value) = parse_wait_mode value

  -- `Cli::parse`, from the values given for the options of `serve`
  unfoldable pub serve_args :
      (String → Outcome String WaitMode) → (String → Option String) → Outcome String ServeArgs
  unfolding wait_mode_or_default
  serve_args parse_wait_mode given = do
    control_offset ← parse_u64_auto (or_default "0xA0000000" (given "control-offset"))
    message_offset ← parse_u64_auto (or_default "0xA0010000" (given "message-offset"))
    job_offset ← parse_u64_auto (or_default "0xA0020000" (given "job-offset"))
    wait_mode ← wait_mode_or_default parse_wait_mode (given "wait-mode")
    ok (record {
      socket_path = or_default "/run/kv260-sigv.sock" (given "socket-path");
      control_path = or_default "auto" (given "control-path");
      message_path = or_default "auto" (given "message-path");
      job_path = or_default "auto" (given "job-path");
      control_offset = control_offset;
      message_offset = message_offset;
      job_offset = job_offset;
      wait_mode = wait_mode;
      log_filter = or_default "info" (given "log-filter");
    })

-- The configuration that `serve` builds.
unfoldable pub config_of : ServeArgs → AcceleratorConfig
config_of args = record {
  control_path = args.control_path;
  message_path = args.message_path;
  job_path = args.job_path;
  control_offset = args.control_offset;
  message_offset = args.message_offset;
  job_offset = args.job_offset;
  wait_mode = args.wait_mode;
}
