-- ===== src/Main/Example.antt =====
-- A file system with one path, runs of main.rs on it, and the theorems at them.
use kv260_sigverify.Prelude.{
  ℕ, ◌+◌, ◌≡◌, refl, ap, List, [], ◌∷◌, String, Bool, true, false, Option, none, some, inl, inr,
  Outcome, ok, err, if◌then◌else◌,
}
use text.Mathlib.Text.{◌==◌ as same_text}
use kv260_sigverify.StdText.{strip_hex_prefix, from_str_radix, radix_digits, to_digit}
use kv260_sigverify.Accelerator.Types.{WaitMode, auto, irq, poll}
use kv260_sigverify.Accelerator.Examples.{ready_host}
use kv260_sigverify.Api.Examples.{test_crates}
use kv260_sigverify.Main.Args.{
  ServeArgs, serve_command, parse_u64_auto, wait_mode_or_default, serve_args,
}
use kv260_sigverify.Main.Router.{Route}
use kv260_sigverify.Main.Serve.{
  Runtime, Event, terminate, accepted, main, serve, serve_at, accept_loop, create_parent,
  remove_if_exists,
}
use kv260_sigverify.Main.Serve.Sockets.{Files, Works, ending, main-ending, main_absent}

abbrev plain_mode : String → Outcome String WaitMode
plain_mode text =
    if same_text text "auto"
    then ok auto
    else if same_text text "irq"
    then ok irq
    else if same_text text "poll"
    then ok poll
    else err "invalid variant"

abbrev own_args : ServeArgs
own_args = record {
  socket_path = "/tmp/kv260-sigv.sock";
  control_path = "auto";
  message_path = "auto";
  job_path = "auto";
  control_offset = 0xa0000000;
  message_offset = 4096;
  job_offset = 0xa0020000;
  wait_mode = poll;
  log_filter = "info";
}

abbrev own_values : String → Option String
own_values name =
    if same_text name "socket-path"
    then some "/tmp/kv260-sigv.sock"
    else if same_text name "message-offset"
    then some "4096"
    else none

own_args_parsed : serve_args (λ text. text) plain_mode own_values ≡ ok own_args
unfolding serve_args parse_u64_auto wait_mode_or_default strip_hex_prefix from_str_radix
    radix_digits to_digit
own_args_parsed = refl

wrong_offset :
    parse_u64_auto (λ text. text) "0x1g"
    ≡ err "invalid hex value 0x1g: invalid digit found in string"
unfolding parse_u64_auto strip_hex_prefix from_str_radix radix_digits to_digit
wrong_offset = refl

-- The world is whether the socket's file is there, and how many connections are served.
abbrev one_path : Runtime (List (Route (Bool × Unit {0})))
one_path = record {
  World = Bool × ℕ;
  Listener = Unit;
  Stream = ℕ;
  init_tracing = λ filter w. w;
  parent = λ path. some "/tmp";
  create_dir_all = λ directory w. (inr tt, w);
  exists = λ path w. (w.0, w);
  remove_file = λ path w. (inr tt, (false, w.1));
  bind = λ path w. (if w.0 then inl "address in use" else inr tt, (true, w.1));
  spawn = λ app stream w. (w.0, w.1 + 1);
}

one_path_files : Files one_path "/tmp/kv260-sigv.sock"
one_path_files = record {
  present = λ w. w.0;
  exists_tells = λ w. refl;
  exists_keeps = λ w. refl;
  removed = λ w e. refl;
}

one_path-Works : Works one_path "/tmp/kv260-sigv.sock" one_path_files
unfolding one_path_files
one_path-Works = record {
  creates = λ directory w. refl;
  removes = λ w there. refl;
  binds = λ w absent. (tt, rw absent refl);
}

abbrev two_and_a_signal : List (Event ℕ)
two_and_a_signal = accepted (inr 7) ∷ accepted (inr 8) ∷ terminate ∷ accepted (inr 9) ∷ []

-- A stale socket is there at first.
two_served :
    main ready_host 3 test_crates one_path (serve_command own_args) two_and_a_signal (true, 0)
    ≡ (ok true, (false, 2))
unfolding main serve serve_at accept_loop create_parent remove_if_exists
two_served = refl

main-ending_example :
    (main ready_host 3 test_crates one_path (serve_command own_args) two_and_a_signal (true, 0)).0
    ≡ ending one_path two_and_a_signal
main-ending_example =
    main-ending ready_host 3 test_crates one_path own_args one_path_files one_path-Works
      two_and_a_signal (true, 0)

main_absent_example :
    one_path_files.present
      (main ready_host 3 test_crates one_path (serve_command own_args) two_and_a_signal (true, 0)).1
    ≡ false
main_absent_example =
    main_absent ready_host 3 test_crates one_path own_args one_path_files two_and_a_signal (true, 0)
      (ap (λ x. x.0) two_served)
