-- ===== src/Accelerator/SingleFlight/Example.antt =====
-- Two threads at the guard of accelerator.rs, and what holds of them on their way.
use kv260_sigverify.Prelude.{ℕ, refl}
use kv260_sigverify.Accelerator.Examples.{counting, one_request, two_threads}
use kv260_sigverify.Accelerator.SingleFlight.{System, exchange, start_state, entered}
use kv260_sigverify.Accelerator.SingleFlight.Runs.{Run, done, first}
use kv260_sigverify.Accelerator.SingleFlight.Runs.Progress.{
  AloneTo, IsIdle, IsFree, finishes_alone, busy_cleared,
}

-- A thread calls, and another one too.
abbrev both_called : System ℕ
both_called = record (start_state {W = ℕ} 0) { pc = λ j. entered one_request }

abbrev one_exchange : (t : System ℕ) × Run counting both_called t
one_exchange = (_, first (exchange 0 one_request refl refl) done)

finishes_alone_example : AloneTo counting 0 5 two_threads.0 (IsIdle 0)
finishes_alone_example = finishes_alone counting 0 two_threads.0

busy_cleared_example : (i : ℕ) × AloneTo counting i 3 two_threads.0 IsFree
busy_cleared_example = busy_cleared two_threads.1
