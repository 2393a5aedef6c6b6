-- ===== src/Accelerator/SingleFlight/Runs.antt =====
-- Runs of the single-flight accelerator of accelerator.rs: which thread makes a step, and how many
-- steps a thread is away from the end of its request.
pub mod Progress
use kv260_sigverify.Prelude.{ℕ, ◌+◌, suc, Bool, true, false, ◌==◌, if◌then◌else◌}
use kv260_sigverify.Accelerator.SingleFlight.{
  Pc, idle, entered, inside, running, leaving, returned, System, Step, call, exchange, begin_run,
  end_run, drop_guard, finish, Accelerator,
}

abbrev pub owner : {W : Type 0} {inner : Accelerator W} {s t : System W} → Step inner s t → ℕ
owner (call i request at e) = i
owner (exchange i request at e) = i
owner (begin_run i request at e) = i
owner (end_run i request seen at e) = i
owner (drop_guard i request r at e) = i
owner (finish i r at e) = i

abbrev pub is_call : {W : Type 0} {inner : Accelerator W} {s t : System W} → Step inner s t → Bool
is_call (call i request at e) = true
is_call (exchange i request at e) = false
is_call (begin_run i request at e) = false
is_call (end_run i request seen at e) = false
is_call (drop_guard i request r at e) = false
is_call (finish i r at e) = false

-- Steps of any threads, one after the other.
pub data Run {W : Type 0} (inner : Accelerator W) : System W → System W → Type 0 where
  done : {s : System W} → Run inner s s
  first : {s t u : System W} → Step inner s t → Run inner t u → Run inner s u

-- How many steps a run has, how many of them are those of one thread, and how many of its are calls.
abbrev pub steps : {W : Type 0} {inner : Accelerator W} {s t : System W} → Run inner s t → ℕ
steps done = 0
steps (first step rest) = 1 + steps rest

abbrev pub steps_of : {W : Type 0} {inner : Accelerator W} {s t : System W} → ℕ → Run inner s t → ℕ
steps_of i done = 0
steps_of i (first step rest) = (if owner step == i then 1 else 0) + steps_of i rest

abbrev pub calls_of : {W : Type 0} {inner : Accelerator W} {s t : System W} → ℕ → Run inner s t → ℕ
calls_of i done = 0
calls_of i (first step rest) =
    (if owner step == i then (if is_call step then 1 else 0) else 0) + calls_of i rest

-- The most steps that a thread still makes before it is idle.
abbrev pub remaining : {W : Type 0} → Pc W → ℕ
remaining idle = 0
remaining (returned r) = 1
remaining (leaving request r) = 2
remaining (running request seen) = 3
remaining (inside request) = 4
remaining (entered request) = 5
