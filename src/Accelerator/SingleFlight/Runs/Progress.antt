-- ===== src/Accelerator/SingleFlight/Runs/Progress.antt =====
-- No thread of accelerator.rs is kept from ending its request, and the flag of the guard is given back.
use kv260_sigverify.Prelude.{
  ℕ, ◌+◌, ◌≤◌, ◌≡◌, refl, Bool, true, false, ==_iff, Bool-cases, inl, inr, arith,
}
use kv260_sigverify.Accelerator.SingleFlight.{
  Pc, idle, entered, inside, running, leaving, returned, update, critical, System, Step, exchange,
  begin_run, end_run, drop_guard, finish, Accelerator, try_acquire, after_exchange, Reach,
}
use kv260_sigverify.Accelerator.SingleFlight.Lock.{update_same}
use kv260_sigverify.Accelerator.SingleFlight.Safety.{Reach-IsLocked}
use kv260_sigverify.Accelerator.SingleFlight.Runs.{owner, Run, done, first, steps, steps_of}

-- A run of one thread alone, of at most `k` steps, to a state with a property.
pub record AloneTo {W : Type 0} (inner : Accelerator W) (i k : ℕ) (s : System W)
    (P : System W → Type 0) : Type 0 where
  pub last : System W
  pub alone : Run inner s last
  pub of_one : steps_of i alone ≡ steps alone
  pub few : steps alone ≤ k
  pub reached : P last

here :
    {W : Type 0} {inner : Accelerator W} {i k : ℕ} {s : System W} {P : System W → Type 0}
    → P s
    → AloneTo inner i k s P
here {s} p = record { last = s; alone = done; of_one = refl; few = omega arith; reached = p }

step_then :
    {W : Type 0} {inner : Accelerator W} {i k : ℕ} {s t : System W} {P : System W → Type 0}
    (step : Step inner s t)
    → owner step ≡ i
    → AloneTo inner i k t P
    → AloneTo inner i (1 + k) s P
step_then {i} step own rest = record {
  last = rest.last;
  alone = first step rest.alone;
  of_one = let e = (==_iff (owner step) i).1 own in rw e (omega (arith, rest.of_one));
  few = omega (arith, rest.few);
  reached = rest.reached;
}

later_bound :
    {W : Type 0} {inner : Accelerator W} {i k m : ℕ} {s : System W} {P : System W → Type 0}
    → k ≤ m
    → AloneTo inner i k s P
    → AloneTo inner i m s P
later_bound le rest = record {
  last = rest.last;
  alone = rest.alone;
  of_one = rest.of_one;
  few = omega (arith, rest.few, le);
  reached = rest.reached;
}

abbrev pub IsIdle : {W : Type 0} → ℕ → System W → Type 0
IsIdle i s = s.pc i ≡ idle

module _ {W : Type 0} (inner : Accelerator W) (i : ℕ) where
  IsIdle-from_returned :
      (s : System W) (r : _) → s.pc i ≡ returned r → AloneTo inner i 1 s (IsIdle i)
  IsIdle-from_returned s r at =
      step_then {k = 0} (finish i r at refl) refl (here (update_same s.pc i i idle refl))

  IsIdle-from_leaving :
      (s : System W) (request : _) (r : _)
      → s.pc i ≡ leaving request r
      → AloneTo inner i 2 s (IsIdle i)
  IsIdle-from_leaving s request r at =
      step_then {k = 1} (drop_guard i request r at refl) refl
        (IsIdle-from_returned _ r (update_same s.pc i i _ refl))

  IsIdle-from_running :
      (s : System W) (request : _) (seen : W)
      → s.pc i ≡ running request seen
      → AloneTo inner i 3 s (IsIdle i)
  IsIdle-from_running s request seen at =
      step_then {k = 2} (end_run i request seen at refl) refl
        (IsIdle-from_leaving _ request _ (update_same s.pc i i _ refl))

  IsIdle-from_inside :
      (s : System W) (request : _) → s.pc i ≡ inside request → AloneTo inner i 4 s (IsIdle i)
  IsIdle-from_inside s request at =
      step_then {k = 3} (begin_run i request at refl) refl
        (IsIdle-from_running _ request s.world (update_same s.pc i i _ refl))

  IsIdle-from_exchange :
      (s : System W) (request : _) (b : Bool)
      → s.pc i ≡ after_exchange request (try_acquire b).0
      → AloneTo inner i 4 s (IsIdle i)
  unfolding try_acquire
  IsIdle-from_exchange s request true at = later_bound (omega arith) (IsIdle-from_returned s _ at)
  IsIdle-from_exchange s request false at = IsIdle-from_inside s request at

  IsIdle-from : (s : System W) (p : Pc W) → s.pc i ≡ p → AloneTo inner i 5 s (IsIdle i)
  IsIdle-from s idle at = here at
  IsIdle-from s (returned r) at = later_bound (omega arith) (IsIdle-from_returned s r at)
  IsIdle-from s (leaving request r) at =
      later_bound (omega arith) (IsIdle-from_leaving s request r at)
  IsIdle-from s (running request seen) at =
      later_bound (omega arith) (IsIdle-from_running s request seen at)
  IsIdle-from s (inside request) at = later_bound (omega arith) (IsIdle-from_inside s request at)
  IsIdle-from s (entered request) at =
      step_then {k = 4} (exchange i request at refl) refl
        (IsIdle-from_exchange _ request s.busy (update_same s.pc i i _ refl))

-- From every state, wherever the other threads stand, a thread that runs alone is idle after at most
-- five steps of its own.
pub finishes_alone :
    {W : Type 0} (inner : Accelerator W) (i : ℕ) (s : System W) → AloneTo inner i 5 s (IsIdle i)
finishes_alone inner i s = IsIdle-from inner i s (s.pc i) refl

abbrev pub IsFree : {W : Type 0} → System W → Type 0
IsFree s = s.busy ≡ false

IsFree-from :
    {W : Type 0} (inner : Accelerator W) (i : ℕ) (s : System W) (p : Pc W)
    → s.pc i ≡ p
    → critical p ≡ true
    → AloneTo inner i 3 s IsFree
IsFree-from {W} inner i s idle at c = cc
IsFree-from {W} inner i s (entered request) at c = cc
IsFree-from {W} inner i s (returned r) at c = cc
IsFree-from {W} inner i s (leaving request r) at c =
    step_then {k = 2} (drop_guard i request r at refl) refl (here refl)
IsFree-from {W} inner i s (running request seen) at c =
    step_then {k = 2} (end_run i request seen at refl) refl (
      step_then {k = 1} (drop_guard i request _ (update_same s.pc i i _ refl) refl) refl
        (here refl))
IsFree-from {W} inner i s (inside request) at c =
    let begun : ℕ → Pc W = update s.pc i (running request s.world) in
    step_then {k = 2} (begin_run i request at refl) refl (
      step_then {k = 1} (end_run i request s.world (update_same s.pc i i _ refl) refl) refl (
        step_then {k = 0} (drop_guard i request _ (update_same begun i i _ refl) refl) refl
          (here refl)))

-- From every reachable state some thread can, alone and in at most three steps, clear the busy flag: the
-- accelerator is never lost to later requests.
pub busy_cleared :
    {W : Type 0} {inner : Accelerator W} {w : W} {s : System W}
    → Reach inner w s
    → (i : ℕ) × AloneTo inner i 3 s IsFree
busy_cleared {inner} {s} r = elim (Bool-cases s.busy) [
  | inl held ↦
      let owner_of = (Reach-IsLocked r).covered held in
      (owner_of.0, IsFree-from inner owner_of.0 s (s.pc owner_of.0) refl owner_of.1)
  | inr free ↦ (0, here free)
]
