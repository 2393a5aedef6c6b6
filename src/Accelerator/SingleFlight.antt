-- ===== src/Accelerator/SingleFlight.antt =====
-- `SingleFlightAccelerator` and `BusyGuard` of accelerator.rs: requests from many threads, of which
-- one at a time reaches the inner accelerator.
pub mod Lock
pub mod Alone
pub mod Safety
pub mod Runs
pub mod Answers
pub mod Advance
mod Example
use kv260_sigverify.Prelude.{
  ℕ, ◌≡◌, ◌≢◌, List, [], ◌∷◌, Bool, true, false, Outcome, ok, err, panic, if◌then◌else◌, ◌==◌,
}
use kv260_sigverify.ServiceError
use kv260_sigverify.ServiceError.{ServiceError}
use kv260_sigverify.Accelerator.Types.{HardwareBatchRequest, HardwareBatchResult, AcceleratorStatus}
use kv260_sigverify.Accelerator.Host.{M}

-- The trait `SigverifyAccelerator`, over the world that the calls change.
pub record Accelerator (W : Type 0) : Type 0 where
  pub verify_batch : HardwareBatchRequest → M W HardwareBatchResult
  pub status : M W AcceleratorStatus

abbrev pub busy_error : ServiceError
busy_error =
    ServiceError.unavailable "accelerator_busy" "another verification request is already running"

-- `BusyGuard::try_acquire`: the compare-exchange on the flag, with the flag behind it.
unfoldable pub try_acquire : Bool → Outcome ServiceError (Unit {0}) × Bool
try_acquire true = (err busy_error, true)
try_acquire false = (ok tt, true)

-- `SingleFlightAccelerator::verify_batch` with no other thread between its steps: the guard's `drop`
-- clears the flag however the inner call ends.
module _ {W : Type 0} (inner : Accelerator W) where
  guarded :
      HardwareBatchRequest
      → W
      → Outcome ServiceError (Unit {0}) × Bool
      → Outcome ServiceError HardwareBatchResult × (Bool × W)
  guarded request w (ok _, busy) = let r = inner.verify_batch request w in (r.0, (false, r.1))
  guarded request w (err e, busy) = (err e, (busy, w))
  guarded request w (panic, busy) = (panic, (busy, w))

  unfoldable pub single_flight : Accelerator (Bool × W)
  unfolding guarded try_acquire
  single_flight = record {
    verify_batch = λ request s. guarded request s.1 (try_acquire s.0);
    status = λ s. let r = inner.status s.1 in (r.0, (s.0, r.1));
  }

-- Where a thread stands in `verify_batch`. A thread in the inner call works from the world that it has
-- found there.
pub data Pc (W : Type 0) : Type 0 where
  idle : Pc W
  entered : (request : HardwareBatchRequest) → Pc W  -- before the compare-exchange
  inside : (request : HardwareBatchRequest) → Pc W  -- holds the guard, before the inner call
  running : (request : HardwareBatchRequest) → W → Pc W  -- in the inner call
  leaving : (request : HardwareBatchRequest) → Outcome ServiceError HardwareBatchResult → Pc W  -- before the guard's `drop`
  returned : Outcome ServiceError HardwareBatchResult → Pc W

abbrev pub update : {W : Type 0} → (ℕ → Pc W) → ℕ → Pc W → ℕ → Pc W
update pc i p j = if i == j then p else pc j

-- Where the compare-exchange leaves a thread.
abbrev pub after_exchange :
    {W : Type 0} → HardwareBatchRequest → Outcome ServiceError (Unit {0}) → Pc W
after_exchange request (ok _) = inside request
after_exchange request (err e) = returned (err e)
after_exchange request panic = returned panic

-- The flag, the inner accelerator's world, the threads, and the requests whose inner call has ended,
-- the last one first.
pub record System (W : Type 0) : Type 0 where
  pub busy : Bool
  pub world : W
  pub pc : ℕ → Pc W
  pub history : List HardwareBatchRequest

abbrev pub start_state : {W : Type 0} → W → System W
start_state w = record { busy = false; world = w; pc = λ _. idle; history = [] }

-- One step of thread `i`. The inner call reads the world when it begins and writes it when it ends, so
-- that of two calls that overlap the one that ends first would have its effects overwritten. An inner call
-- that has begun can end; whether it panics is part of its outcome.
pub data Step {W : Type 0} (inner : Accelerator W) (s t : System W) : Type 0 where
  call :
      (i : ℕ) (request : HardwareBatchRequest)
      → s.pc i ≡ idle
      → t ≡ record s { pc = update s.pc i (entered request) }
      → Step inner s t
  exchange :
      (i : ℕ) (request : HardwareBatchRequest)
      → s.pc i ≡ entered request
      → t ≡ record s {
        busy = (try_acquire s.busy).1;
        pc = update s.pc i (after_exchange request (try_acquire s.busy).0);
      }
      → Step inner s t
  begin_run :
      (i : ℕ) (request : HardwareBatchRequest)
      → s.pc i ≡ inside request
      → t ≡ record s { pc = update s.pc i (running request s.world) }
      → Step inner s t
  end_run :
      (i : ℕ) (request : HardwareBatchRequest) (seen : W)
      → s.pc i ≡ running request seen
      → t ≡ record s {
        world = (inner.verify_batch request seen).1;
        pc = update s.pc i (leaving request (inner.verify_batch request seen).0);
        history = request ∷ s.history;
      }
      → Step inner s t
  drop_guard :
      (i : ℕ) (request : HardwareBatchRequest) (r : Outcome ServiceError HardwareBatchResult)
      → s.pc i ≡ leaving request r
      → t ≡ record s { busy = false; pc = update s.pc i (returned r) }
      → Step inner s t
  finish :
      (i : ℕ) (r : Outcome ServiceError HardwareBatchResult)
      → s.pc i ≡ returned r
      → t ≡ record s { pc = update s.pc i idle }
      → Step inner s t

pub data Reach {W : Type 0} (inner : Accelerator W) (w : W) : System W → Type 0 where
  start : Reach inner w (start_state w)
  later : {s t : System W} → Reach inner w s → Step inner s t → Reach inner w t

-- Between the compare-exchange and the guard's `drop`.
abbrev pub critical : {W : Type 0} → Pc W → Bool
critical (inside _) = true
critical (running _ _) = true
critical (leaving _ _) = true
critical _ = false
