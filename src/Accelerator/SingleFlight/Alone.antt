-- ===== src/Accelerator/SingleFlight/Alone.antt =====
-- The guard of accelerator.rs with one thread: what a result of it says of the inner accelerator.
use kv260_sigverify.Prelude.{◌≡◌, ap, Bool, true, false, ok}
use kv260_sigverify.Accelerator.Types.{HardwareBatchRequest, HardwareBatchResult}
use kv260_sigverify.Accelerator.SingleFlight.{Accelerator, single_flight, try_acquire, guarded}

pair-eq : {A B : Type 0} (r : A × B) {a : A} {b : B} → r.0 ≡ a → r.1 ≡ b → r ≡ (a, b)
pair-eq (x, y) p q = cc

pub single_flight-ok :
    {W : Type 0} (inner : Accelerator W) (request : HardwareBatchRequest) (busy : Bool) (w : W)
    {result : HardwareBatchResult} {s2 : Bool × W}
    → (single_flight inner).verify_batch request (busy, w) ≡ (ok result, s2)
    → inner.verify_batch request w ≡ (ok result, s2.1)
unfolding single_flight try_acquire guarded
single_flight-ok inner request true w h = let refused = ap (λ x. x.0) h in cc
single_flight-ok inner request false w h =
    pair-eq (inner.verify_batch request w) (ap (λ x. x.0) h) (ap (λ x. x.1.1) h)
