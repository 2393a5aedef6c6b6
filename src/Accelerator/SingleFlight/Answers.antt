-- ===== src/Accelerator/SingleFlight/Answers.antt =====
-- What the callers of the single-flight accelerator of accelerator.rs get, against its calls one after
-- the other.
use kv260_sigverify.Prelude.{◌≡◌, List, ◌∷◌, Outcome}
use kv260_sigverify.ServiceError.{ServiceError}
use kv260_sigverify.Accelerator.Types.{HardwareBatchRequest, HardwareBatchResult}
use kv260_sigverify.Accelerator.SingleFlight.{Accelerator}
use kv260_sigverify.Accelerator.SingleFlight.Safety.{replay}

-- The thread that is about to give back the guard has made the last call, and has its outcome.
abbrev pub IsAnswered :
    {W : Type 0}
    → Accelerator W
    → W
    → List HardwareBatchRequest
    → HardwareBatchRequest
    → Outcome ServiceError HardwareBatchResult
    → Type 0
IsAnswered inner w history request r =
    (before : List HardwareBatchRequest) × (history ≡ request ∷ before)
    × (r ≡ (inner.verify_batch request (replay inner w before)).0)
