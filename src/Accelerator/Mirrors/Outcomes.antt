-- ===== src/Accelerator/Mirrors/Outcomes.antt =====
-- What a step of accelerator.rs comes to on a watching host, and what labels leave of a call.
use kv260_sigverify.Prelude.{◌≡◌, refl, ap, ◌∙◌, String, ◌⊎◌, inl, inr, Outcome, ok, err, panic}
use kv260_sigverify.ServiceError.{ServiceError}
use kv260_sigverify.Accelerator.Host.{M}
use kv260_sigverify.Accelerator.Watch.{labelled}
use kv260_sigverify.Accelerator.Mirrors.{Mirrors, onto, id, mirror}

pub onto-labelled :
    {A B : Type 0} (label : B) (r : String ⊎ A) → onto (λ x. x.0) (labelled label r) ≡ r
onto-labelled label (inl error) = refl
onto-labelled label (inr a) = refl

pub onto-id : {A : Type 0} (r : String ⊎ A) → onto id r ≡ r
onto-id (inl error) = refl
onto-id (inr a) = refl

-- A step on the watching host comes to what the step on the host that it watches comes to.
pub Mirrors-outcome :
    {W V A : Type 0} (strip : W → V) (m : M W A) (n : M V A) (w : W)
    → Mirrors strip id m n
    → (m w).0 ≡ (n (strip w)).0
Mirrors-outcome {W} {V} {A} strip m n w same = go (m w) ∙ ap (λ r. r.0) (same.mirrors w)
  where
    go : (r : Outcome ServiceError A × W) → r.0 ≡ (mirror strip id r).0
    go (ok a, w2) = refl
    go (err e, w2) = refl
    go (panic, w2) = refl
