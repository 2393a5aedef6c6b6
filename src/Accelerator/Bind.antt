-- ===== src/Accelerator/Bind.antt =====
-- Laws of the steps over a world.
use kv260_sigverify.Prelude.{◌≡◌, refl, Outcome, ok, err, panic}
use kv260_sigverify.ServiceError.{ServiceError}
use kv260_sigverify.Accelerator.Host.{M, continue_with, ◌>>=◌}

pub bind_assoc :
    {W A B C : Type 0} (m : M W A) (f : A → M W B) (g : B → M W C) (w : W)
    → ((m >>= f) >>= g) w ≡ (m >>= λ a. f a >>= g) w
bind_assoc {W} {A} m f g w = go (m w)
  where
    go :
        (r : Outcome ServiceError A × W)
        → continue_with g (continue_with f r) ≡ continue_with (λ a. f a >>= g) r
    go (ok a, w2) = refl
    go (err x, w2) = refl
    go (panic, w2) = refl

-- Two ways to go on that agree on every value and world.
pub bind_congr :
    {W A B : Type 0} (m : M W A) (f g : A → M W B)
    → ((a : A) (w : W) → f a w ≡ g a w)
    → (w : W) → (m >>= f) w ≡ (m >>= g) w
bind_congr {W} {A} m f g same w = go (m w)
  where
    go : (r : Outcome ServiceError A × W) → continue_with f r ≡ continue_with g r
    go (ok a, w2) = same a w2
    go (err x, w2) = refl
    go (panic, w2) = refl

-- A bind that gives a value: its first step gave one, and so did the second.
pub bind-eq-ok :
    {W A B : Type 0} (m : M W A) (f : A → M W B) (w : W) (b : B)
    → ((m >>= f) w).0 ≡ ok b
    → (a : A) × (((m w).0 ≡ ok a) × ((f a (m w).1).0 ≡ ok b))
bind-eq-ok {W} {A} {B} m f w b e = go (m w) e
  where
    go :
        (r : Outcome ServiceError A × W)
        → (continue_with f r).0 ≡ ok b
        → (a : A) × ((r.0 ≡ ok a) × ((f a r.1).0 ≡ ok b))
    go (ok a, w2) e = (a, (refl, e))
    go (err x, w2) e = cc
    go (panic, w2) e = cc
