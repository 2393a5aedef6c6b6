-- ===== src/Accelerator/Keeps.antt =====
-- Steps that keep an invariant of the world, with what holds of their value, and with what a panic
-- would mean: nothing of it, or a contradiction.
pub mod Invariant
pub mod Searches
pub mod Regions
pub mod Device
pub mod Batch
use kv260_sigverify.Prelude.{
  ◌≡◌, ◌≢◌, refl, Bool, true, false, String, ◌⊎◌, inl, inr, Outcome, ok, err, panic, if◌then◌else◌,
}
use kv260_sigverify.ServiceError.{ServiceError}
use kv260_sigverify.Accelerator.Host.{
  M, pure, fail, lift, act, act_unit, or_fail, continue_with, ◌>>=◌,
}

-- What holds of an outcome: `Q` of a value, `R` of a panic.
abbrev pub Comes : {A : Type 0} → Type 0 → (A → Type 0) → Outcome ServiceError A → Type 0
Comes R Q (ok a) = Q a
Comes R Q (err e) = Unit
Comes R Q panic = R

abbrev pub Any : {A : Type 0} → A → Type 0
Any a = Unit

pub record Keeps {W A : Type 0} (R : Type 0) (P : W → Type 0) (Q : A → Type 0) (m : M W A)
    : Type 0 where
  pub keeps : (w : W) → P w → P (m w).1 × Comes R Q (m w).0

-- From a world with `P` to one with `P2`.
pub record Leads {W A : Type 0} (R : Type 0) (P P2 : W → Type 0) (Q : A → Type 0) (m : M W A)
    : Type 0 where
  pub leads : (w : W) → P w → P2 (m w).1 × Comes R Q (m w).0

module _ {W R : Type 0} {P : W → Type 0} where
  pub pure-Keeps : {A : Type 0} (Q : A → Type 0) (a : A) → Q a → Keeps R P Q (pure a)
  pure-Keeps Q a q = record { keeps = λ w p. (p, q) }

  pub fail-Keeps : {A : Type 0} (Q : A → Type 0) (x : ServiceError) → Keeps R P Q (fail x)
  fail-Keeps Q x = record { keeps = λ w p. (p, tt) }

  pub lift-Keeps :
      {A : Type 0} (Q : A → Type 0) (r : Outcome ServiceError A)
      → Comes R Q r
      → Keeps R P Q (lift r)
  lift-Keeps Q r q = record { keeps = λ w p. (p, q) }

  pub act-Keeps : {A : Type 0} (f : W → A × W) → ((w : W) → P w → P (f w).1) → Keeps R P Any (act f)
  act-Keeps f kept = record { keeps = λ w p. (kept w p, tt) }

  pub act_unit-Keeps : (f : W → W) → ((w : W) → P w → P (f w)) → Keeps R P Any (act_unit f)
  act_unit-Keeps f kept = record { keeps = λ w p. (kept w p, tt) }

  -- A system call that may fail, with what holds of its value.
  pub or_fail-Keeps :
      {A : Type 0} (Q : A → Type 0) (on_error : String → ServiceError) (f : W → (String ⊎ A) × W)
      → ((w : W) → P w → P (f w).1)
      → ((w : W) (a : A) → (f w).0 ≡ inr a → Q a)
      → Keeps R P Q (or_fail on_error f)
  or_fail-Keeps {A} Q on_error f kept holds = record { keeps = λ w p. go w (f w).0 refl (kept w p) }
    where
      go :
          (w : W) (r : String ⊎ A)
          → (f w).0 ≡ r
          → P (f w).1
          → P (or_fail on_error f w).1 × Comes R Q (or_fail on_error f w).0
      go w (inl text) e p = rw (e, or_fail) (p, tt)
      go w (inr a) e p = rw (e, or_fail) (p, holds w a e)

  pub bind-Keeps :
      {A B : Type 0} (Q : A → Type 0) (S : B → Type 0) (m : M W A) (f : A → M W B)
      → Keeps R P Q m
      → ((a : A) → Q a → Keeps R P S (f a))
      → Keeps R P S (m >>= f)
  bind-Keeps {A} Q S m f km kf = record {
    keeps = λ w p. go (m w) (km.keeps w p).0 (km.keeps w p).1;
  }
    where
      go :
          (r : Outcome ServiceError A × W)
          → P r.1
          → Comes R Q r.0
          → P (continue_with f r).1 × Comes R S (continue_with f r).0
      go (ok a, w2) p q = (kf a q).keeps w2 p
      go (err x, w2) p q = (p, tt)
      go (panic, w2) p q = (p, q)

  -- A bind whose first value nothing is said of.
  pub then-Keeps :
      {A B : Type 0} (S : B → Type 0) (m : M W A) (f : A → M W B)
      → Keeps R P Any m
      → ((a : A) → Keeps R P S (f a))
      → Keeps R P S (m >>= f)
  then-Keeps S m f km kf = bind-Keeps Any S m f km (λ a any. kf a)

  pub Keeps-Leads : {A : Type 0} {Q : A → Type 0} {m : M W A} → Keeps R P Q m → Leads R P P Q m
  Keeps-Leads k = record { leads = k.keeps }

  pub bind-Leads :
      {P2 : W → Type 0} {A B : Type 0} (Q : A → Type 0) (S : B → Type 0) (m : M W A) (f : A → M W B)
      → ((w : W) → P w → P2 w)
      → Keeps R P Q m
      → ((a : A) → Q a → Leads R P P2 S (f a))
      → Leads R P P2 S (m >>= f)
  bind-Leads {P2} {A} Q S m f weaker km kf = record {
    leads = λ w p. go (m w) (km.keeps w p).0 (km.keeps w p).1;
  }
    where
      go :
          (r : Outcome ServiceError A × W)
          → P r.1
          → Comes R Q r.0
          → P2 (continue_with f r).1 × Comes R S (continue_with f r).0
      go (ok a, w2) p q = (kf a q).leads w2 p
      go (err x, w2) p q = (weaker w2 p, tt)
      go (panic, w2) p q = (weaker w2 p, q)

  pub if-Keeps :
      {A : Type 0} (Q : A → Type 0) (b : Bool) (m n : M W A)
      → (b ≡ true → Keeps R P Q m)
      → (b ≡ false → Keeps R P Q n)
      → Keeps R P Q (if b then m else n)
  if-Keeps Q true m n km kn = km refl
  if-Keeps Q false m n km kn = kn refl

  -- A step that is the same as one that keeps the invariant.
  pub eq-Keeps :
      {A : Type 0} (Q : A → Type 0) (m n : M W A)
      → ((w : W) → m w ≡ n w)
      → Keeps R P Q n
      → Keeps R P Q m
  eq-Keeps Q m n same kn = record { keeps = λ w p. rw (same w) (kn.keeps w p) }

  -- What is lifted touches no world.
  pub lifted : {A : Type 0} (r : Outcome ServiceError A) → r ≢ panic → Keeps R P Any (lift r)
  lifted (ok a) calm = lift-Keeps Any (ok a) tt
  lifted (err e) calm = lift-Keeps Any (err e) tt
  lifted panic calm = absurd (calm refl)

-- When nothing is said of a panic, every outcome is one that may come.
pub Any-outcome : {A : Type 0} (r : Outcome ServiceError A) → Comes Unit Any r
Any-outcome (ok a) = tt
Any-outcome (err e) = tt
Any-outcome panic = tt
