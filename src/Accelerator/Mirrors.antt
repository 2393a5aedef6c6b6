-- ===== src/Accelerator/Mirrors.antt =====
-- Steps of accelerator.rs that do the same over two worlds, of which one holds the other.
pub mod Watching
pub mod Searches
pub mod Words
pub mod Regions
pub mod Device
pub mod Batch
pub mod Outcomes
use kv260_sigverify.Prelude.{
  ◌≡◌, refl, ap, ◌∙◌, Bool, true, false, String, ◌⊎◌, inl, inr, Outcome, ok, err, panic,
  if◌then◌else◌,
}
use kv260_sigverify.ServiceError.{ServiceError}
use kv260_sigverify.Accelerator.Host.{
  M, pure, fail, lift, act, act_unit, or_fail, continue_with, ◌>>=◌,
}

-- What a step comes to, seen in the other world.
abbrev pub mirror :
    {W V A B : Type 0} → (W → V) → (A → B) → Outcome ServiceError A × W → Outcome ServiceError B × V
mirror strip f (ok a, w) = (ok (f a), strip w)
mirror strip f (err e, w) = (err e, strip w)
mirror strip f (panic, w) = (panic, strip w)

abbrev pub onto : {A B : Type 0} → (A → B) → String ⊎ A → String ⊎ B
onto f (inl error) = inl error
onto f (inr a) = inr (f a)

pub record Mirrors {W V A B : Type 0} (strip : W → V) (f : A → B) (m : M W A) (n : M V B)
    : Type 0 where
  pub mirrors : (w : W) → mirror strip f (m w) ≡ n (strip w)

abbrev pub id : {A : Type 0} → A → A
id a = a

module _ {W V : Type 0} {strip : W → V} where
  pub pure-Mirrors : {A B : Type 0} (f : A → B) (a : A) → Mirrors strip f (pure a) (pure (f a))
  pure-Mirrors f a = record { mirrors = λ w. refl }

  pub fail-Mirrors :
      {A B : Type 0} (f : A → B) (e : ServiceError) → Mirrors strip f (fail e) (fail e)
  fail-Mirrors f e = record { mirrors = λ w. refl }

  pub lift-Mirrors : {A : Type 0} (r : Outcome ServiceError A) → Mirrors strip id (lift r) (lift r)
  lift-Mirrors (ok a) = record { mirrors = λ w. refl }
  lift-Mirrors (err e) = record { mirrors = λ w. refl }
  lift-Mirrors panic = record { mirrors = λ w. refl }

  pub act-Mirrors :
      {A : Type 0} (c : W → A × W) (d : V → A × V)
      → ((w : W) → ((c w).0, strip (c w).1) ≡ d (strip w))
      → Mirrors strip id (act c) (act d)
  act-Mirrors c d same = record { mirrors = λ w. ap (λ r. (ok r.0, r.1)) (same w) }

  pub act_unit-Mirrors :
      (c : W → W) (d : V → V)
      → ((w : W) → strip (c w) ≡ d (strip w))
      → Mirrors strip id (act_unit c) (act_unit d)
  act_unit-Mirrors c d same = record { mirrors = λ w. ap (λ v. (ok tt, v)) (same w) }

  pub or_fail-Mirrors :
      {A B : Type 0} (f : A → B) (on_error : String → ServiceError) (c : W → (String ⊎ A) × W)
      (d : V → (String ⊎ B) × V)
      → ((w : W) → (onto f (c w).0, strip (c w).1) ≡ d (strip w))
      → Mirrors strip f (or_fail on_error c) (or_fail on_error d)
  or_fail-Mirrors {A} {B} f on_error c d same = record {
    mirrors = λ w. go (c w).0 (c w).1 ∙ ap failing (same w);
  }
    where
      failing : (String ⊎ B) × V → Outcome ServiceError B × V
      failing r = elim r.0 [ inl text ↦ (err (on_error text), r.1) | inr b ↦ (ok b, r.1) ]

      go :
          (r : String ⊎ A) (w : W)
          → mirror strip f (elim r [ inl text ↦ (err (on_error text), w) | inr a ↦ (ok a, w) ])
            ≡ failing (onto f r, strip w)
      go (inl text) w = refl
      go (inr a) w = refl

  pub bind-Mirrors :
      {A B C D : Type 0} (f : A → B) (g : C → D) (m : M W A) (n : M V B) (k : A → M W C)
      (l : B → M V D)
      → Mirrors strip f m n
      → ((a : A) → Mirrors strip g (k a) (l (f a)))
      → Mirrors strip g (m >>= k) (n >>= l)
  bind-Mirrors {A} f g m n k l same next = record {
    mirrors = λ w. go (m w) ∙ ap (continue_with l) (same.mirrors w);
  }
    where
      go :
          (r : Outcome ServiceError A × W)
          → mirror strip g (continue_with k r) ≡ continue_with l (mirror strip f r)
      go (ok a, w) = (next a).mirrors w
      go (err e, w) = refl
      go (panic, w) = refl

  pub if-Mirrors :
      {A B : Type 0} (f : A → B) (b : Bool) (m m2 : M W A) (n n2 : M V B)
      → Mirrors strip f m n
      → Mirrors strip f m2 n2
      → Mirrors strip f (if b then m else m2) (if b then n else n2)
  if-Mirrors f true m m2 n n2 same same2 = same
  if-Mirrors f false m m2 n n2 same same2 = same2
