-- ===== src/Accelerator/Post.antt =====
-- What holds of the value of a step over a world, whatever the world, when it gives one.
use kv260_sigverify.Prelude.{◌≡◌, refl, ap, subst, String, ◌⊎◌, inl, inr, Outcome, ok, err, panic}
use kv260_sigverify.ServiceError.{ServiceError}
use kv260_sigverify.Accelerator.Host.{M, pure, fail, lift, or_fail, continue_with, ◌>>=◌}

abbrev pub Post : {W A : Type 0} → (A → Type 0) → M W A → Type 0
Post {W} {A} P m = (w w2 : W) (a : A) → m w ≡ (ok a, w2) → P a

pub bind-Post :
    {W A B : Type 0} (P : B → Type 0) (m : M W A) (f : A → M W B)
    → ((w w2 : W) (a : A) → m w ≡ (ok a, w2) → Post P (f a))
    → Post P (m >>= f)
bind-Post {W} {A} {B} P m f all w w2 b e = go (m w) refl e
  where
    go : (r : Outcome ServiceError A × W) → m w ≡ r → continue_with f r ≡ (ok b, w2) → P b
    go (ok a, w1) step rest = all w w1 a step w1 w2 b rest
    go (err x, w1) step rest = cc
    go (panic, w1) step rest = cc

pub pure-Post : {W A : Type 0} (P : A → Type 0) (a : A) → P a → Post {W = W} P (pure a)
pure-Post P a p w w2 b e = let same : a ≡ b = cc in subst P same p

pub fail-Post : {W A : Type 0} (P : A → Type 0) (x : ServiceError) → Post {W = W} P (fail x)
fail-Post P x w w2 b e = cc

pub lift-Post :
    {W A : Type 0} (P : A → Type 0) (r : Outcome ServiceError A)
    → ((a : A) → r ≡ ok a → P a)
    → Post {W = W} P (lift r)
lift-Post P r all w w2 b e = all b (ap (λ x. x.0) e)

pub or_fail-Post :
    {W A : Type 0} (P : A → Type 0) (on_error : String → ServiceError) (f : W → (String ⊎ A) × W)
    → ((w : W) (a : A) → (f w).0 ≡ inr a → P a)
    → Post P (or_fail on_error f)
or_fail-Post {W} {A} P on_error f all w w2 b e = go (f w).0 refl
  where
    go : (r : String ⊎ A) → (f w).0 ≡ r → P b
    go (inl text) r = let no = rw (r, or_fail) at e in cc
    go (inr a) r =
        let same : ok a ≡ ok b = ap (λ x. x.0) (rw (r, or_fail) at e) in
        let equal : a ≡ b = cc in subst P equal (all w a r)
