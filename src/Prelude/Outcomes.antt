-- ===== src/Prelude/Outcomes.antt =====
-- What a Rust call comes to: a value, an error value, or a panic (an index out of range, a failed
-- `expect`). The error type is a parameter, since the parser and the service have their own.
use mathlib.Core.Path.{◌≡◌, refl}
use mathlib.Core.Logic.{◌⊎◌, inl, inr}

pub data Outcome {ℓ} (E A : Type ℓ) : Type ℓ where
  ok : A → Outcome E A
  err : E → Outcome E A
  panic : Outcome E A

-- The `?` operator, and `and_then`.
infixl 5 ◌>>=◌ ◌>>◌
abbrev pub ◌>>=◌ {ℓ} : {E A B : Type ℓ} → Outcome E A → (A → Outcome E B) → Outcome E B
panic >>= next = panic
err error >>= next = err error
ok value >>= next = next value

abbrev pub ◌>>◌ : {E B : Type 0} → Outcome E (Unit {0}) → Outcome E B → Outcome E B
first >> rest = first >>= λ done. rest

abbrev pub map_err {ℓ} : {E F A : Type ℓ} → (E → F) → Outcome E A → Outcome F A
map_err f (ok a) = ok a
map_err f (err e) = err (f e)
map_err f panic = panic

-- A bind that gives a value had one to go on with.
pub >>=-eq-ok {ℓ} :
    {E A B : Type ℓ} (first : Outcome E A) (next : A → Outcome E B) {value : B}
    → (first >>= next) ≡ ok value
    → (x : A) × (first ≡ ok x) × (next x ≡ ok value)
>>=-eq-ok panic next whole = cc
>>=-eq-ok (err error) next whole = cc
>>=-eq-ok (ok x) next whole = (x, refl, whole)

-- A bind panics where its first part does, or where the rest does.
pub >>=-eq-panic {ℓ} :
    {E A B : Type ℓ} (m : Outcome E A) (f : A → Outcome E B)
    → (m >>= f) ≡ panic
    → (m ≡ panic) ⊎ ((a : A) × (m ≡ ok a) × (f a ≡ panic))
>>=-eq-panic (ok a) f h = inr (a, refl, h)
>>=-eq-panic (err e) f h = cc
>>=-eq-panic panic f h = inl refl

pub Outcome-cases {ℓ} :
    {E A : Type ℓ} (m : Outcome E A)
    → ((a : A) × (m ≡ ok a)) ⊎ (((e : E) × (m ≡ err e)) ⊎ (m ≡ panic))
Outcome-cases (ok a) = inl (a, refl)
Outcome-cases (err e) = inr (inl (e, refl))
Outcome-cases panic = inr (inr refl)

pub >>=_assoc {ℓ} :
    {E A B C : Type ℓ} (m : Outcome E A) (f : A → Outcome E B) (g : B → Outcome E C)
    → ((m >>= f) >>= g) ≡ (m >>= λ a. f a >>= g)
>>=_assoc (ok a) f g = refl
>>=_assoc (err e) f g = refl
>>=_assoc panic f g = refl
