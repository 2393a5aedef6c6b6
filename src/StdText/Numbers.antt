-- ===== src/StdText/Numbers.antt =====
-- What `u64::from_str_radix` gives.
use kv260_sigverify.Prelude.{
  ℕ, ◌+◌, ◌*◌, ◌≡◌, ◌≢◌, panic, refl, String, Option, none, some, ltb, ◌==◌, Bool-cases, inl, inr,
}
use Prim.Native.Char.{Char, code}
use kv260_sigverify.StdText.{radix_digits, to_digit, from_str_radix, u64_max}

digit_step-ne-panic :
    (radix value : ℕ) (c : Char) (s : String) (o : Option ℕ)
    → to_digit radix (code c) ≡ o
    → ((next : ℕ) → radix_digits radix next s ≢ panic)
    → radix_digits radix value (String.◌∷◌ c s) ≢ panic
unfolding radix_digits
digit_step-ne-panic radix value c s none d rest e = let no = rw (d, radix_digits) at e in cc
digit_step-ne-panic radix value c s (some k) d rest e =
    elim (Bool-cases (ltb u64_max (value * radix + k))) [
      | inl large ↦ let no = rw (d, large, radix_digits) at e in cc
      | inr fits ↦ rest (value * radix + k) (rw (d, fits, radix_digits) at e)
    ]

radix_digits-ne-panic : (radix value : ℕ) (s : String) → radix_digits radix value s ≢ panic
unfolding radix_digits
radix_digits-ne-panic radix value String.[] e = cc
radix_digits-ne-panic radix value (String.◌∷◌ c s) e =
    digit_step-ne-panic radix value c s (to_digit radix (code c)) refl
      (λ next. radix_digits-ne-panic radix next s) e

pub from_str_radix-ne-panic : (radix : ℕ) (s : String) → from_str_radix radix s ≢ panic
unfolding from_str_radix
from_str_radix-ne-panic radix String.[] e = cc
from_str_radix-ne-panic radix (String.◌∷◌ c String.[]) e =
    radix_digits-ne-panic radix 0 (String.◌∷◌ c String.[]) e
from_str_radix-ne-panic radix (String.◌∷◌ c (String.◌∷◌ d s)) e =
    elim (Bool-cases (code c == b'+')) [
      | inl plus ↦ radix_digits-ne-panic radix 0 (String.◌∷◌ d s) (rw plus at e)
      | inr other ↦ radix_digits-ne-panic radix 0 (String.◌∷◌ c (String.◌∷◌ d s)) (rw other at e)
    ]
