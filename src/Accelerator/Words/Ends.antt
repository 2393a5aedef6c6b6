-- ===== src/Accelerator/Words/Ends.antt =====
-- `write_bytes_as_u32_words` of accelerator.rs ends within the bounds of its loops and of its slices.
use kv260_sigverify.Prelude.{
  ℕ, ◌+◌, ◌/◌, ◌%◌, ◌≢◌, refl, List, [], ◌∷◌, Outcome, ok, err, panic, ltb, ltb_false_lem, ◌==◌,
  ==_iff, length, Bool-cases, inl, inr,
}
use kv260_sigverify.ServiceError.{ServiceError}
use kv260_sigverify.Accelerator.Host.{M, continue_with, ◌>>=◌}
use kv260_sigverify.Accelerator.Words.{write_bytes_as_u32_words}
use kv260_sigverify.Accelerator.Words.Fill.{words_of, padded}
use kv260_sigverify.Accelerator.Words.Padded.{put_words, write_bytes_as_u32_words-put_words}

bind-ne-panic :
    {W A B : Type 0} (m : M W A) (f : A → M W B) (w : W)
    → (m w).0 ≢ panic
    → ((a : A) (w2 : W) → (f a w2).0 ≢ panic)
    → ((m >>= f) w).0 ≢ panic
bind-ne-panic {W} {A} m f w calm rest = go (m w) calm
  where
    go : (r : Outcome ServiceError A × W) → r.0 ≢ panic → (continue_with f r).0 ≢ panic
    go (ok a, w2) calm = rest a w2
    go (err x, w2) calm = λ e. cc
    go (panic, w2) calm = λ e. calm refl

module _ {W : Type 0} (write_word : ℕ → ℕ → M W (Unit {0}))
    (calm : (offset value : ℕ) (w : W) → (write_word offset value w).0 ≢ panic) where
  put_words-ne-panic :
      (offset : ℕ) (values : List ℕ) (w : W) → (put_words write_word offset values w).0 ≢ panic
  put_words-ne-panic offset [] w = λ e. cc
  put_words-ne-panic offset (value ∷ values) w =
      bind-ne-panic (write_word offset value) _ w (calm offset value w)
        (λ done w2. put_words-ne-panic (offset + 4) values w2)

  -- With a word writer that does not panic, `write_bytes_as_u32_words` does not panic for any data and
  -- any region: each of its loops ends within the rounds that it is given, and no slice of the data or
  -- of the last word is out of range or of the wrong length for its array.
  pub write_bytes_as_u32_words-ne-panic :
      (bytes : List ℕ) (region_size : ℕ) (w : W)
      → (write_bytes_as_u32_words write_word bytes region_size w).0 ≢ panic
  unfolding write_bytes_as_u32_words
  write_bytes_as_u32_words-ne-panic bytes region_size w =
      elim (Bool-cases (ltb region_size (length bytes))) [
        | inl over ↦ rw (over, write_bytes_as_u32_words) (λ e. cc)
        | inr fits ↦ elim (Bool-cases (region_size % 4 == 0)) [
          | inr odd ↦ rw (fits, odd, write_bytes_as_u32_words) (λ e. cc)
          | inl even ↦
              rw
                (write_bytes_as_u32_words-put_words write_word bytes region_size w
                  (ltb_false_lem _ _ fits) ((==_iff _ _).0 even))
                (put_words-ne-panic 0 (words_of (region_size / 4) (padded bytes region_size)) w)
        ]
      ]
