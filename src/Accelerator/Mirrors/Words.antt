-- ===== src/Accelerator/Mirrors/Words.antt =====
-- `write_bytes_as_u32_words` of accelerator.rs does the same with word writers that do the same.
use kv260_sigverify.Prelude.{
  ℕ, zero, suc, ◌+◌, ◌*◌, ◌/◌, ◌%◌, List, ltb, ◌==◌, length, panic, inl, inr, Bool-cases,
}
use kv260_sigverify.Accelerator.Host.{M}
use kv260_sigverify.Accelerator.LittleEndian.{full_word, last_word}
use kv260_sigverify.Accelerator.Words.{full_words, tail_word, zero_words, write_bytes_as_u32_words}
use kv260_sigverify.Accelerator.Mirrors.{
  Mirrors, id, pure-Mirrors, fail-Mirrors, lift-Mirrors, bind-Mirrors, if-Mirrors,
}

module _ {W V : Type 0} {strip : W → V} (write : ℕ → ℕ → M W (Unit {0}))
    (write2 : ℕ → ℕ → M V (Unit {0}))
    (same : (offset value : ℕ) → Mirrors strip id (write offset value) (write2 offset value)) where
  full_words-Mirrors :
      (fuel : ℕ) (bytes : List ℕ) (limit offset : ℕ)
      → Mirrors strip id
          (full_words write fuel bytes limit offset)
          (full_words write2 fuel bytes limit offset)
  unfolding full_words
  full_words-Mirrors zero bytes limit offset = lift-Mirrors panic
  full_words-Mirrors (suc fuel) bytes limit offset =
      let next = full_words-Mirrors fuel bytes limit (offset + 4) in
      elim (Bool-cases (ltb offset limit)) [
        | inl more ↦
            rw (more, full_words)
              (bind-Mirrors id id _ _ _ _ (lift-Mirrors (full_word bytes offset))
                (λ value. bind-Mirrors id id _ _ _ _ (same offset value) (λ done. next)))
        | inr end ↦ rw (end, full_words) (pure-Mirrors id offset)
      ]

  tail_word-Mirrors :
      (bytes : List ℕ) (offset : ℕ)
      → Mirrors strip id (tail_word write bytes offset) (tail_word write2 bytes offset)
  unfolding tail_word
  tail_word-Mirrors bytes offset =
      if-Mirrors id (ltb offset (length bytes)) _ _ _ _
        (bind-Mirrors id id _ _ _ _ (lift-Mirrors (last_word bytes offset)) (λ value.
          bind-Mirrors id id _ _ _ _ (same offset value) (λ done. pure-Mirrors id (offset + 4))))
        (pure-Mirrors id offset)

  zero_words-Mirrors :
      (fuel region_size offset : ℕ)
      → Mirrors strip id
          (zero_words write fuel region_size offset)
          (zero_words write2 fuel region_size offset)
  unfolding zero_words
  zero_words-Mirrors zero region_size offset = lift-Mirrors panic
  zero_words-Mirrors (suc fuel) region_size offset =
      let next = zero_words-Mirrors fuel region_size (offset + 4) in
      elim (Bool-cases (ltb offset region_size)) [
        | inl more ↦
            rw (more, zero_words) (bind-Mirrors id id _ _ _ _ (same offset 0) (λ done. next))
        | inr end ↦ rw (end, zero_words) (pure-Mirrors id tt)
      ]

  pub write_bytes_as_u32_words-Mirrors :
      (bytes : List ℕ) (region_size : ℕ)
      → Mirrors strip id
          (write_bytes_as_u32_words write bytes region_size)
          (write_bytes_as_u32_words write2 bytes region_size)
  unfolding write_bytes_as_u32_words
  write_bytes_as_u32_words-Mirrors bytes region_size =
      if-Mirrors id (ltb region_size (length bytes)) _ _ _ _ (fail-Mirrors id _) (
        if-Mirrors id (region_size % 4 == 0) _ _ _ _
          (bind-Mirrors id id _ _ _ _
            (full_words-Mirrors (suc region_size) bytes (length bytes / 4 * 4) 0)
            (λ o1.
              bind-Mirrors id id _ _ _ _ (tail_word-Mirrors bytes o1)
                (λ o2. zero_words-Mirrors (suc region_size) region_size o2)))
          (fail-Mirrors id _))
