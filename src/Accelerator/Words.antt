-- ===== src/Accelerator/Words.antt =====
-- `write_bytes_as_u32_words` of accelerator.rs, over any word writer.
pub mod Ends
pub mod Fill
pub mod Padded
use kv260_sigverify.Prelude.{
  ℕ, zero, suc, ◌+◌, ◌-◌, ◌*◌, ◌/◌, ◌%◌, List, [], ◌∷◌, ◌++◌, Outcome, ok, panic, ltb, leb, ◌==◌,
  ◌&&◌, if◌then◌else◌, length, slice, drop, replicate, true, false,
}
use kv260_sigverify.Prelude.Format.{◌⧺◌, decimal}
use kv260_sigverify.ServiceError
use kv260_sigverify.Accelerator.LittleEndian.{full_word, last_word}
use kv260_sigverify.Accelerator.Host.{M, pure, fail, lift, ◌>>=◌, ◌>>◌}

module _ {W : Type 0} (write_word : ℕ → ℕ → M W (Unit {0})) where
  -- The first loop, over the words that lie whole in the data. It gives the offset where it ends.
  -- The first argument bounds the rounds; without it the result would be a panic.
  unfoldable pub full_words : ℕ → List ℕ → ℕ → ℕ → M W ℕ
  full_words zero bytes limit offset = lift panic
  full_words (suc fuel) bytes limit offset = elim (ltb offset limit) [
    | true ↦ lift (full_word bytes offset) >>= λ value.
        write_word offset value >> full_words fuel bytes limit (offset + 4)
    | false ↦ pure offset
  ]

  -- The rest of the data, filled up with zeros to a word.
  unfoldable pub tail_word : List ℕ → ℕ → M W ℕ
  tail_word bytes offset =
      if ltb offset (length bytes)
      then (lift (last_word bytes offset) >>= λ value. write_word offset value >> pure (offset + 4))
      else pure offset

  -- The last loop, over the rest of the region.
  unfoldable pub zero_words : ℕ → ℕ → ℕ → M W (Unit {0})
  zero_words zero region_size offset = lift panic
  zero_words (suc fuel) region_size offset = elim (ltb offset region_size) [
    | true ↦ write_word offset 0 >> zero_words fuel region_size (offset + 4)
    | false ↦ pure tt
  ]

  -- `data.len() & !0x3` is `length bytes / 4 * 4`. Each round moves by four bytes, so one round more
  -- than the region has bytes is enough for each loop.
  unfoldable pub write_bytes_as_u32_words : List ℕ → ℕ → M W (Unit {0})
  unfolding full_words tail_word zero_words
  write_bytes_as_u32_words bytes region_size =
      if ltb region_size (length bytes)
      then fail (
          ServiceError.limit "payload_too_large" (
            "payload is too large for the mapped region ("
            ⧺ decimal (length bytes)
            ⧺ " > "
            ⧺ decimal region_size
            ⧺ ")"))
      else if region_size % 4 == 0
      then (do
        o1 ← full_words (suc region_size) bytes (length bytes / 4 * 4) 0
        o2 ← tail_word bytes o1
        zero_words (suc region_size) region_size o2)
      else fail (
          ServiceError.unavailable "mmio_alignment"
            ("mapped region size is not 32-bit aligned (" ⧺ decimal region_size ⧺ ")"))
