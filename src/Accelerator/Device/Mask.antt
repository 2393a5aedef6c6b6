-- ===== src/Accelerator/Device/Mask.antt =====
-- `mask_bits` of accelerator.rs, on the eight words of the result mask.
use kv260_sigverify.Prelude.{
  ℕ, zero, suc, ◌+◌, ◌*◌, ◌/◌, ◌%◌, ◌^◌, ◌≤◌, ◌<◌, List, [], ◌∷◌, Bool, not, Option, none, some,
  Outcome, ok, panic, bit_and, ◌==◌, ◌≡◌, refl, ap, length, get_elem?, get_elem?_of_lt, arith,
}
use kv260_sigverify.ServiceError.{ServiceError}
use kv260_sigverify.Accelerator.Device.{mask_bit, mask_bits_from, mask_bits}

-- The bit numbered `bit` of a mask, which is 0 past its last word.
abbrev pub word_at : List ℕ → ℕ → ℕ
word_at words i = elim (get_elem? words i) [ none ↦ 0 | some word ↦ word ]

abbrev pub bit_of : List ℕ → ℕ → Bool
bit_of words bit = not (bit_and (word_at words (bit / 32) / 2 ^ (bit % 32)) 0x1 == 0)

-- The bits from `bit` on, so many of them.
abbrev pub bits_of : List ℕ → ℕ → ℕ → List Bool
bits_of words bit zero = []
bits_of words bit (suc count) = bit_of words bit ∷ bits_of words (bit + 1) count

mask_bit-in_range :
    (words : List ℕ) (bit : ℕ)
    → bit < length words * 32
    → mask_bit words bit ≡ ok (bit_of words bit)
unfolding mask_bit
mask_bit-in_range words bit lt =
    let (word, e) = get_elem?_of_lt words (bit / 32) (omega arith) in
    go (get_elem? words (bit / 32)) word e
  where
    go :
        (o : Option ℕ) (word : ℕ)
        → o ≡ some word
        → ◌≡◌ {A = Outcome ServiceError Bool}
            (elim o [
              | none ↦ panic
              | some word ↦ ok (not (bit_and (word / 2 ^ (bit % 32)) 0x1 == 0))
            ])
            (ok (not (bit_and (elim o [ none ↦ 0 | some word ↦ word ] / 2 ^ (bit % 32)) 0x1 == 0)))
    go none word e = cc
    go (some value) word e = refl

mask_bits_from-in_range :
    (words : List ℕ) (bit count : ℕ)
    → bit + count ≤ length words * 32
    → mask_bits_from words bit count ≡ ok (bits_of words bit count)
unfolding mask_bits_from
mask_bits_from-in_range words bit zero le = refl
mask_bits_from-in_range words bit (suc count) le =
    rw
      (
        mask_bit-in_range words bit (omega arith),
        mask_bits_from-in_range words (bit + 1) count (omega arith),
        mask_bits_from,
      )
      refl

-- For a count of at most 32 jobs for each word of the mask, `mask_bits` does not index out of range:
-- it gives, in order, the bits numbered from 0 up to the count.
pub mask_bits-bits_of :
    (words : List ℕ) (count : ℕ)
    → count ≤ length words * 32
    → mask_bits words count ≡ ok (bits_of words 0 count)
unfolding mask_bits
mask_bits-bits_of words count le = mask_bits_from-in_range words 0 count (omega arith)

pub length-bits_of : (words : List ℕ) (bit count : ℕ) → length (bits_of words bit count) ≡ count
length-bits_of words bit zero = refl
length-bits_of words bit (suc count) = ap suc (length-bits_of words (bit + 1) count)
