-- ===== src/Accelerator/Words/Fill.antt =====
-- Byte strings filled up with zeros, as the little-endian words that accelerator.rs writes.
use kv260_sigverify.Prelude.{
  ℕ, zero, suc, ◌+◌, ◌-◌, ◌*◌, ◌≤◌, ◌≡◌, refl, ap, List, [], ◌∷◌, ◌++◌, length, take, drop,
  replicate, arith, drop-add,
}
use kv260_sigverify.Accelerator.LittleEndian.{from_le_bytes}

-- So many words of a byte string, the first of them from its first four bytes.
abbrev pub words_of : ℕ → List ℕ → List ℕ
words_of zero bytes = []
words_of (suc n) bytes = from_le_bytes (take 4 bytes) ∷ words_of n (drop 4 bytes)

abbrev pub padded : List ℕ → ℕ → List ℕ
padded bytes region_size = bytes ++ replicate (region_size - length bytes) 0

pub words_of-append :
    (n m : ℕ) (bytes : List ℕ)
    → words_of (n + m) bytes ≡ words_of n bytes ++ words_of m (drop (4 * n) bytes)
words_of-append zero m bytes = let e : zero + m ≡ m = omega arith in rw e
words_of-append (suc n) m bytes =
    let e : suc n + m ≡ suc (n + m) = omega arith in
    let d : 4 * suc n ≡ 4 + 4 * n = omega arith in
    rw (e, d)
      (rw (drop-add 4 (4 * n) bytes)
        (ap (λ ws. from_le_bytes (take 4 bytes) ∷ ws) (words_of-append n m (drop 4 bytes))))

pub zero_bytes : (n : ℕ) → words_of n (replicate (4 * n) 0) ≡ replicate n 0
zero_bytes zero = refl
zero_bytes (suc n) =
    let d : 4 * suc n ≡ suc (suc (suc (suc (4 * n)))) = omega arith in
    rw d (ap (λ ws. 0 ∷ ws) (zero_bytes n))

-- Lists cut and filled up: what stands in front of, and behind, a place inside the first of two parts.
pub words_of_prefix :
    (n : ℕ) (xs ys : List ℕ) → 4 * n ≤ length xs → words_of n (xs ++ ys) ≡ words_of n xs
words_of_prefix zero xs ys le = refl
words_of_prefix (suc n) (a ∷ b ∷ c ∷ d ∷ xs) ys le =
    ap (λ ws. from_le_bytes (a ∷ b ∷ c ∷ d ∷ []) ∷ ws) (words_of_prefix n xs ys (omega arith))
words_of_prefix (suc n) (a ∷ b ∷ c ∷ []) ys le = absurd (omega arith)
words_of_prefix (suc n) (a ∷ b ∷ []) ys le = absurd (omega arith)
words_of_prefix (suc n) (a ∷ []) ys le = absurd (omega arith)
words_of_prefix (suc n) [] ys le = absurd (omega arith)

pub drop_inside : (n : ℕ) (xs ys : List ℕ) → n ≤ length xs → drop n (xs ++ ys) ≡ drop n xs ++ ys
drop_inside zero xs ys le = refl
drop_inside (suc n) [] ys le = absurd (omega arith)
drop_inside (suc n) (x ∷ xs) ys le = drop_inside n xs ys (omega arith)

drop_zeros : (n more : ℕ) → drop {A = ℕ} n (replicate (n + more) 0) ≡ replicate more 0
drop_zeros zero more = let e : zero + more ≡ more = omega arith in rw e
drop_zeros (suc n) more =
    let e : suc n + more ≡ suc (n + more) = omega arith in rw e (drop_zeros n more)

take_zeros : (n more : ℕ) → take {A = ℕ} n (replicate (n + more) 0) ≡ replicate n 0
take_zeros zero more = refl
take_zeros (suc n) more =
    let e : suc n + more ≡ suc (n + more) = omega arith in
    rw e (ap (λ zs. 0 ∷ zs) (take_zeros n more))

take_filled :
    (n more : ℕ) (xs : List ℕ)
    → length xs ≤ n
    → take n (xs ++ replicate (n - length xs + more) 0) ≡ xs ++ replicate (n - length xs) 0
take_filled n more [] le = let e : n - 0 ≡ n = omega arith in rw e (take_zeros n more)
take_filled zero more (x ∷ xs) le = absurd (omega arith)
take_filled (suc n) more (x ∷ xs) le =
    let e : suc n - suc (length xs) ≡ n - length xs = omega arith in
    rw e (ap (λ zs. x ∷ zs) (take_filled n more xs (omega arith)))

drop_filled :
    (n more : ℕ) (xs : List ℕ)
    → length xs ≤ n
    → drop n (xs ++ replicate (n - length xs + more) 0) ≡ replicate more 0
drop_filled n more [] le = let e : n - 0 ≡ n = omega arith in rw e (drop_zeros n more)
drop_filled zero more (x ∷ xs) le = absurd (omega arith)
drop_filled (suc n) more (x ∷ xs) le =
    let e : suc n - suc (length xs) ≡ n - length xs = omega arith in
    rw e (drop_filled n more xs (omega arith))

-- The words of a string that is short of a word, filled up with zeros.
pub words_of-filled :
    (m : ℕ) (xs : List ℕ)
    → length xs ≤ 4
    → words_of (suc m) (xs ++ replicate (4 - length xs + 4 * m) 0)
      ≡ from_le_bytes (xs ++ replicate (4 - length xs) 0) ∷ replicate m 0
words_of-filled m xs le =
    rw (take_filled 4 (4 * m) xs le, drop_filled 4 (4 * m) xs le)
      (ap (λ ws. from_le_bytes (xs ++ replicate (4 - length xs) 0) ∷ ws) (zero_bytes m))

pub length-words_of : (n : ℕ) (bytes : List ℕ) → length (words_of n bytes) ≡ n
length-words_of zero bytes = refl
length-words_of (suc n) bytes = ap suc (length-words_of n (drop 4 bytes))

-- The words of a padded string, apart into the whole words of the string and the others.
pub words_of-padded :
    (n m : ℕ) (bytes : List ℕ) (region_size : ℕ)
    → 4 * n ≤ length bytes
    → words_of (n + m) (padded bytes region_size)
      ≡ words_of n bytes
        ++ words_of m (drop (4 * n) bytes ++ replicate (region_size - length bytes) 0)
words_of-padded n m bytes region_size le = rw (words_of-append n m (padded bytes region_size)) (
    rw (words_of_prefix n bytes (replicate (region_size - length bytes) 0) le)
      (rw (drop_inside (4 * n) bytes (replicate (region_size - length bytes) 0) le)))
