-- ===== src/Accelerator/Words/Padded.antt =====
-- A description of `write_bytes_as_u32_words` of accelerator.rs that has no loops: the data, filled up
-- with zeros to the size of the region, as little-endian words from the region's start on.
use kv260_sigverify.Prelude.{
  ℕ, zero, suc, ◌+◌, ◌-◌, ◌*◌, ◌/◌, ◌%◌, ◌≤◌, ◌<◌, ◌≡◌, refl, sym, ap, ◌∙◌, List, [], ◌∷◌, ◌++◌,
  ltb-false, lt→ltb, ==_iff, le→leb, ok, slice, length-take, length, drop, replicate, arith,
  drop-add, slice_rest, length-drop,
}
use kv260_sigverify.Accelerator.Host.{M, pure, ◌>>=◌, ◌>>◌}
use kv260_sigverify.Accelerator.Bind.{bind_assoc, bind_congr}
use kv260_sigverify.Accelerator.Words.Fill.{
  words_of, padded, zero_bytes, words_of-filled, words_of-padded, length-words_of,
}
use kv260_sigverify.Accelerator.LittleEndian.{from_le_bytes, full_word, last_word}
use kv260_sigverify.Accelerator.Words.{full_words, tail_word, zero_words, write_bytes_as_u32_words}

full_word_eq :
    (bytes : List ℕ) (offset : ℕ)
    → offset + 4 ≤ length bytes
    → full_word bytes offset ≡ ok (from_le_bytes (slice bytes offset (offset + 4)))
unfolding full_word
full_word_eq bytes offset fits =
    let four : length (slice bytes offset (offset + 4)) ≡ 4 =
      omega
        (arith, length-take (offset + 4 - offset) (drop offset bytes), length-drop offset bytes) in
    rw
      (
        le→leb offset (offset + 4) (omega arith),
        le→leb (offset + 4) (length bytes) fits,
        (==_iff _ 4).1 four,
      )
      refl

drop-zeros : (k n : ℕ) → drop {A = ℕ} k (replicate n 0) ≡ replicate (n - k) 0
drop-zeros zero n = let e : n ≡ n - 0 = omega arith in rw (← e) refl
drop-zeros (suc k) zero = let e : 0 - suc k ≡ 0 = omega arith in rw e refl
drop-zeros (suc k) (suc n) = let e : suc n - suc k ≡ n - k = omega arith in rw e (drop-zeros k n)

last_word_eq :
    (bytes : List ℕ) (offset : ℕ)
    → offset ≤ length bytes
    → length bytes ≤ offset + 4
    → last_word bytes offset
      ≡ ok (
          from_le_bytes
            (slice bytes offset (length bytes) ++ replicate (4 - (length bytes - offset)) 0))
unfolding last_word
last_word_eq bytes offset start short =
    let rest : length (slice bytes offset (length bytes)) ≡ length bytes - offset =
      omega (
        arith,
        length-take (length bytes - offset) (drop offset bytes),
        length-drop offset bytes,
      ) in
    rw
      (
        le→leb offset (length bytes) start,
        le→leb (length bytes) (length bytes) (omega arith),
        le→leb (length bytes - offset) 4 (omega arith),
        (==_iff _ (length bytes - offset)).1 rest,
        drop-zeros (length bytes - offset) 4,
      )
      refl

module _ {W : Type 0} (write_word : ℕ → ℕ → M W (Unit {0})) where
  -- The words at consecutive offsets.
  abbrev pub put_words : ℕ → List ℕ → M W (Unit {0})
  put_words offset [] = pure tt
  put_words offset (value ∷ values) = write_word offset value >> put_words (offset + 4) values

  put_words-append :
      (offset : ℕ) (xs ys : List ℕ) (w : W)
      → put_words offset (xs ++ ys) w
        ≡ (put_words offset xs >> put_words (offset + 4 * length xs) ys) w
  put_words-append offset [] ys w = let e : offset + 4 * 0 ≡ offset = omega arith in rw e refl
  put_words-append offset (x ∷ xs) ys w =
      let e : offset + 4 * suc (length xs) ≡ offset + 4 + 4 * length xs = omega arith in
      rw e (
        bind_congr (write_word offset x) _ _ (λ done w2. put_words-append (offset + 4) xs ys w2) w
        ∙ sym (bind_assoc (write_word offset x) _ _ w))

  zero_words_eq :
      (rounds fuel region_size offset : ℕ) (w : W)
      → rounds < fuel
      → region_size ≡ offset + 4 * rounds
      → zero_words write_word fuel region_size offset w ≡ put_words offset (replicate rounds 0) w
  unfolding zero_words
  zero_words_eq rounds zero region_size offset w lt e = absurd (omega arith)
  zero_words_eq zero (suc fuel) region_size offset w lt e =
      rw (ltb-false offset region_size (omega arith), zero_words) refl
  zero_words_eq (suc rounds) (suc fuel) region_size offset w lt e =
      rw (lt→ltb offset region_size (omega arith), zero_words)
        (bind_congr (write_word offset 0) _ _
          (λ done w2.
            zero_words_eq rounds fuel region_size (offset + 4) w2 (omega arith) (omega arith))
          w)

  full_words_eq :
      {B : Type 0} (k : ℕ → M W B) (rounds fuel : ℕ) (bytes : List ℕ) (limit offset : ℕ) (w : W)
      → rounds < fuel
      → limit ≡ offset + 4 * rounds
      → limit ≤ length bytes
      → (full_words write_word fuel bytes limit offset >>= k) w
        ≡ (put_words offset (words_of rounds (drop offset bytes)) >>= λ done. k limit) w
  unfolding full_words
  full_words_eq k rounds zero bytes limit offset w lt e inside = absurd (omega arith)
  full_words_eq k zero (suc fuel) bytes limit offset w lt e inside =
      rw (ltb-false offset limit (omega arith), full_words) (ap (λ o. k o w) (omega arith))
  full_words_eq k (suc rounds) (suc fuel) bytes limit offset w lt e inside =
      let four : offset + 4 - offset ≡ 4 = omega arith in
      rw (lt→ltb offset limit (omega arith), full_words)
        (rw (full_word_eq bytes offset (omega arith), four)
          (rw (← drop-add offset 4 bytes) (
            bind_assoc (write_word offset _) _ k w
            ∙ (bind_congr (write_word offset _) _ _
                  (λ done w2.
                    full_words_eq k rounds fuel bytes limit (offset + 4) w2 (omega arith)
                      (omega arith) inside)
                  w
                ∙ sym (bind_assoc (write_word offset _) _ _ w)))))

  -- Some bytes are left, fewer than a word.
  short_eq :
      (m : ℕ) (bytes rest : List ℕ) (fuel region_size offset : ℕ) (w : W)
      → rest ≡ drop offset bytes
      → length bytes ≡ offset + length rest
      → length rest < 4
      → 0 < length rest
      → region_size ≡ offset + 4 * suc m
      → length bytes ≤ region_size
      → suc m < fuel
      → (tail_word write_word bytes offset >>= λ o2. zero_words write_word fuel region_size o2) w
        ≡ put_words offset (words_of (suc m) (rest ++ replicate (region_size - length bytes) 0)) w
  unfolding tail_word
  short_eq m bytes rest fuel region_size offset w r n short some region fits enough =
      let z : region_size - length bytes ≡ 4 - length rest + 4 * m = omega arith in
      let f : 4 - (length bytes - offset) ≡ 4 - length rest = omega arith in
      rw z (
        rw (lt→ltb offset (length bytes) (omega arith), tail_word)
          (rw (last_word_eq bytes offset (omega arith) (omega arith), slice_rest bytes offset)
            (rw (← r) (
              rw f (
                bind_assoc (write_word offset _) _ _ w
                ∙ bind_congr (write_word offset _) _ _
                    (λ done w2.
                      zero_words_eq m fuel region_size (offset + 4) w2 (omega arith) (omega arith))
                    w
                ∙ ap (λ ws. put_words offset ws w) (sym (words_of-filled m rest (omega arith))))))))

  -- The part behind the last whole word, and the rest of the region.
  rest_eq :
      (m : ℕ) (bytes rest : List ℕ) (fuel region_size offset : ℕ) (w : W)
      → rest ≡ drop offset bytes
      → length bytes ≡ offset + length rest
      → length rest < 4
      → region_size ≡ offset + 4 * m
      → length bytes ≤ region_size
      → m < fuel
      → (tail_word write_word bytes offset >>= λ o2. zero_words write_word fuel region_size o2) w
        ≡ put_words offset (words_of m (rest ++ replicate (region_size - length bytes) 0)) w
  unfolding tail_word
  rest_eq m bytes [] fuel region_size offset w r n short region fits enough =
      let z : region_size - length bytes ≡ 4 * m = omega arith in
      rw (ltb-false offset (length bytes) (omega arith), tail_word)
        (rw z (rw (zero_bytes m) (zero_words_eq m fuel region_size offset w enough region)))
  rest_eq zero bytes (x ∷ rest) fuel region_size offset w r n short region fits enough =
      absurd (omega arith)
  rest_eq (suc m) bytes (x ∷ rest) fuel region_size offset w r n short region fits enough =
      short_eq m bytes (x ∷ rest) fuel region_size offset w r n short (omega arith) region fits
        enough

  all_eq :
      (n m : ℕ) (bytes : List ℕ) (region_size : ℕ) (w : W)
      → n ≡ length bytes / 4
      → region_size ≡ 4 * (n + m)
      → length bytes ≤ region_size
      → (full_words write_word (suc region_size) bytes (length bytes / 4 * 4) 0 >>= λ o1.
            tail_word write_word bytes o1 >>= λ o2.
            zero_words write_word (suc region_size) region_size o2)
          w
        ≡ put_words 0 (words_of (n + m) (padded bytes region_size)) w
  all_eq n m bytes region_size w quotient region fits =
      let place : 0 + 4 * length (words_of n bytes) ≡ length bytes / 4 * 4 =
        omega (arith, length-words_of n bytes) in
      let cut : 4 * n ≡ length bytes / 4 * 4 = omega arith in
      rw (words_of-padded n m bytes region_size (omega arith)) (
        full_words_eq _ n (suc region_size) bytes (length bytes / 4 * 4) 0 w (omega arith)
          (omega arith) (omega arith)
        ∙ (bind_congr (put_words 0 (words_of n bytes)) _ _
              (λ done w2.
                rest_eq m bytes (drop (4 * n) bytes) (suc region_size) region_size
                  (length bytes / 4 * 4) w2 (ap (λ o. drop o bytes) cut)
                  (omega (arith, length-drop (4 * n) bytes))
                  (omega (arith, length-drop (4 * n) bytes)) (omega arith) fits (omega arith))
              w
            ∙ rw (← place) (sym (put_words-append 0 (words_of n bytes) _ w))))

  -- For data that fits and a region of whole words, `write_bytes_as_u32_words` writes, one after the
  -- other from offset 0 on, the little-endian words of the data filled up with zeros to the region's
  -- size, whatever the word writer does, its errors and panics included.
  pub write_bytes_as_u32_words-put_words :
      (bytes : List ℕ) (region_size : ℕ) (w : W)
      → length bytes ≤ region_size
      → region_size % 4 ≡ 0
      → write_bytes_as_u32_words write_word bytes region_size w
        ≡ put_words 0 (words_of (region_size / 4) (padded bytes region_size)) w
  unfolding write_bytes_as_u32_words
  write_bytes_as_u32_words-put_words bytes region_size w fits whole =
      let n = length bytes / 4 in
      let m = region_size / 4 - n in
      let split : region_size / 4 ≡ n + m = omega arith in
      rw
        (
          ltb-false region_size (length bytes) fits,
          (==_iff (region_size % 4) 0).1 whole,
          write_bytes_as_u32_words,
        )
        (rw split (all_eq n m bytes region_size w refl (omega arith) fits))
