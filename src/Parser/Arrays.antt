-- ===== src/Parser/Arrays.antt =====
-- The loops of parser.rs that collect arrays of one size: the account keys and the signatures.
use kv260_sigverify.Prelude.{
  ℕ, zero, suc, ◌+◌, ◌≤◌, ◌≡◌, ◌≢◌, refl, sym, ap, ◌∙◌, List, [], ◌∷◌, ◌++◌, String, append_assoc,
  ok, panic, >>=-eq-ok, >>=-eq-panic, inl, inr, arith, length, length-append, drop,
}
use kv260_sigverify.Parser.Types.{Parse, ParseError}
use kv260_sigverify.Parser.Grammar.{joined, Sized}
use kv260_sigverify.Parser.Reader.{take, take_arrays, to_array}
use kv260_sigverify.Parser.Place.{
  At, At-here, At-advance, take-At, Taken, take-Taken, take-ne-panic,
}
use kv260_sigverify.Parser.Skips.{IsSlice}

to_array_ok :
    (size : ℕ) (xs : List ℕ) → length xs ≡ size → to_array {E = ParseError} size xs ≡ ok xs
to_array_ok size xs e = ground arith

module _ (size : ℕ) (label : String) (bytes : List ℕ) (slice : IsSlice bytes) where
  -- The loop reads the arrays that stand at the offset.
  pub take_arrays-accepts :
      (entries : List (List ℕ)) (offset : ℕ) (rest : List ℕ)
      → Sized size entries
      → At bytes offset (joined entries ++ rest)
      → take_arrays size label (length entries) bytes offset
        ≡ ok (entries, offset + length (joined entries))
  unfolding take_arrays
  take_arrays-accepts [] offset rest sized at = ap (λ (n : ℕ). ok ([], n)) (omega arith)
  take_arrays-accepts (entry ∷ entries) offset rest (len, sized) at =
      let at1 : At bytes offset (entry ++ (joined entries ++ rest)) = rw append_assoc at at in
      let first =
        take-At bytes slice.fits offset size label entry (joined entries ++ rest) at1 len in
      let at2 : At bytes (offset + size) (joined entries ++ rest) =
        rw len at (At-advance entry (joined entries ++ rest) at1) in
      let later = take_arrays-accepts entries (offset + size) rest sized at2 in
      rw (first, to_array_ok size entry len, later)
        (ap (λ (n : ℕ). ok (entry ∷ entries, n))
          (omega (arith, len, length-append entry (joined entries))))

  -- What a successful loop has read.
  pub record Arrays (count offset : ℕ) (entries : List (List ℕ)) (next : ℕ) : Type 0 where
    pub count_eq : length entries ≡ count
    pub sized : Sized size entries
    pub next_eq : next ≡ offset + length (joined entries)
    pub at : At bytes offset (joined entries ++ drop next bytes)

  Arrays-nil : (offset : ℕ) → offset ≤ length bytes → Arrays 0 offset [] offset
  Arrays-nil offset h = record {
    count_eq = refl;
    sized = tt;
    next_eq = omega arith;
    at = At-here bytes h;
  }

  Arrays-cons :
      (count offset mid next : ℕ) (entry : List ℕ) (entries : List (List ℕ))
      → Taken bytes slice.fits offset size entry mid
      → Arrays count mid entries next
      → Arrays (suc count) offset (entry ∷ entries) next
  Arrays-cons count offset mid next entry entries taken tail = record {
    count_eq = ap suc tail.count_eq;
    sized = (taken.size_eq, tail.sized);
    next_eq =
        omega
          (arith, taken.end_eq, taken.size_eq, tail.next_eq, length-append entry (joined entries));
    at = record {
      within = taken.at.within;
      behind =
          taken.at.behind
          ∙ ap (λ r. entry ++ r) tail.at.behind
          ∙ sym (append_assoc entry (joined entries) (drop next bytes));
    };
  }

  Arrays-same :
      {count offset next next' : ℕ} {entries entries' : List (List ℕ)}
      → ◌≡◌ {A = Parse (List (List ℕ) × ℕ)} (ok (entries, next)) (ok (entries', next'))
      → Arrays count offset entries next
      → Arrays count offset entries' next'
  Arrays-same {next} {next'} {entries} {entries'} e a =
      let same_entries : entries ≡ entries' = cc in
      let same_next : next ≡ next' = cc in rw (← same_entries, ← same_next) a

  -- Each entry of a successful loop has `size` bytes, and they stand one behind the other.
  pub take_arrays-Arrays :
      (count offset : ℕ) (entries : List (List ℕ)) (next : ℕ)
      → offset ≤ length bytes
      → take_arrays size label count bytes offset ≡ ok (entries, next)
      → Arrays count offset entries next
  unfolding take_arrays
  take_arrays-Arrays zero offset entries next h e = Arrays-same e (Arrays-nil offset h)
  take_arrays-Arrays (suc count) offset entries next h e =
      let ((part, mid), e1, e2) = >>=-eq-ok (take bytes offset size label) _ e in
      let taken = take-Taken bytes slice.fits offset size label part mid h e1 in
      let plain = rw (to_array_ok size part taken.size_eq) at e2 in
      let ((others, end), e3, e4) = >>=-eq-ok (take_arrays size label count bytes mid) _ plain in
      Arrays-same e4 (
        Arrays-cons count offset mid end part others taken
          (take_arrays-Arrays count mid others end taken.end_le e3))

  pub take_arrays-ne-panic :
      (count offset : ℕ) → offset ≤ length bytes → take_arrays size label count bytes offset ≢ panic
  unfolding take_arrays
  take_arrays-ne-panic zero offset h e = cc
  take_arrays-ne-panic (suc count) offset h e =
      elim (>>=-eq-panic (take bytes offset size label) _ e) [
        | inl e1 ↦ take-ne-panic bytes slice.fits offset size label h e1
        | inr ((part, mid), e1, e2) ↦
            let taken = take-Taken bytes slice.fits offset size label part mid h e1 in
            let plain = rw (to_array_ok size part taken.size_eq) at e2 in
            elim (>>=-eq-panic (take_arrays size label count bytes mid) _ plain) [
              | inl e3 ↦ take_arrays-ne-panic count mid taken.end_le e3
              | inr (r, e3, e4) ↦ cc
            ]
      ]
