-- ===== src/Parser/Skips/Rules.antt =====
-- The rules for `take`, for a count read first, and for the loops of parser.rs.
use kv260_sigverify.Prelude.{
  ℕ, zero, suc, ◌+◌, ◌≤◌, ◌<◌, ◌^◌, ◌≡◌, ◌≢◌, refl, ap, List, [], ◌++◌, String, append_assoc, ok,
  panic, ◌>>=◌, >>=-eq-ok, >>=-eq-panic, inl, inr, arith, length, length-append,
}
use kv260_sigverify.Parser.Grammar.{Language, ◌⋆◌, Exactly, Repeated}
use kv260_sigverify.Parser.Compact.{decode_compact_u16}
use kv260_sigverify.Parser.Compact.Decode.{IsCompact, decode-IsCompact}
use kv260_sigverify.Parser.Compact.Sound.{decode-Decoded, decode-ne-panic}
use kv260_sigverify.Parser.Reader.{take, repeat_skip}
use kv260_sigverify.Parser.Place.{At, At-here, At-advance, take-At, take-Taken, take-ne-panic}
use kv260_sigverify.Parser.Skips.{
  Skipper, Skipped, Skipped-le, Skipped-join, IsSlice, Skips, Skips-and_then,
}

abbrev pub take_exactly : ℕ → String → Skipper
take_exactly n label bytes offset = take bytes offset n label >>= λ r. ok r.1

pub Skips-exactly : (n : ℕ) (label : String) → Skips (take_exactly n label) (Exactly n)
Skips-exactly n label = record {
  accepts = λ bytes offset part rest slice len at.
      rw (take-At bytes slice.fits offset n label part rest at len) (ap ok (omega arith));
  sound = sound;
  calm = calm;
}
  where
    sound :
        (bytes : List ℕ) (offset next : ℕ)
        → IsSlice bytes
        → offset ≤ length bytes
        → take_exactly n label bytes offset ≡ ok next
        → Skipped (Exactly n) bytes offset next
    sound bytes offset next slice h e =
        let ((part, end), e1, e2) = >>=-eq-ok (take bytes offset n label) (λ r. ok r.1) e in
        let taken = take-Taken bytes slice.fits offset n label part end h e1 in
        let same : end ≡ next = cc in
        record {
          part = part;
          valid = taken.size_eq;
          next_eq = omega arith;
          at = rw (← same) taken.at;
        }

    calm :
        (bytes : List ℕ) (offset : ℕ)
        → IsSlice bytes
        → offset ≤ length bytes
        → take_exactly n label bytes offset ≢ panic
    calm bytes offset slice h e = elim (>>=-eq-panic (take bytes offset n label) (λ r. ok r.1) e) [
      | inl e1 ↦ take-ne-panic bytes slice.fits offset n label h e1
      | inr (r, e1, e2) ↦ cc
    ]

-- A count `n`, and what `f n` skips.
abbrev pub counted_by : (ℕ → Skipper) → Skipper
counted_by f bytes offset = decode_compact_u16 bytes offset >>= λ r. f r.0 bytes r.1

abbrev pub CountedBy : (ℕ → Language) → Language
CountedBy P bytes = (n : ℕ) × (n < 2 ^ 16) × (IsCompact n ⋆ P n) bytes

module _ {f : ℕ → Skipper} {P : ℕ → Language} (skips : (n : ℕ) → Skips (f n) (P n)) where
  pub Skips-counted_by : Skips (counted_by f) (CountedBy P)
  Skips-counted_by = record { accepts = accepts; sound = sound; calm = calm }
    where
      accepts :
          (bytes : List ℕ) (offset : ℕ) (part rest : List ℕ)
          → IsSlice bytes
          → CountedBy P part
          → At bytes offset (part ++ rest)
          → counted_by f bytes offset ≡ ok (offset + length part)
      accepts bytes offset part rest slice (n, n_lt, (a, b, compact, valid, e)) at =
          let at1 : At bytes offset (a ++ (b ++ rest)) = rw (e, append_assoc) at at in
          let first = decode-IsCompact bytes offset n a (b ++ rest) n_lt compact at1 in
          let second =
            (skips n).accepts bytes (offset + length a) b rest slice valid
              (At-advance a (b ++ rest) at1) in
          rw (first, second, e) (ap ok (omega (arith, length-append a b)))

      counted_at :
          (bytes : List ℕ) (offset n mid : ℕ)
          → IsSlice bytes
          → offset ≤ length bytes
          → decode_compact_u16 bytes offset ≡ ok (n, mid)
          → (n < 2 ^ 16) × Skipped (IsCompact n) bytes offset mid
      counted_at bytes offset n mid slice h e =
          let d = decode-Decoded bytes slice.all_bytes offset n mid e in
          (d.fits, record { part = d.enc; valid = d.compact; next_eq = d.next_eq; at = d.at })

      sound :
          (bytes : List ℕ) (offset next : ℕ)
          → IsSlice bytes
          → offset ≤ length bytes
          → counted_by f bytes offset ≡ ok next
          → Skipped (CountedBy P) bytes offset next
      sound bytes offset next slice h e =
          let ((n, mid), e1, e2) =
            >>=-eq-ok (decode_compact_u16 bytes offset) (λ r. f r.0 bytes r.1) e in
          let (n_lt, s) = counted_at bytes offset n mid slice h e1 in
          let both = Skipped-join s ((skips n).sound bytes mid next slice (Skipped-le s) e2) in
          record {
            part = both.part;
            valid = (n, n_lt, both.valid);
            next_eq = both.next_eq;
            at = both.at;
          }

      calm :
          (bytes : List ℕ) (offset : ℕ)
          → IsSlice bytes
          → offset ≤ length bytes
          → counted_by f bytes offset ≢ panic
      calm bytes offset slice h e =
          elim (>>=-eq-panic (decode_compact_u16 bytes offset) (λ r. f r.0 bytes r.1) e) [
            | inl e1 ↦ decode-ne-panic bytes offset e1
            | inr ((n, mid), e1, e2) ↦
                (skips n).calm bytes mid slice
                  (Skipped-le (counted_at bytes offset n mid slice h e1).1) e2
          ]

module _ {f : Skipper} {P : Language} (skips : Skips f P) where
  Skips-nothing : Skips (repeat_skip f 0) (Repeated P 0)
  unfolding repeat_skip
  Skips-nothing = record {
    accepts = λ bytes offset part rest slice empty at. ap ok (omega (arith, ap length empty));
    sound = λ bytes offset next slice h e. record {
      part = [];
      valid = refl;
      next_eq = ground arith;
      at = let same : offset ≡ next = cc in rw (← same) (At-here bytes h);
    };
    calm = λ bytes offset slice h e. cc;
  }

  pub Skips-repeat : (n : ℕ) → Skips (repeat_skip f n) (Repeated P n)
  unfolding repeat_skip
  Skips-repeat zero = Skips-nothing
  Skips-repeat (suc n) = Skips-and_then skips (Skips-repeat n)
