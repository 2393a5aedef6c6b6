-- ===== src/Parser/Skips.antt =====
-- What it means that a reader of parser.rs skips exactly the strings of a language, and the rules
-- by which `take`, counts and loops do.
pub mod Rules
use kv260_sigverify.Prelude.{
  ℕ, zero, suc, ◌+◌, ◌≤◌, ◌<◌, ◌^◌, ◌≡◌, ◌≢◌, refl, sym, ap, ◌∙◌, List, [], ◌∷◌, ◌++◌, String,
  append_assoc, Outcome, ok, panic, ◌>>=◌, >>=-eq-ok, >>=-eq-panic, inl, inr, arith, length, drop,
  length-append, All,
}
use kv260_sigverify.Parser.Types.{Parse, ParseError, IsByte}
use kv260_sigverify.Parser.Grammar.{Language, ◌⋆◌, Exactly, Repeated, Counted, ByteVector}
use kv260_sigverify.Parser.Compact.{decode_compact_u16}
use kv260_sigverify.Parser.Compact.Decode.{decode-IsCompact}
use kv260_sigverify.Parser.Compact.Sound.{Decoded, decode-Decoded, decode-ne-panic}
use kv260_sigverify.Parser.Reader.{take, repeat_skip}
use kv260_sigverify.Parser.Place.{
  At, At-advance, At-room, take-At, Taken, take-Taken, take-ne-panic,
}

abbrev pub Skipper : Type 0
Skipper = List ℕ → ℕ → Parse ℕ

-- What lies between `offset` and `next` is a string of `P`.
pub record Skipped (P : Language) (bytes : List ℕ) (offset next : ℕ) : Type 0 where
  pub part : List ℕ
  pub valid : P part
  pub next_eq : next ≡ offset + length part
  pub at : At bytes offset (part ++ drop next bytes)

-- The slice is one that Rust can hold (at most `isize::MAX` bytes), and its elements are bytes.
pub record IsSlice (bytes : List ℕ) : Type 0 where
  pub fits : length bytes < 2 ^ 63
  pub all_bytes : All IsByte bytes

pub record Skips (f : Skipper) (P : Language) : Type 0 where
  pub accepts :
      (bytes : List ℕ) (offset : ℕ) (part rest : List ℕ)
      → IsSlice bytes
      → P part
      → At bytes offset (part ++ rest)
      → f bytes offset ≡ ok (offset + length part)
  pub sound :
      (bytes : List ℕ) (offset next : ℕ)
      → IsSlice bytes
      → offset ≤ length bytes
      → f bytes offset ≡ ok next
      → Skipped P bytes offset next
  pub calm :
      (bytes : List ℕ) (offset : ℕ) → IsSlice bytes → offset ≤ length bytes → f bytes offset ≢ panic

pub Skipped-le :
    {P : Language} {bytes : List ℕ} {offset next : ℕ}
    → Skipped P bytes offset next
    → next ≤ length bytes
Skipped-le {bytes} {next} s =
    omega (arith, At-room s.at, length-append s.part (drop next bytes), s.next_eq)

-- One part after the other.
pub Skipped-join :
    {P Q : Language} {bytes : List ℕ} {offset mid next : ℕ}
    → Skipped P bytes offset mid
    → Skipped Q bytes mid next
    → Skipped (P ⋆ Q) bytes offset next
Skipped-join {bytes} {next} s t = record {
  part = s.part ++ t.part;
  valid = (s.part, t.part, s.valid, t.valid, refl);
  next_eq = omega (arith, length-append s.part t.part, s.next_eq, t.next_eq);
  at = record {
    within = s.at.within;
    behind =
        s.at.behind
        ∙ ap (λ r. s.part ++ r) t.at.behind
        ∙ sym (append_assoc s.part t.part (drop next bytes));
  };
}

abbrev pub and_then : Skipper → Skipper → Skipper
and_then f g bytes offset = f bytes offset >>= λ mid. g bytes mid

module _ {f g : Skipper} {P Q : Language} (skip_f : Skips f P) (skip_g : Skips g Q) where
  pub Skips-and_then : Skips (and_then f g) (P ⋆ Q)
  Skips-and_then = record { accepts = accepts; sound = sound; calm = calm }
    where
      accepts :
          (bytes : List ℕ) (offset : ℕ) (part rest : List ℕ)
          → IsSlice bytes
          → (P ⋆ Q) part
          → At bytes offset (part ++ rest)
          → and_then f g bytes offset ≡ ok (offset + length part)
      accepts bytes offset part rest slice (a, b, pa, qb, e) at =
          let at1 : At bytes offset (a ++ (b ++ rest)) = rw (e, append_assoc) at at in
          let first = skip_f.accepts bytes offset a (b ++ rest) slice pa at1 in
          let second =
            skip_g.accepts bytes (offset + length a) b rest slice qb
              (At-advance a (b ++ rest) at1) in
          rw (first, second, e) (ap ok (omega (arith, length-append a b)))

      sound :
          (bytes : List ℕ) (offset next : ℕ)
          → IsSlice bytes
          → offset ≤ length bytes
          → and_then f g bytes offset ≡ ok next
          → Skipped (P ⋆ Q) bytes offset next
      sound bytes offset next slice h e =
          let (mid, e1, e2) = >>=-eq-ok (f bytes offset) (λ mid. g bytes mid) e in
          let s = skip_f.sound bytes offset mid slice h e1 in
          Skipped-join s (skip_g.sound bytes mid next slice (Skipped-le s) e2)

      calm :
          (bytes : List ℕ) (offset : ℕ)
          → IsSlice bytes
          → offset ≤ length bytes
          → and_then f g bytes offset ≢ panic
      calm bytes offset slice h e = elim (>>=-eq-panic (f bytes offset) (λ mid. g bytes mid) e) [
        | inl e1 ↦ skip_f.calm bytes offset slice h e1
        | inr (mid, e1, e2) ↦
            skip_g.calm bytes mid slice (Skipped-le (skip_f.sound bytes offset mid slice h e1)) e2
      ]
