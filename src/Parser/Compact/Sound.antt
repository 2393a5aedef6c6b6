-- ===== src/Parser/Compact/Sound.antt =====
-- Whatever `decode_compact_u16` accepts is an encoding of its result; and it never panics.
use kv260_sigverify.Prelude.{
  ℕ, zero, suc, ◌+◌, ◌-◌, ◌*◌, ◌^◌, ◌≤◌, ◌<◌, ◌≡◌, ◌≢◌, refl, sym, ap, ◌∙◌, List, [], ◌∷◌, ◌++◌,
  none, some, ok, err, panic, inl, inr, ◌⊎◌, arith, length, get_elem?, drop, All, All_get,
  Option-cases,
}
use kv260_sigverify.Prelude.Bits.{bit_and_bit7}
use kv260_sigverify.Parser.Types.{IsByte, parse_error}
use kv260_sigverify.Parser.Compact.{add_group, decode_loop, decode_compact_u16}
use kv260_sigverify.Parser.Compact.Decode.{IsCompact, one, two, three, group_added, inner_byte}
use kv260_sigverify.Parser.Place.{At, get-At}
use native.Mathlib.Decide.{dec_lt}

past_end :
    (bytes : List ℕ) (rounds offset value shift : ℕ)
    → get_elem? bytes offset ≡ none
    → decode_loop bytes (suc rounds) offset value shift ≡ err (parse_error "truncated compact-u16")
unfolding decode_loop
past_end bytes rounds offset value shift e = rw (e, decode_loop)

module _ (bytes : List ℕ) (all_bytes : All IsByte bytes) where
  -- One round that leads to a result: a last byte, or a byte with more behind it.
  record Last (offset value shift v next : ℕ) : Type 0 where
    a : ℕ
    low : a < 128
    here : At bytes offset (a ∷ drop (offset + 1) bytes)
    v_eq : v ≡ value + a * 2 ^ shift
    v_lt : v < 2 ^ 16
    next_eq : next ≡ offset + 1

  record Inner (rounds offset value shift v next : ℕ) : Type 0 where
    a : ℕ
    low : a < 128
    here : At bytes offset ((a + 128) ∷ drop (offset + 1) bytes)
    more : decode_loop bytes rounds (offset + 1) (value + a * 2 ^ shift) (shift + 7) ≡ ok (v, next)

  -- A last byte either fits 16 bits or is refused.
  last_fits :
      (rounds offset value shift a v next : ℕ)
      → get_elem? bytes offset ≡ some a
      → a < 128
      → value < 2 ^ shift
      → shift ≤ 14
      → decode_loop bytes (suc rounds) offset value shift ≡ ok (v, next)
      → (v ≡ value + a * 2 ^ shift) × (v < 2 ^ 16) × (next ≡ offset + 1)
  unfolding decode_loop
  last_fits rounds offset value shift a v next e low lo s h =
      ground (arith, bit_and_bit7 a, group_added value a shift lo s)

  high_byte :
      (rounds offset value shift b v next : ℕ)
      → get_elem? bytes offset ≡ some b
      → 128 ≤ b
      → value < 2 ^ shift
      → shift ≤ 14
      → decode_loop bytes (suc rounds) offset value shift ≡ ok (v, next)
      → Inner rounds offset value shift v next
  high_byte rounds offset value shift b v next found high lo s h =
      let byte : b < 256 = All_get IsByte bytes offset all_bytes found in
      let split : get_elem? bytes offset ≡ some (b - 128 + 128) = found ∙ ap some (omega arith) in
      record {
        a = b - 128;
        low = omega arith;
        here = get-At split;
        more =
            sym (inner_byte bytes rounds offset value shift (b - 128) split (omega arith) lo s) ∙ h;
      }

  round_cases :
      (rounds offset value shift v next : ℕ)
      → value < 2 ^ shift
      → shift ≤ 14
      → decode_loop bytes (suc rounds) offset value shift ≡ ok (v, next)
      → Last offset value shift v next ⊎ Inner rounds offset value shift v next
  round_cases rounds offset value shift v next lo s h =
      elim (Option-cases (get_elem? bytes offset)) [
        | inl missing ↦ cc (past_end bytes rounds offset value shift missing)
        | inr (b, found) ↦ elim (dec_lt b 128) [
          | yes low ↦
              let (v_eq, v_lt, next_eq) =
                last_fits rounds offset value shift b v next found low lo s h in
              inl (record {
                a = b;
                low = low;
                here = get-At found;
                v_eq = v_eq;
                v_lt = v_lt;
                next_eq = next_eq;
              })
          | no high ↦ inr (high_byte rounds offset value shift b v next found (omega arith) lo s h)
        ]
      ]

  -- What a successful decode has read.
  pub record Decoded (offset v next : ℕ) : Type 0 where
    pub enc : List ℕ
    pub fits : v < 2 ^ 16
    pub compact : IsCompact v enc
    pub next_eq : next ≡ offset + length enc
    pub at : At bytes offset (enc ++ drop next bytes)

  -- `At` of a byte and what follows it, put together with `At` of the next ones.
  join-At :
      (offset next b : ℕ) (tail : List ℕ)
      → At bytes offset (b ∷ drop (offset + 1) bytes)
      → At bytes (offset + 1) (tail ++ drop next bytes)
      → At bytes offset (b ∷ (tail ++ drop next bytes))
  join-At offset next b tail here after = record {
    within = here.within;
    behind = here.behind ∙ ap (λ r. b ∷ r) after.behind;
  }

  none_left :
      (offset value shift v next : ℕ) → decode_loop bytes 0 offset value shift ≡ ok (v, next) → ⊥
  unfolding decode_loop
  none_left offset value shift v next h = cc

  third :
      (offset a b v next : ℕ)
      → a < 128
      → b < 128
      → At bytes offset ((a + 128) ∷ drop (offset + 1) bytes)
      → At bytes (offset + 1) ((b + 128) ∷ drop (offset + 1 + 1) bytes)
      → decode_loop bytes 1 (offset + 1 + 1) (a + b * 2 ^ 7) 14 ≡ ok (v, next)
      → Decoded offset v next
  third offset a b v next ha hb at1 at2 h =
      elim (round_cases 0 (offset + 1 + 1) (a + b * 2 ^ 7) 14 v next (omega arith) (omega arith)
        h) [
          | inl last ↦ record {
            enc = (a + 128) ∷ (b + 128) ∷ last.a ∷ [];
            fits = last.v_lt;
            compact = three a b last.a ha hb (omega arith) (omega arith) refl;
            next_eq = omega arith;
            at =
                join-At offset next (a + 128) ((b + 128) ∷ last.a ∷ []) at1 (
                  join-At (offset + 1) next (b + 128) (last.a ∷ []) at2
                    (rw last.next_eq last.here));
          }
          | inr inner ↦ absurd (none_left _ _ _ _ _ inner.more)
        ]

  second :
      (offset a v next : ℕ)
      → a < 128
      → At bytes offset ((a + 128) ∷ drop (offset + 1) bytes)
      → decode_loop bytes 2 (offset + 1) a 7 ≡ ok (v, next)
      → Decoded offset v next
  second offset a v next ha at1 h =
      elim (round_cases 1 (offset + 1) a 7 v next (omega arith) (omega arith) h) [
        | inl last ↦ record {
          enc = (a + 128) ∷ last.a ∷ [];
          fits = last.v_lt;
          compact = two a last.a ha last.low (omega arith) refl;
          next_eq = omega arith;
          at = join-At offset next (a + 128) (last.a ∷ []) at1 (rw last.next_eq last.here);
        }
        | inr inner ↦ third offset a inner.a v next ha inner.low at1 inner.here inner.more
      ]

  -- Whatever decodes is an encoding of the result, and ends where the decoder says.
  pub decode-Decoded :
      (offset v next : ℕ) → decode_compact_u16 bytes offset ≡ ok (v, next) → Decoded offset v next
  unfolding decode_compact_u16
  decode-Decoded offset v next h =
      elim (round_cases 2 offset 0 0 v next (omega arith) (omega arith) h) [
        | inl last ↦ record {
          enc = last.a ∷ [];
          fits = last.v_lt;
          compact = one last.a last.low (omega arith) refl;
          next_eq = omega arith;
          at = rw last.next_eq last.here;
        }
        | inr inner ↦
            let start : 0 + inner.a * 2 ^ 0 ≡ inner.a = omega arith in
            second offset inner.a v next inner.low inner.here (rw start at inner.more)
      ]

-- The decoder never panics.
decode_loop-ne-panic :
    (bytes : List ℕ) (rounds offset value shift : ℕ)
    → decode_loop bytes rounds offset value shift ≢ panic
unfolding decode_loop
decode_loop-ne-panic bytes zero offset value shift h = cc
decode_loop-ne-panic bytes (suc rounds) offset value shift h =
    elim (Option-cases (get_elem? bytes offset)) [
      | inl missing ↦ cc (past_end bytes rounds offset value shift missing)
      | inr (b, found) ↦ ground (
        arith,
        found,
        decode_loop-ne-panic bytes rounds (offset + 1) (add_group value b shift) (shift + 7),
      )
    ]

pub decode-ne-panic : (bytes : List ℕ) (offset : ℕ) → decode_compact_u16 bytes offset ≢ panic
unfolding decode_compact_u16
decode-ne-panic bytes offset = decode_loop-ne-panic bytes 3 offset 0 0
