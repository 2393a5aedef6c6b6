-- ===== src/Parser/Place.antt =====
-- Where a reader stands in a byte slice, and what `take` and indexing of parser.rs do there.
use kv260_sigverify.Prelude.{
  ℕ, true, ◌+◌, ◌≤◌, ◌<◌, ◌^◌, ◌≡◌, ◌≢◌, refl, sym, ap, ◌∙◌, List, ◌∷◌, ◌++◌, String, ok, err,
  panic, arith, length, get_elem?, some, drop, length-append, length-drop, length-take, drop-add,
  drop-append, take-append, get_elem?_of_drop, drop_of_get_elem?, lt_of_get_elem?, take-append-drop,
  take as first, min, ltb, lt→ltb,
}
use native.Mathlib.Decide.{dec_le}
use kv260_sigverify.Prelude.Format.{◌⧺◌}
use kv260_sigverify.Parser.Types.{parse_error}
use kv260_sigverify.Parser.Reader.{take, usize_max}

-- `rest` is what stands at `offset` and behind it.
pub record At (bytes : List ℕ) (offset : ℕ) (rest : List ℕ) : Type 0 where
  pub within : offset ≤ length bytes
  pub behind : drop offset bytes ≡ rest

pub At-zero : (bytes : List ℕ) → At bytes 0 bytes
At-zero bytes = record { within = omega arith; behind = refl }

pub At-here :
    (bytes : List ℕ) {offset : ℕ} → offset ≤ length bytes → At bytes offset (drop offset bytes)
At-here bytes h = record { within = h; behind = refl }

pub At-room :
    {bytes : List ℕ} {offset : ℕ} {rest : List ℕ}
    → At bytes offset rest
    → offset + length rest ≡ length bytes
At-room {bytes} {offset} {rest} at =
    omega (arith, at.within, length-drop offset bytes, ap length at.behind)

pub At-advance :
    {bytes : List ℕ} {offset : ℕ} (part rest : List ℕ)
    → At bytes offset (part ++ rest)
    → At bytes (offset + length part) rest
At-advance {bytes} {offset} part rest at = record {
  within = omega (arith, At-room at, length-append part rest);
  behind = drop-add offset (length part) bytes ∙ rw at.behind (drop-append part rest);
}

pub At-get :
    {bytes : List ℕ} {offset b : ℕ} {rest : List ℕ}
    → At bytes offset (b ∷ rest)
    → get_elem? bytes offset ≡ some b
At-get {bytes} {offset} at = get_elem?_of_drop offset bytes at.behind

pub get-At :
    {bytes : List ℕ} {offset b : ℕ}
    → get_elem? bytes offset ≡ some b
    → At bytes offset (b ∷ drop (offset + 1) bytes)
get-At {bytes} {offset} h = record {
  within = omega (arith, lt_of_get_elem? bytes offset h);
  behind = drop_of_get_elem? offset bytes h;
}

module _ (bytes : List ℕ) (fits : length bytes < 2 ^ 63) where
  -- `take` reads `size` bytes that are there.
  pub take-At :
      (offset size : ℕ) (label : String) (part rest : List ℕ)
      → At bytes offset (part ++ rest)
      → length part ≡ size
      → take bytes offset size label ≡ ok (part, offset + size)
  unfolding take
  take-At offset size label part rest at e =
      ground (arith, At-room at, length-append part rest, at.behind, e, cut)
    where
      cut : first size (drop offset bytes) ≡ part
      cut = rw (at.behind, ← e) (take-append part rest)

  -- What a successful `take` has read.
  pub record Taken (offset size : ℕ) (part : List ℕ) (end : ℕ) : Type 0 where
    pub size_eq : length part ≡ size
    pub end_eq : end ≡ offset + size
    pub end_le : end ≤ length bytes
    pub at : At bytes offset (part ++ drop end bytes)

  take_fits :
      (offset size : ℕ) (label : String)
      → offset + size ≤ length bytes
      → take bytes offset size label ≡ ok (first size (drop offset bytes), offset + size)
  unfolding take
  take_fits offset size label h = ground arith

  pub take_short :
      (offset size : ℕ) (label : String)
      → offset ≤ length bytes
      → length bytes < offset + size
      → take bytes offset size label ≡ err (parse_error ("truncated " ⧺ label))
  unfolding take
  take_short offset size label h short =
      let over : ltb (length bytes) (min (offset + size) usize_max) ≡ true =
        lt→ltb _ _ (omega arith) in
      rw over

  take_parts :
      (offset size : ℕ) (label : String) (part : List ℕ) (end : ℕ)
      → offset ≤ length bytes
      → take bytes offset size label ≡ ok (part, end)
      → (end ≡ offset + size) × (end ≤ length bytes) × (part ≡ first size (drop offset bytes))
  take_parts offset size label part end h e = elim (dec_le (offset + size) (length bytes)) [
    | yes inside ↦ ground (arith, take_fits offset size label inside)
    | no outside ↦ cc (take_short offset size label h (omega arith))
  ]

  pub take-Taken :
      (offset size : ℕ) (label : String) (part : List ℕ) (end : ℕ)
      → offset ≤ length bytes
      → take bytes offset size label ≡ ok (part, end)
      → Taken offset size part end
  take-Taken offset size label part end h e =
      let (end_eq, end_le, part_eq) = take_parts offset size label part end h e in
      record {
        size_eq = omega (
          arith,
          ap length part_eq,
          length-take size (drop offset bytes),
          length-drop offset bytes,
        );
        end_eq = end_eq;
        end_le = end_le;
        at = record {
          within = h;
          behind =
              rw (part_eq, end_eq, drop-add offset size bytes)
                (sym (take-append-drop size (drop offset bytes)));
        };
      }

  pub take-ne-panic :
      (offset size : ℕ) (label : String)
      → offset ≤ length bytes
      → take bytes offset size label ≢ panic
  take-ne-panic offset size label h e = elim (dec_le (offset + size) (length bytes)) [
    | yes inside ↦ cc (take_fits offset size label inside)
    | no outside ↦ cc (take_short offset size label h (omega arith))
  ]
