-- ===== src/Accelerator/Trace/Memory/Words.antt =====
-- Which byte the words that accelerator.rs writes to a region leave at each of its places.
use kv260_sigverify.Prelude.{
  ℕ, zero, suc, ◌+◌, ◌-◌, ◌*◌, ◌≤◌, ◌<◌, ◌≡◌, refl, ap, subst, ◌∙◌, List, [], ◌∷◌, String, true,
  none, some, inl, inr, leb, ltb, ltb→lt, ltb_false_lem, lt→ltb, length, get_elem?, All, Bool-cases,
  arith,
}
use text.Mathlib.Text.{◌==◌ as same_text}
use text.Mathlib.TextEquality.{eq_iff}
use kv260_sigverify.Parser.Types.{IsByte}
use kv260_sigverify.Accelerator.Types.{RegionSpec}
use kv260_sigverify.Accelerator.LittleEndian.{from_le_bytes}
use kv260_sigverify.Accelerator.Words.Fill.{words_of}
use kv260_sigverify.Accelerator.Trace.{Write, write_at, writes_from}
use kv260_sigverify.Accelerator.Trace.Memory.{
  byte_of, byte_at, Misses, byte_at-missed, byte_at-later, write_at-Misses,
}

later-Misses :
    (spec : RegionSpec) (path : String) (address offset : ℕ) (values : List ℕ)
    → address < spec.offset + offset
    → All (Misses path address) (writes_from spec offset values)
later-Misses spec path address offset [] below = tt
later-Misses spec path address offset (value ∷ values) below = (
  write_at-Misses spec path address offset value (inr (inl below)),
  later-Misses spec path address (offset + 4) values (omega arith),
)

-- A byte of the word that the last of the writes to its place left.
pub byte_at-newest :
    (spec : RegionSpec) (offset value k : ℕ) (later : List Write)
    → k < 4
    → All (Misses spec.path (spec.offset + offset + k)) later
    → byte_at (write_at spec offset value ∷ later) spec.path (spec.offset + offset + k)
      ≡ some (byte_of value k)
byte_at-newest spec offset value k later lt all =
    let place = spec.offset + offset + k in
    let none_later : byte_at later spec.path place ≡ none =
      byte_at-missed spec.path place later all in
    let same : same_text spec.path spec.path ≡ true = (eq_iff spec.path spec.path).1 refl in
    let low : leb (spec.offset + offset) place ≡ true = ground arith in
    let high : ltb place (spec.offset + offset + 4) ≡ true = lt→ltb _ _ (omega arith) in
    let cut : place - (spec.offset + offset) ≡ k = omega arith in
    rw (none_later, same, low, high, cut) refl

byte_at-written :
    (spec : RegionSpec) (offset value k : ℕ) (values : List ℕ)
    → k < 4
    → byte_at (writes_from spec offset (value ∷ values)) spec.path (spec.offset + offset + k)
      ≡ some (byte_of value k)
byte_at-written spec offset value k values lt =
    byte_at-newest spec offset value k (writes_from spec (offset + 4) values) lt
      (later-Misses spec spec.path (spec.offset + offset + k) (offset + 4) values (omega arith))

byte_of-from_le_bytes :
    (a b c d : ℕ) (bytes : List ℕ) (k byte : ℕ)
    → IsByte a
    → IsByte b
    → IsByte c
    → IsByte d
    → k < 4
    → get_elem? (a ∷ b ∷ c ∷ d ∷ bytes) k ≡ some byte
    → some (byte_of (from_le_bytes (a ∷ b ∷ c ∷ d ∷ [])) k) ≡ some byte
byte_of-from_le_bytes a b c d bytes zero byte ha hb hc hd lt e =
    let value : byte_of (from_le_bytes (a ∷ b ∷ c ∷ d ∷ [])) 0 ≡ a = omega arith in
    ap some value ∙ e
byte_of-from_le_bytes a b c d bytes (suc zero) byte ha hb hc hd lt e =
    let value : byte_of (from_le_bytes (a ∷ b ∷ c ∷ d ∷ [])) 1 ≡ b = omega arith in
    ap some value ∙ e
byte_of-from_le_bytes a b c d bytes (suc (suc zero)) byte ha hb hc hd lt e =
    let value : byte_of (from_le_bytes (a ∷ b ∷ c ∷ d ∷ [])) 2 ≡ c = omega arith in
    ap some value ∙ e
byte_of-from_le_bytes a b c d bytes (suc (suc (suc zero))) byte ha hb hc hd lt e =
    let value : byte_of (from_le_bytes (a ∷ b ∷ c ∷ d ∷ [])) 3 ≡ d = omega arith in
    ap some value ∙ e
byte_of-from_le_bytes a b c d bytes (suc (suc (suc (suc k)))) byte ha hb hc hd lt e =
    absurd (omega arith)

pub byte_at-words_of :
    (spec : RegionSpec) (n : ℕ) (bytes : List ℕ) (offset k byte : ℕ)
    → 4 * n ≤ length bytes
    → All IsByte bytes
    → k < 4 * n
    → get_elem? bytes k ≡ some byte
    → byte_at (writes_from spec offset (words_of n bytes)) spec.path (spec.offset + offset + k)
      ≡ some byte
byte_at-words_of spec (suc n) (a ∷ b ∷ c ∷ d ∷ bytes) offset k byte le (ha, (hb, (hc, (hd, all))))
      lt e =
    let value = from_le_bytes (a ∷ b ∷ c ∷ d ∷ []) in
    let values = words_of n bytes in
    elim (Bool-cases (ltb k 4)) [
      | inl small ↦
          byte_at-written spec offset value k values (ltb→lt _ _ small)
          ∙ byte_of-from_le_bytes a b c d bytes k byte ha hb hc hd (ltb→lt _ _ small) e
      | inr large ↦
          let far = ltb_false_lem _ _ large in
          let split : k ≡ suc (suc (suc (suc (k - 4)))) = omega arith in
          let next : spec.offset + (offset + 4) + (k - 4) ≡ spec.offset + offset + k =
            omega arith in
          byte_at-later spec.path (spec.offset + offset + k) (write_at spec offset value ∷ [])
            (writes_from spec (offset + 4) values) byte
            (rw next at (
              byte_at-words_of spec n bytes (offset + 4) (k - 4) byte (omega arith) all
                (omega arith)
                (subst (λ i. get_elem? (a ∷ b ∷ c ∷ d ∷ bytes) i ≡ some byte) split e)))
    ]
byte_at-words_of spec zero bytes offset k byte le all lt e = absurd (omega arith)
byte_at-words_of spec (suc n) (a ∷ b ∷ c ∷ []) offset k byte le all lt e = absurd (omega arith)
byte_at-words_of spec (suc n) (a ∷ b ∷ []) offset k byte le all lt e = absurd (omega arith)
byte_at-words_of spec (suc n) (a ∷ []) offset k byte le all lt e = absurd (omega arith)
byte_at-words_of spec (suc n) [] offset k byte le all lt e = absurd (omega arith)
