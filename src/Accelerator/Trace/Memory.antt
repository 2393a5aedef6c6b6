-- ===== src/Accelerator/Trace/Memory.antt =====
-- The memory that the writes of accelerator.rs leave, byte by byte: a word of four bytes, the lowest
-- first, at its address, and a later write over an earlier one.
pub mod Words
use kv260_sigverify.Prelude.{
  ℕ, zero, suc, ◌+◌, ◌-◌, ◌*◌, ◌/◌, ◌%◌, ◌≤◌, ◌<◌, ◌≡◌, ◌≢◌, refl, sym, ap, subst, ◌∙◌, List, [],
  ◌∷◌, ◌++◌, map, String, Bool, true, false, ◌&&◌, Option, none, some, ◌⊎◌, inl, inr, leb, ltb,
  ltb→lt, ltb_false_lem, ltb-false, lt→ltb, length, get_elem?, All, Bool-cases, if◌then◌else◌,
  arith,
}
use text.Mathlib.Text.{◌==◌ as same_text}
use text.Mathlib.TextEquality.{eq_iff}
use kv260_sigverify.Parser.Types.{IsByte}
use kv260_sigverify.Accelerator.Types.{RegionSpec}
use kv260_sigverify.Accelerator.LittleEndian.{from_le_bytes}
use kv260_sigverify.Accelerator.Words.Fill.{words_of}
use kv260_sigverify.Accelerator.Trace.{Write, write_at, writes_from}

-- The bytes of a word, from the lowest on.
abbrev pub byte_of : ℕ → ℕ → ℕ
byte_of value zero = value % 256
byte_of value (suc k) = byte_of (value / 256) k

abbrev pub covers : Write → String → ℕ → Bool
covers write path address =
    same_text write.path path && (leb write.address address && ltb address (write.address + 4))

abbrev pub byte_before : Option ℕ → Write → String → ℕ → Option ℕ
byte_before (some byte) write path address = some byte
byte_before none write path address =
    if covers write path address then some (byte_of write.value (address - write.address)) else none

-- The byte at an address of a file, if it was written.
abbrev pub byte_at : List Write → String → ℕ → Option ℕ
byte_at [] path address = none
byte_at (write ∷ later) path address = byte_before (byte_at later path address) write path address

-- So many bytes from an address on.
abbrev pub memory : List Write → String → ℕ → ℕ → List (Option ℕ)
memory log path address zero = []
memory log path address (suc count) = byte_at log path address ∷ memory log path (address + 1) count

pub memory_lem :
    (log : List Write) (path : String) (address : ℕ) (bytes : List ℕ)
    → ((k byte : ℕ) → get_elem? bytes k ≡ some byte → byte_at log path (address + k) ≡ some byte)
    → memory log path address (length bytes) ≡ map some bytes
memory_lem log path address [] all = refl
memory_lem log path address (byte ∷ bytes) all =
    let here : address + 0 ≡ address = omega arith in
    let first = rw here at (all 0 byte refl) in
    let later = memory_lem log path (address + 1) bytes (λ k b e.
      let next : address + 1 + k ≡ address + suc k = omega arith in rw next (all (suc k) b e)) in
    rw (first, later) refl

abbrev pub Misses : String → ℕ → Write → Type 0
Misses path address write = covers write path address ≡ false

module _ (path : String) (address : ℕ) where
  pub byte_at-missed :
      (log : List Write) → All (Misses path address) log → byte_at log path address ≡ none
  byte_at-missed [] all = refl
  byte_at-missed (write ∷ later) (miss, all) = rw (byte_at-missed later all, miss) refl

  -- Earlier writes do not matter at a place that is written later.
  pub byte_at-later :
      (earlier later : List Write) (byte : ℕ)
      → byte_at later path address ≡ some byte
      → byte_at (earlier ++ later) path address ≡ some byte
  byte_at-later [] later byte e = e
  byte_at-later (write ∷ earlier) later byte e = rw (byte_at-later earlier later byte e) refl

  -- Later writes that miss the place do not matter.
  pub byte_at-earlier :
      (earlier later : List Write)
      → All (Misses path address) later
      → byte_at (earlier ++ later) path address ≡ byte_at earlier path address
  byte_at-earlier [] later all = byte_at-missed later all
  byte_at-earlier (write ∷ earlier) later all =
      ap (λ byte. byte_before byte write path address) (byte_at-earlier earlier later all)

-- The place is not in the region.
abbrev pub Outside : RegionSpec → String → ℕ → Type 0
Outside spec path address =
    (spec.path ≢ path) ⊎ ((address < spec.offset) ⊎ (spec.offset + spec.size ≤ address))

and_false : (b : Bool) → (b && false) ≡ false
and_false true = refl
and_false false = refl

pub write_at-Misses :
    (spec : RegionSpec) (path : String) (address offset value : ℕ)
    → (spec.path ≢ path) ⊎ ((address < spec.offset + offset) ⊎ (spec.offset + offset + 4 ≤ address))
    → Misses path address (write_at spec offset value)
write_at-Misses spec path address offset value (inl other) =
    elim (Bool-cases (same_text spec.path path)) [
      | inl same ↦ absurd (other ((eq_iff spec.path path).0 same))
      | inr differs ↦ rw differs refl
    ]
write_at-Misses spec path address offset value (inr (inl below)) =
    let no : leb (spec.offset + offset) address ≡ false = ground arith in
    rw no (and_false (same_text spec.path path))
write_at-Misses spec path address offset value (inr (inr above)) =
    let no : ltb address (spec.offset + offset + 4) ≡ false = ltb-false _ _ above in
    rw (no, and_false (leb (spec.offset + offset) address), and_false (same_text spec.path path))
      refl

pub register-Misses :
    (spec : RegionSpec) (path : String) (address offset value : ℕ)
    → Outside spec path address
    → offset + 4 ≤ spec.size
    → Misses path address (write_at spec offset value)
register-Misses spec path address offset value (inl other) inside =
    write_at-Misses spec path address offset value (inl other)
register-Misses spec path address offset value (inr (inl below)) inside =
    write_at-Misses spec path address offset value (inr (inl (omega arith)))
register-Misses spec path address offset value (inr (inr above)) inside =
    write_at-Misses spec path address offset value (inr (inr (omega arith)))

pub writes_from-Misses :
    (spec : RegionSpec) (path : String) (address offset : ℕ) (values : List ℕ)
    → Outside spec path address
    → offset + 4 * length values ≤ spec.size
    → All (Misses path address) (writes_from spec offset values)
writes_from-Misses spec path address offset [] outside inside = tt
writes_from-Misses spec path address offset (value ∷ values) outside inside = (
  register-Misses spec path address offset value outside (omega arith),
  writes_from-Misses spec path address (offset + 4) values outside (omega arith),
)
