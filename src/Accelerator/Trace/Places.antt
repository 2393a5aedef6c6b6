-- ===== src/Accelerator/Trace/Places.antt =====
-- Which places the writes of a batch of accelerator.rs reach, and which they miss.
use kv260_sigverify.Prelude.{
  ℕ, ◌+◌, ◌-◌, ◌/◌, ◌%◌, ◌≤◌, ◌<◌, ◌≡◌, ◌≢◌, sym, List, String, some, ◌⊎◌, inl, inr, length,
  get_elem?, length-append, length-replicate, lt_of_get_elem?, All, All-append, All-replicate,
  arith, replicate,
}
use kv260_sigverify.Parser.Types.{IsByte}
use kv260_sigverify.Accelerator.Types.{
  RegionSpec, HardwareBatchRequest, WaitMode, auto, irq, poll, control_size,
}
use kv260_sigverify.Accelerator.Words.Fill.{words_of, padded, length-words_of}
use kv260_sigverify.Accelerator.Trace.{write_at, region_writes, parameter_writes, start_writes}
use kv260_sigverify.Accelerator.Trace.Memory.{
  byte_at, Misses, Outside, register-Misses, writes_from-Misses,
}
use kv260_sigverify.Accelerator.Trace.Memory.Words.{byte_at-words_of}

-- Two regions that share no place.
abbrev pub AreApart : RegionSpec → RegionSpec → Type 0
AreApart a b = (a.path ≢ b.path) ⊎ ((a.offset + a.size ≤ b.offset) ⊎ (b.offset + b.size ≤ a.offset))

pub AreApart-Outside :
    (a b : RegionSpec) (k : ℕ) → AreApart a b → k < a.size → Outside b a.path (a.offset + k)
AreApart-Outside a b k (inl other) lt = inl (λ e. other (sym e))
AreApart-Outside a b k (inr (inl before)) lt = inr (inl (omega arith))
AreApart-Outside a b k (inr (inr behind)) lt = inr (inr (omega arith))

pub region_writes-Misses :
    (spec : RegionSpec) (bytes : List ℕ) (path : String) (address : ℕ)
    → Outside spec path address
    → All (Misses path address) (region_writes spec bytes)
region_writes-Misses spec bytes path address outside =
    writes_from-Misses spec path address 0 (words_of (spec.size / 4) (padded bytes spec.size))
      outside (omega (arith, length-words_of (spec.size / 4) (padded bytes spec.size)))

module _ (control : RegionSpec) (path : String) (address : ℕ)
    (outside : Outside control path address) (size_eq : control.size ≡ control_size) where
  -- The value plays no part in where a write goes.
  control-Misses :
      (offset : ℕ) → offset + 4 ≤ control_size → Misses path address (write_at control offset 0)
  control-Misses offset inside =
      register-Misses control path address offset 0 outside (omega (arith, inside, size_eq))

  pub parameter_writes-Misses :
      (request : HardwareBatchRequest)
      → All (Misses path address) (parameter_writes control request)
  parameter_writes-Misses request = (
    control-Misses _ (omega arith),
    (
      control-Misses _ (omega arith),
      (control-Misses _ (omega arith), (control-Misses _ (omega arith), tt)),
    ),
  )

  pub start_writes-Misses :
      (mode : WaitMode) → All (Misses path address) (start_writes control mode)
  start_writes-Misses irq = (
    control-Misses _ (omega arith),
    (control-Misses _ (omega arith), (control-Misses _ (omega arith), tt)),
  )
  start_writes-Misses poll = (control-Misses _ (omega arith), tt)
  start_writes-Misses auto = (control-Misses _ (omega arith), tt)

padded-IsByte : (bytes : List ℕ) (size : ℕ) → All IsByte bytes → All IsByte (padded bytes size)
padded-IsByte bytes size all =
    All-append IsByte bytes _ all (All-replicate IsByte (size - length bytes) 0 (omega arith))

pub length-padded :
    (bytes : List ℕ) (size : ℕ) → length bytes ≤ size → length (padded bytes size) ≡ size
length-padded bytes size fits = omega (
  arith,
  length-append bytes (replicate (size - length bytes) 0),
  length-replicate {A = ℕ} (size - length bytes) 0,
)

-- The writes of a region leave its bytes.
pub region_writes-byte_at :
    (spec : RegionSpec) (bytes : List ℕ) (k byte : ℕ)
    → length bytes ≤ spec.size
    → spec.size % 4 ≡ 0
    → All IsByte bytes
    → get_elem? (padded bytes spec.size) k ≡ some byte
    → byte_at (region_writes spec bytes) spec.path (spec.offset + k) ≡ some byte
region_writes-byte_at spec bytes k byte fits whole all e =
    let size_eq = length-padded bytes spec.size fits in
    let inside = lt_of_get_elem? (padded bytes spec.size) k e in
    let place : spec.offset + 0 + k ≡ spec.offset + k = omega arith in
    rw place at (
      byte_at-words_of spec (spec.size / 4) (padded bytes spec.size) 0 k byte (omega arith)
        (padded-IsByte bytes spec.size all) (omega arith) e)
