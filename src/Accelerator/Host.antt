-- ===== src/Accelerator/Host.antt =====
-- The operating system and the device, as the daemon sees them: a world that system calls and
-- volatile accesses change. A call that may fail gives the text of its error, or a value. The host
-- is little-endian, so `u32::from_le` and `to_le` change nothing.
use kv260_sigverify.Prelude.{ℕ, List, Bool, String, Option, ◌⊎◌, inl, inr, Outcome, ok, err, panic}
use kv260_sigverify.ServiceError.{ServiceError}

pub record Host : Type 1 where
  pub World : Type 0
  pub File : Type 0
  pub Mapping : Type 0
  -- `sysconf(_SC_PAGESIZE)`, where a result that is not positive is `none`
  pub page_size : World → Option ℕ × World
  -- `OpenOptions` with read and write; the flag is `O_SYNC`
  pub open_file : Bool → String → World → (String ⊎ File) × World
  -- `MmapOptions` with an offset and a length
  pub map_file : File → ℕ → ℕ → World → (String ⊎ Mapping) × World
  pub read_volatile : Mapping → ℕ → World → ℕ × World
  pub write_volatile : Mapping → ℕ → ℕ → World → World
  -- `Instant::now`, in milliseconds
  pub now : World → ℕ × World
  -- The largest `Instant`; `Instant + Duration` panics beyond it
  pub latest : ℕ
  pub sleep : ℕ → World → World
  pub exists : String → World → Bool × World
  -- The entries of a directory, by file name, or an error for an entry
  pub read_dir : String → World → (String ⊎ List (String ⊎ String)) × World
  pub read_to_string : String → World → (String ⊎ String) × World
  pub write_all : File → List ℕ → World → (String ⊎ Unit {0}) × World
  -- `poll` for `POLLIN`, with a timeout in milliseconds: how many files are ready
  pub poll_in : File → ℕ → World → (String ⊎ ℕ) × World
  -- `read_exact` of so many bytes
  pub read_exact : File → ℕ → World → (String ⊎ List ℕ) × World
  -- `{text:?}`
  pub debug_text : String → String
  -- `{:.2}` of the seconds in so many milliseconds
  pub seconds_text : ℕ → String

-- A fallible step over a world.
abbrev pub M : Type 0 → Type 0 → Type 0
M W A = W → Outcome ServiceError A × W

abbrev pub pure : {W A : Type 0} → A → M W A
pure a w = (ok a, w)

abbrev pub fail : {W A : Type 0} → ServiceError → M W A
fail e w = (err e, w)

-- What does not touch the world.
abbrev pub lift : {W A : Type 0} → Outcome ServiceError A → M W A
lift r w = (r, w)

-- A step that cannot fail.
abbrev pub act : {W A : Type 0} → (W → A × W) → M W A
act f w = let r = f w in (ok r.0, r.1)

abbrev pub act_unit : {W : Type 0} → (W → W) → M W (Unit {0})
act_unit f w = (ok tt, f w)

-- `map_err` on a system call.
abbrev pub or_fail : {W A : Type 0} → (String → ServiceError) → (W → (String ⊎ A) × W) → M W A
or_fail on_error f w =
    let r = f w in elim r.0 [ inl text ↦ (err (on_error text), r.1) | inr a ↦ (ok a, r.1) ]

abbrev pub continue_with :
    {W A B : Type 0} → (A → M W B) → Outcome ServiceError A × W → Outcome ServiceError B × W
continue_with f (ok a, w) = f a w
continue_with f (err e, w) = (err e, w)
continue_with f (panic, w) = (panic, w)

infixl 5 ◌>>=◌ ◌>>◌
abbrev pub ◌>>=◌ : {W A B : Type 0} → M W A → (A → M W B) → M W B
◌>>=◌ m f w = continue_with f (m w)

abbrev pub ◌>>◌ : {W B : Type 0} → M W (Unit {0}) → M W B → M W B
m >> k = m >>= λ _. k
