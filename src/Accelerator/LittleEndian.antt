-- ===== src/Accelerator/LittleEndian.antt =====
-- The words that accelerator.rs makes of bytes, with the panics of the slices it takes them from.
use kv260_sigverify.Prelude.{
  ℕ, ◌+◌, ◌-◌, ◌*◌, List, [], ◌∷◌, ◌++◌, Outcome, ok, panic, ◌>>=◌, leb, ◌==◌, ◌&&◌, if◌then◌else◌,
  length, drop, replicate,
}
use kv260_sigverify.ServiceError.{ServiceError}
use kv260_sigverify.Parser.Reader.{range, to_array}

-- `u32::from_le_bytes`
abbrev pub from_le_bytes : List ℕ → ℕ
from_le_bytes [] = 0
from_le_bytes (b ∷ bs) = b + 256 * from_le_bytes bs

-- `u32::from_le_bytes` of `data[offset..offset + 4]` as an array of four bytes
unfoldable pub full_word : List ℕ → ℕ → Outcome ServiceError ℕ
full_word bytes offset =
    range bytes offset (offset + 4) >>= λ part. to_array 4 part >>= λ word. ok (from_le_bytes word)

-- `xs[..end].copy_from_slice(part)`
abbrev pub copy_from_slice : List ℕ → ℕ → List ℕ → Outcome ServiceError (List ℕ)
copy_from_slice xs end part =
    if leb end (length xs) && length part == end then ok (part ++ drop end xs) else panic

-- The word of the bytes from the offset on, copied over four zeros
unfoldable pub last_word : List ℕ → ℕ → Outcome ServiceError ℕ
last_word bytes offset = range bytes offset (length bytes) >>= λ part.
    copy_from_slice (replicate 4 0) (length bytes - offset) part >>= λ tail. ok (from_le_bytes tail)
