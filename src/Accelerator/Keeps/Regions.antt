-- ===== src/Accelerator/Keeps/Regions.antt =====
-- The accesses through a mapped region of accelerator.rs stay in its mapping, and so keep an invariant
-- of the world.
use kv260_sigverify.Prelude.{
  ℕ, zero, suc, ◌+◌, ◌-◌, ◌/◌, ◌%◌, ◌^◌, ◌≤◌, ◌<◌, ◌≡◌, List, [], ◌∷◌, true, String, Option, none,
  some, ltb, ltb_false_lem, ◌==◌, ==_iff, length, take, drop, All, All-append, All-replicate,
  All-drop, Bool-cases, inl, inr, arith,
}
use kv260_sigverify.ServiceError
use kv260_sigverify.Parser.Types.{IsByte}
use kv260_sigverify.Accelerator.Types.{RegionSpec}
use kv260_sigverify.Accelerator.Host.{Host, pure, fail, lift, act, act_unit, or_fail}
use kv260_sigverify.Accelerator.Mmio.{
  MappedRegion, checked_word_start, system_page_size, open_region, read_u32, write_u32, write_bytes,
}
use kv260_sigverify.Accelerator.LittleEndian.{from_le_bytes}
use kv260_sigverify.Accelerator.Words.{write_bytes_as_u32_words}
use kv260_sigverify.Accelerator.Words.Fill.{words_of, padded}
use kv260_sigverify.Accelerator.Words.Padded.{put_words, write_bytes_as_u32_words-put_words}
use kv260_sigverify.Accelerator.Keeps.{
  Comes, Any, Keeps, pure-Keeps, fail-Keeps, lift-Keeps, act-Keeps, act_unit-Keeps, or_fail-Keeps,
  bind-Keeps, eq-Keeps,
}
use kv260_sigverify.Accelerator.Keeps.Invariant.{Undisturbed, Invariant}

abbrev pub IsWord : ℕ → Type 0
IsWord value = value < 2 ^ 32

-- A start that `checked_word_start` gives.
abbrev IsStart : ℕ → ℕ → ℕ → Type 0
IsStart size delta start = (start + 4 ≤ delta + size) × (start % 4 ≡ 0)

checked_word_start-IsStart :
    (R : Type 0) (size delta offset : ℕ) (operation : String)
    → Comes R (IsStart size delta) (checked_word_start size delta offset operation)
unfolding checked_word_start
checked_word_start-IsStart R size delta offset operation = ground arith

from_le_bytes-IsWord : (bytes : List ℕ) → All IsByte bytes → IsWord (from_le_bytes (take 4 bytes))
from_le_bytes-IsWord [] all = omega arith
from_le_bytes-IsWord (a ∷ []) all = omega arith
from_le_bytes-IsWord (a ∷ b ∷ []) all = omega arith
from_le_bytes-IsWord (a ∷ b ∷ c ∷ []) all = omega arith
from_le_bytes-IsWord (a ∷ b ∷ c ∷ d ∷ bytes) all = omega arith

words_of-IsWord : (n : ℕ) (bytes : List ℕ) → All IsByte bytes → All IsWord (words_of n bytes)
words_of-IsWord zero bytes all = tt
words_of-IsWord (suc n) bytes all =
    (from_le_bytes-IsWord bytes all, words_of-IsWord n (drop 4 bytes) (All-drop IsByte 4 bytes all))

-- The region's mapping is as long as the region is from the mapping's start.
abbrev pub IsMapped : {M : Type 0} → (M → ℕ → Type 0) → MappedRegion M → Type 0
IsMapped Fits region = Fits region.mapping (region.delta + region.size)

module _ {R : Type 0} {h : Host} {P : h.World → Type 0} {Fits : h.Mapping → ℕ → Type 0}
    (inv : Undisturbed h P Fits) where
  pub read_u32-Keeps :
      (region : MappedRegion h.Mapping) (offset : ℕ)
      → IsMapped Fits region
      → Keeps R P Any (read_u32 h region offset)
  unfolding read_u32
  read_u32-Keeps region offset mapped =
      bind-Keeps (IsStart region.size region.delta) Any
        (lift (checked_word_start region.size region.delta offset "read"))
        (λ start. act (h.read_volatile region.mapping start))
        (lift-Keeps _ _ (checked_word_start-IsStart R region.size region.delta offset "read"))
        (λ start s.
          act-Keeps (h.read_volatile region.mapping start)
            (λ w p. inv.read_kept region.mapping start _ w mapped s.0 s.1 p))

  page_size_known :
      (value : Option ℕ)
      → Keeps {A = ℕ} R P Any (elim value [
        | none ↦
            fail (
              ServiceError.unavailable "page_size_unavailable" "failed to determine host page size")
        | some size ↦ pure size
      ])
  page_size_known none = fail-Keeps Any _
  page_size_known (some size) = pure-Keeps Any size tt

  page_size-Keeps : Keeps R P Any (system_page_size h)
  unfolding system_page_size
  page_size-Keeps =
      bind-Keeps Any Any (act h.page_size) _ (act-Keeps h.page_size inv.page_size_kept)
        (λ value any. page_size_known value)

  pub open_region-Keeps : (spec : RegionSpec) → Keeps R P (IsMapped Fits) (open_region h spec)
  unfolding open_region
  open_region-Keeps spec =
      bind-Keeps Any (IsMapped Fits) (system_page_size h) _ page_size-Keeps (λ page_size any.
        bind-Keeps Any (IsMapped Fits) (or_fail _ (h.open_file true spec.path)) _
          (or_fail-Keeps Any _ (h.open_file true spec.path) (inv.open_file_kept true spec.path)
            (λ w a e. tt))
          (λ file any.
            bind-Keeps
              (λ mapping.
                Fits mapping (spec.offset - (spec.offset - spec.offset % page_size) + spec.size))
              (IsMapped Fits)
              (or_fail _ (h.map_file file (spec.offset - spec.offset % page_size) _)) _
              (or_fail-Keeps _ _ (h.map_file file (spec.offset - spec.offset % page_size) _)
                (inv.map_file_kept file (spec.offset - spec.offset % page_size) _)
                (λ w a e. inv.map_file_fits file _ _ w a e))
              (λ mapping length_eq. pure-Keeps (IsMapped Fits) _ length_eq)))

module _ {R : Type 0} {h : Host} {P : h.World → Type 0} {Fits : h.Mapping → ℕ → Type 0}
    (inv : Invariant h P Fits) where
  pub write_u32-Keeps :
      (region : MappedRegion h.Mapping) (offset value : ℕ)
      → IsMapped Fits region
      → IsWord value
      → Keeps R P Any (write_u32 h region offset value)
  unfolding write_u32
  write_u32-Keeps region offset value mapped small =
      bind-Keeps (IsStart region.size region.delta) Any
        (lift (checked_word_start region.size region.delta offset "write"))
        (λ start. act_unit (h.write_volatile region.mapping start value))
        (lift-Keeps _ _ (checked_word_start-IsStart R region.size region.delta offset "write"))
        (λ start s.
          act_unit-Keeps (h.write_volatile region.mapping start value)
            (λ w p. inv.write_kept region.mapping start _ value w mapped s.0 s.1 small p))

  put_words-Keeps :
      (region : MappedRegion h.Mapping) (offset : ℕ) (values : List ℕ)
      → IsMapped Fits region
      → All IsWord values
      → Keeps R P Any (put_words (write_u32 h region) offset values)
  put_words-Keeps region offset [] mapped all = pure-Keeps Any tt tt
  put_words-Keeps region offset (value ∷ values) mapped all =
      bind-Keeps Any Any _ _ (write_u32-Keeps region offset value mapped all.0)
        (λ done any. put_words-Keeps region (offset + 4) values mapped all.1)

  pub write_bytes-Keeps :
      (region : MappedRegion h.Mapping) (bytes : List ℕ)
      → IsMapped Fits region
      → All IsByte bytes
      → Keeps R P Any (write_bytes h region bytes)
  unfolding write_bytes write_bytes_as_u32_words
  write_bytes-Keeps region bytes mapped all = elim (Bool-cases (ltb region.size (length bytes))) [
    | inl over ↦ rw (over, write_bytes_as_u32_words) (fail-Keeps Any _)
    | inr fits ↦ elim (Bool-cases (region.size % 4 == 0)) [
      | inr odd ↦ rw (fits, odd, write_bytes_as_u32_words) (fail-Keeps Any _)
      | inl even ↦
          eq-Keeps Any _
            (put_words (write_u32 h region) 0
              (words_of (region.size / 4) (padded bytes region.size)))
            (λ w.
              write_bytes_as_u32_words-put_words (write_u32 h region) bytes region.size w
                (ltb_false_lem _ _ fits) ((==_iff _ _).0 even))
            (put_words-Keeps region 0 _ mapped (
              words_of-IsWord (region.size / 4) (padded bytes region.size) (
                All-append IsByte bytes _ all
                  (All-replicate IsByte (region.size - length bytes) 0 (omega arith)))))
    ]
  ]
