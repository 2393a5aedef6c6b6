-- ===== src/Accelerator/Mirrors/Regions.antt =====
-- The accesses of `MappedRegion` of accelerator.rs do the same on a watching host.
use kv260_sigverify.Prelude.{ℕ, ◌-◌, ◌%◌, List, Option, none, some, true}
use kv260_sigverify.ServiceError
use kv260_sigverify.Accelerator.Types.{RegionSpec}
use kv260_sigverify.Accelerator.Host.{Host, pure, fail, act, act_unit, or_fail}
use kv260_sigverify.Accelerator.Mmio.{
  MappedRegion, checked_word_start, system_page_size, open_region, read_u32, write_u32, write_bytes,
}
use kv260_sigverify.Accelerator.Mirrors.{
  Mirrors, id, pure-Mirrors, fail-Mirrors, lift-Mirrors, act-Mirrors, act_unit-Mirrors,
  or_fail-Mirrors, bind-Mirrors,
}
use kv260_sigverify.Accelerator.Mirrors.Watching.{Watching}
use kv260_sigverify.Accelerator.Mirrors.Words.{write_bytes_as_u32_words-Mirrors}

module _ {g h : Host} (v : Watching g h) where
  abbrev pub region_of : MappedRegion g.Mapping → MappedRegion h.Mapping
  region_of region = record {
    mapping = v.mapping region.mapping;
    delta = region.delta;
    size = region.size;
  }

  pub read_u32-Mirrors :
      (region : MappedRegion g.Mapping) (offset : ℕ)
      → Mirrors v.strip id (read_u32 g region offset) (read_u32 h (region_of region) offset)
  unfolding read_u32
  read_u32-Mirrors region offset =
      bind-Mirrors id id _ _ (λ start. act (g.read_volatile region.mapping start))
        (λ start. act (h.read_volatile (v.mapping region.mapping) start))
        (lift-Mirrors (checked_word_start region.size region.delta offset "read"))
        (λ start.
          act-Mirrors (g.read_volatile region.mapping start)
            (h.read_volatile (v.mapping region.mapping) start) (v.read_eq region.mapping start))

  pub write_u32-Mirrors :
      (region : MappedRegion g.Mapping) (offset value : ℕ)
      → Mirrors v.strip id
          (write_u32 g region offset value)
          (write_u32 h (region_of region) offset value)
  unfolding write_u32
  write_u32-Mirrors region offset value =
      bind-Mirrors id id _ _ (λ start. act_unit (g.write_volatile region.mapping start value))
        (λ start. act_unit (h.write_volatile (v.mapping region.mapping) start value))
        (lift-Mirrors (checked_word_start region.size region.delta offset "write"))
        (λ start.
          act_unit-Mirrors (g.write_volatile region.mapping start value)
            (h.write_volatile (v.mapping region.mapping) start value)
            (v.write_eq region.mapping start value))

  pub write_bytes-Mirrors :
      (region : MappedRegion g.Mapping) (bytes : List ℕ)
      → Mirrors v.strip id (write_bytes g region bytes) (write_bytes h (region_of region) bytes)
  unfolding write_bytes
  write_bytes-Mirrors region bytes =
      write_bytes_as_u32_words-Mirrors (write_u32 g region) (write_u32 h (region_of region))
        (write_u32-Mirrors region) bytes region.size

  page_size_known :
      (value : Option ℕ)
      → Mirrors {A = ℕ} {B = ℕ} v.strip id
          (elim value [
            | none ↦ fail (
                ServiceError.unavailable "page_size_unavailable"
                  "failed to determine host page size")
            | some size ↦ pure size
          ])
          (elim value [
            | none ↦ fail (
                ServiceError.unavailable "page_size_unavailable"
                  "failed to determine host page size")
            | some size ↦ pure size
          ])
  page_size_known none = fail-Mirrors id _
  page_size_known (some size) = pure-Mirrors id size

  page_size-Mirrors : Mirrors v.strip id (system_page_size g) (system_page_size h)
  unfolding system_page_size
  page_size-Mirrors =
      bind-Mirrors id id (act g.page_size) (act h.page_size) _ _
        (act-Mirrors g.page_size h.page_size v.page_size_eq) (λ value. page_size_known value)

  pub open_region-Mirrors :
      (spec : RegionSpec) → Mirrors v.strip region_of (open_region g spec) (open_region h spec)
  unfolding open_region
  open_region-Mirrors spec =
      bind-Mirrors id region_of (system_page_size g) (system_page_size h) _ _ page_size-Mirrors
        (λ page_size.
          bind-Mirrors v.file region_of (or_fail _ (g.open_file true spec.path))
            (or_fail _ (h.open_file true spec.path)) _ _
            (or_fail-Mirrors v.file _ (g.open_file true spec.path) (h.open_file true spec.path)
              (v.open_file_eq true spec.path))
            (λ file.
              bind-Mirrors v.mapping region_of (or_fail _ (g.map_file file _ _))
                (or_fail _ (h.map_file (v.file file) _ _)) _ _
                (or_fail-Mirrors v.mapping _ (g.map_file file _ _) (h.map_file (v.file file) _ _)
                  (v.map_file_eq file (spec.offset - spec.offset % page_size) _))
                (λ mapping. pure-Mirrors region_of _)))
