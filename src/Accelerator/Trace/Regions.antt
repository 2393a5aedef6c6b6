-- ===== src/Accelerator/Trace/Regions.antt =====
-- The writes of `MappedRegion` of accelerator.rs, with their addresses.
use kv260_sigverify.Prelude.{
  ℕ, ◌+◌, ◌-◌, ◌/◌, ◌%◌, ◌≡◌, refl, ap, ◌∙◌, List, [], ◌∷◌, true, String, ok, ltb, ltb_false_lem,
  ◌==◌, ==_iff, length, Bool-cases, inl, inr, arith,
}
use kv260_sigverify.Accelerator.Types.{RegionSpec}
use kv260_sigverify.Accelerator.Host.{Host, act_unit, or_fail}
use kv260_sigverify.Accelerator.Mmio.{
  MappedRegion, checked_word_start, system_page_size, open_region, write_u32, write_bytes,
}
use kv260_sigverify.Accelerator.Words.{write_bytes_as_u32_words}
use kv260_sigverify.Accelerator.Words.Fill.{words_of, padded}
use kv260_sigverify.Accelerator.Words.Padded.{put_words, write_bytes_as_u32_words-put_words}
use kv260_sigverify.Accelerator.Post.{Post, bind-Post, pure-Post, or_fail-Post}
use kv260_sigverify.Accelerator.Watch.{labelled_lem}
use kv260_sigverify.Accelerator.Keeps.{Any}
use kv260_sigverify.Accelerator.Keeps.Invariant.{Undisturbed}
use kv260_sigverify.Accelerator.Keeps.Regions.{open_region-Keeps}
use kv260_sigverify.Accelerator.Trace.{Write, traced, write_at, writes_from, region_writes}
use kv260_sigverify.Accelerator.Trace.Rules.{
  Writes, pure-Writes, fail-Writes, lift-Writes, bind-Writes, eq-Writes, quiet-Writes,
}

-- Every call but a write leaves the list of the writes as it is.
pub traced-Undisturbed :
    (h : Host) (log : List Write) → Undisturbed (traced h) (λ w. w.1 ≡ log) (λ mapping size. Unit)
traced-Undisturbed h log = record {
  page_size_kept = λ w same. same;
  open_file_kept = λ flag path w same. same;
  map_file_kept = λ file offset size w same. same;
  map_file_fits = λ file offset size w m e. tt;
  read_kept = λ m start size w fits inside aligned same. same;
  now_kept = λ w same. same;
  exists_kept = λ path w same. same;
  read_dir_kept = λ path w same. same;
  read_to_string_kept = λ path w same. same;
  write_all_kept = λ file bytes w same. same;
  poll_in_kept = λ file time w same. same;
  read_exact_kept = λ file count w same. same;
}

checked_word_start_lem :
    (size delta offset : ℕ) (operation : String) (start : ℕ)
    → checked_word_start size delta offset operation ≡ ok start
    → start ≡ delta + offset
unfolding checked_word_start
checked_word_start_lem size delta offset operation start e = ground arith

module _ (h : Host) where
  -- The region's words lie where the specification says.
  abbrev pub IsOpen : RegionSpec → MappedRegion (traced h).Mapping → Type 0
  IsOpen spec region =
      (region.mapping.1.0 ≡ spec.path)
      × ((region.mapping.1.1 + region.delta ≡ spec.offset) × (region.size ≡ spec.size))

  open_region-Post : (spec : RegionSpec) → Post (IsOpen spec) (open_region (traced h) spec)
  unfolding open_region
  open_region-Post spec = bind-Post _ (system_page_size (traced h)) _ (λ w w2 page_size e.
      bind-Post _ (or_fail _ ((traced h).open_file true spec.path)) _ (λ w3 w4 file e2.
        bind-Post _
          (or_fail _ (
            (traced h).map_file file (spec.offset - spec.offset % page_size)
              (spec.offset - (spec.offset - spec.offset % page_size) + spec.size)))
          _
          (λ w5 w6 mapping e3.
            let place =
              or_fail-Post (λ m. m.1 ≡ (file.1, spec.offset - spec.offset % page_size)) _
                ((traced h).map_file file (spec.offset - spec.offset % page_size) _)
                (λ w m e4. labelled_lem _ _ m e4) w5 w6 mapping e3 in
            let named =
              or_fail-Post (λ f. f.1 ≡ spec.path) _ ((traced h).open_file true spec.path)
                (λ w f e4. labelled_lem _ _ f e4) w3 w4 file e2 in
            pure-Post (IsOpen spec) _
              (ap (λ x. x.0) place ∙ named, (rw place (omega arith), refl)))))

  pub open_region-Writes :
      (spec : RegionSpec) → Writes (IsOpen spec) [] (open_region (traced h) spec)
  open_region-Writes spec =
      quiet-Writes _ (open_region (traced h) spec)
        (λ log. open_region-Keeps (traced-Undisturbed h log) spec) (open_region-Post spec)

  -- A write gives an error and writes nothing, or writes at the offset.
  pub write_u32-Writes :
      (spec : RegionSpec) (region : MappedRegion (traced h).Mapping) (offset value : ℕ)
      → IsOpen spec region
      → Writes Any (write_at spec offset value ∷ []) (write_u32 (traced h) region offset value)
  unfolding write_u32
  write_u32-Writes spec region offset value o =
      bind-Writes (λ start. start ≡ region.delta + offset) Any [] _ _
        (λ start. act_unit ((traced h).write_volatile region.mapping start value))
        (lift-Writes _ (checked_word_start region.size region.delta offset "write")
          (λ start e. checked_word_start_lem region.size region.delta offset "write" start e))
        (λ start s.
          let place : region.mapping.1.1 + start ≡ spec.offset + offset = omega (arith, o.1.0, s) in
          record { writes = λ w. (rw (o.0, place) refl, tt) })

  put_words-Writes :
      (spec : RegionSpec) (region : MappedRegion (traced h).Mapping) (offset : ℕ) (values : List ℕ)
      → IsOpen spec region
      → Writes Any
          (writes_from spec offset values)
          (put_words (write_u32 (traced h) region) offset values)
  put_words-Writes spec region offset [] o = pure-Writes Any tt tt
  put_words-Writes spec region offset (value ∷ values) o =
      bind-Writes Any Any (write_at spec offset value ∷ []) (writes_from spec (offset + 4) values)
        (write_u32 (traced h) region offset value) _ (write_u32-Writes spec region offset value o)
        (λ done any. put_words-Writes spec region (offset + 4) values o)

  pub write_bytes-Writes :
      (spec : RegionSpec) (region : MappedRegion (traced h).Mapping) (bytes : List ℕ)
      → IsOpen spec region
      → Writes Any (region_writes spec bytes) (write_bytes (traced h) region bytes)
  unfolding write_bytes write_bytes_as_u32_words
  write_bytes-Writes spec region bytes o = elim (Bool-cases (ltb region.size (length bytes))) [
    | inl over ↦ rw (over, write_bytes_as_u32_words) (fail-Writes Any _ _)
    | inr fits ↦ elim (Bool-cases (region.size % 4 == 0)) [
      | inr odd ↦ rw (fits, odd, write_bytes_as_u32_words) (fail-Writes Any _ _)
      | inl even ↦
          eq-Writes Any _ _
            (put_words (write_u32 (traced h) region) 0
              (words_of (region.size / 4) (padded bytes region.size)))
            (λ w.
              write_bytes_as_u32_words-put_words (write_u32 (traced h) region) bytes region.size w
                (ltb_false_lem _ _ fits) ((==_iff _ _).0 even))
            (rw (← o.1.1) (put_words-Writes spec region 0 _ o))
    ]
  ]
