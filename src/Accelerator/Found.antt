-- ===== src/Accelerator/Found.antt =====
-- Which region the search below /sys/class/uio of accelerator.rs gives.
use kv260_sigverify.Prelude.{
  ℕ, ◌≤◌, ◌≡◌, refl, ap, List, [], ◌∷◌, String, Bool, true, false, ◌&&◌, Option, none, some, ◌⊎◌,
  inl, inr, ok, leb, leb→le, ◌==◌, ==_iff, if◌then◌else◌, Bool-cases,
}
use kv260_sigverify.Prelude.Format.{◌⧺◌}
use text.Mathlib.Text.{◌==◌ as same_text}
use kv260_sigverify.ServiceError
use kv260_sigverify.Accelerator.Types.{RegionSpec}
use kv260_sigverify.Accelerator.Host.{Host, pure, act, or_fail, ◌>>=◌}
use kv260_sigverify.Accelerator.Post.{Post, bind-Post, pure-Post, fail-Post}
use kv260_sigverify.Accelerator.Layout.{
  parse_u64_auto, read_metadata, both_exist, search_entries, discover_uio_region, resolve_region,
  path_uses_uio,
}

-- The text of a file, in some world, that parses to a number.
pub record Reads (h : Host) (path : String) (value : ℕ) : Type 0 where
  pub before : h.World
  pub text : String
  pub read_eq : (h.read_to_string path before).0 ≡ inr text
  pub parsed : parse_u64_auto h text ≡ ok value

-- A device of the directory, with the address asked for and the size at least.
pub record IsFound (h : Host) (target_addr requested_size : ℕ) (spec : RegionSpec) : Type 0 where
  pub name : String
  pub path_eq : spec.path ≡ "/dev/" ⧺ name
  pub offset_eq : spec.offset ≡ 0
  pub size_eq : spec.size ≡ requested_size
  pub size_found : ℕ
  pub address_read : Reads h ("/sys/class/uio/" ⧺ name ⧺ "/maps/map0/addr") target_addr
  pub size_read : Reads h ("/sys/class/uio/" ⧺ name ⧺ "/maps/map0/size") size_found
  pub large : requested_size ≤ size_found

abbrev IsFoundOrNone : Host → ℕ → ℕ → Option RegionSpec → Type 0
IsFoundOrNone h target_addr requested_size none = Unit
IsFoundOrNone h target_addr requested_size (some spec) = IsFound h target_addr requested_size spec

both_lem : (a b : Bool) → (a && b) ≡ true → (a ≡ true) × (b ≡ true)
both_lem true b e = (refl, e)
both_lem false b e = cc

module _ (h : Host) where
  read_metadata-Reads : (path : String) → Post (λ value. Reads h path value) (read_metadata h path)
  unfolding read_metadata
  read_metadata-Reads path w w2 value e = go (h.read_to_string path w).0 refl
    where
      go : (r : String ⊎ String) → (h.read_to_string path w).0 ≡ r → Reads h path value
      go (inl error) r = let no = rw (r, or_fail) at e in cc
      go (inr text) r = record {
        before = w;
        text = text;
        read_eq = r;
        parsed = ap (λ x. x.0) (rw (r, or_fail) at e);
      }

  search_entries-Post :
      (target_addr requested_size : ℕ) (entries : List (String ⊎ String))
      → Post
          (IsFoundOrNone h target_addr requested_size)
          (search_entries h target_addr requested_size entries)
  unfolding search_entries
  search_entries-Post target_addr requested_size [] = pure-Post _ none tt
  search_entries-Post target_addr requested_size (inl error ∷ entries) = fail-Post _ _
  search_entries-Post target_addr requested_size (inr name ∷ entries) =
      let next = search_entries-Post target_addr requested_size entries in
      bind-Post _ (both_exist h _ _) _ (λ w w2 present e. elim (Bool-cases present) [
        | inr absent ↦ rw absent next
        | inl there ↦ rw there (
            bind-Post _ (read_metadata h _) _ (λ w3 w4 region_addr e1.
              bind-Post _ (read_metadata h _) _ (λ w5 w6 region_size e2.
                elim (Bool-cases (region_addr == target_addr && leb requested_size region_size)) [
                  | inr other ↦ rw other next
                  | inl fits ↦
                      let (same, large) =
                        both_lem (region_addr == target_addr) (leb requested_size region_size)
                          fits in
                      let address = (==_iff region_addr target_addr).0 same in
                      rw fits (
                        pure-Post _ _ (record {
                          name = name;
                          path_eq = refl;
                          offset_eq = refl;
                          size_eq = refl;
                          size_found = region_size;
                          address_read =
                              rw (← address) (read_metadata-Reads _ w3 w4 region_addr e1);
                          size_read = read_metadata-Reads _ w5 w6 region_size e2;
                          large = leb→le requested_size region_size large;
                        }))
                ])))
      ])

  discover-Post :
      (target_addr requested_size : ℕ)
      → Post
          (IsFoundOrNone h target_addr requested_size)
          (discover_uio_region h target_addr requested_size)
  unfolding discover_uio_region
  discover-Post target_addr requested_size =
      bind-Post _ (act (h.exists "/sys/class/uio"))
        (λ present.
          if present
          then (or_fail
                (λ error.
                  ServiceError.unavailable "enumerate_uio_failed"
                    ("failed to enumerate /sys/class/uio: " ⧺ error))
                (h.read_dir "/sys/class/uio")
              >>= λ entries. search_entries h target_addr requested_size entries)
          else pure none)
        (λ w w2 present e. elim (Bool-cases present) [
          | inr absent ↦ rw absent (pure-Post _ none tt)
          | inl there ↦ rw there (
              bind-Post _ (or_fail _ (h.read_dir "/sys/class/uio")) _
                (λ w3 w4 entries e1. search_entries-Post target_addr requested_size entries))
        ])

-- Where a region may lie: at the path that is configured, below /dev for a device that was found, or
-- in /dev/mem at its address.
pub data IsResolved (h : Host) (path_value : String) (offset size : ℕ) (spec : RegionSpec)
    : Type 0 where
  configured :
      same_text path_value "auto" ≡ false
      → spec.path ≡ path_value
      → spec.offset ≡ (if path_uses_uio path_value then 0 else offset)
      → IsResolved h path_value offset size spec
  discovered :
      same_text path_value "auto" ≡ true
      → IsFound h offset size spec
      → IsResolved h path_value offset size spec
  physical :
      same_text path_value "auto" ≡ true
      → spec.path ≡ "/dev/mem"
      → spec.offset ≡ offset
      → IsResolved h path_value offset size spec

module _ (h : Host) (path_value : String) (offset size : ℕ) where
  abbrev IsPlaced : RegionSpec → Type 0
  IsPlaced spec = IsResolved h path_value offset size spec × (spec.size ≡ size)

  found_or_mem-Post :
      (found : Option RegionSpec)
      → same_text path_value "auto" ≡ true
      → IsFoundOrNone h offset size found
      → Post {W = h.World} IsPlaced (elim found [
        | some spec ↦ pure spec
        | none ↦ pure (record { path = "/dev/mem"; offset = offset; size = size })
      ])
  found_or_mem-Post none is_auto is_found = pure-Post _ _ (physical is_auto refl refl, refl)
  found_or_mem-Post (some spec) is_auto is_found =
      pure-Post _ spec (discovered is_auto is_found, is_found.size_eq)

  -- Whatever the system answers, a region that `resolve_region` gives has the size asked for and lies
  -- where the configuration says; for the path `auto` it is a UIO device whose address file parsed to
  -- the address asked for and whose size file to the size asked for at least, or /dev/mem at that
  -- address.
  pub resolve_region-IsResolved :
      (w w2 : h.World) (spec : RegionSpec)
      → resolve_region h path_value offset size w ≡ (ok spec, w2)
      → IsResolved h path_value offset size spec × (spec.size ≡ size)
  unfolding resolve_region
  resolve_region-IsResolved w w2 spec e = elim (Bool-cases (same_text path_value "auto")) [
    | inr given ↦
        pure-Post {W = h.World} IsPlaced
          (record {
            path = path_value;
            offset = if path_uses_uio path_value then 0 else offset;
            size = size;
          })
          (configured given refl refl, refl) w w2 spec (rw given at e)
    | inl is_auto ↦
        bind-Post {W = h.World} IsPlaced (discover_uio_region h offset size) _
          (λ w3 w4 found e1.
            found_or_mem-Post found is_auto (discover-Post h offset size w3 w4 found e1))
          w w2 spec (rw is_auto at e)
  ]
