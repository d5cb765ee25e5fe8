-- ===== src/Graph/Inventory/Stored.antt =====
-- The inventory record that is written on a node comes back from it.
use ripestream.Base.{
  ◌≡◌, refl, true, false, not, List, [], ◌∷◌, map, some, Bytes, arith, keep, All, Bool-cases, inl,
  inr,
}
use ripestream.Base.Int.{ℤ, pos, leb_ℤ, ◌<ℤ◌}
use ripestream.Base.Float.{Float}
use ripestream.Base.Ascii.{join, Lacks, split-join}
use ripestream.Base.Text.{ltb_bytes}
use ripestream.Store.Statements.{trim_space}
use ripestream.Graph.Values.{Go, column, as_int, as_float, as_string, as_bool}
use ripestream.Atlas.Probes.{
  ProbeMetadata, ProbeApiRecord, is_blank, insert_tag, sort_tags, place, normalize_probe_metadata,
}
use ripestream.Graph.Inventory.{Metadata, tags_of, metadata_at, probe_metadata_from_row, operation}

-- A tag without commas, and without white space around it.
pub record IsSlug (tag : Bytes) : Type 0 where
  pub filled : is_blank tag ≡ false
  pub trimmed : trim_space tag ≡ tag
  pub plain : Lacks 44 tag

-- The record of internal/graph for one of internal/atlas.
abbrev pub written : {fl : Float} → ℤ → ProbeMetadata fl → Metadata fl
written fetched_at item = record {
  display_name = item.display_name;
  description = item.description;
  probe_type = item.probe_type;
  country_code = item.country_code;
  latitude = item.latitude;
  longitude = item.longitude;
  is_anchor = item.is_anchor;
  is_public = item.is_public;
  firmware_version = item.firmware_version;
  status_id = item.status_id;
  status_name = item.status_name;
  status_since = item.status_since;
  first_connected = item.first_connected;
  last_connected = item.last_connected;
  prefix_v4 = item.prefix_v4;
  prefix_v6 = item.prefix_v6;
  asn_v4 = item.asn_v4;
  asn_v6 = item.asn_v6;
  tags = item.tag_slugs;
  updated_at = fetched_at;
}

keep-slugs :
    (tags : List Bytes)
    → All IsSlug tags
    → keep (λ t. not (is_blank t)) (map trim_space tags) ≡ tags
keep-slugs [] h = refl
keep-slugs (t ∷ ts) h = rw (h.0.trimmed, h.0.filled, keep-slugs ts h.1) refl

plain_tags : (tags : List Bytes) → All IsSlug tags → All (Lacks 44) tags
plain_tags [] h = tt
plain_tags (t ∷ ts) h = (h.0.plain, plain_tags ts h.1)

blank-join :
    (tag : Bytes) (tags : List Bytes)
    → is_blank tag ≡ false
    → is_blank (join (44 ∷ []) (tag ∷ tags)) ≡ false
unfolding join
blank-join [] tags h = absurd (ground arith)
blank-join (c ∷ cs) [] h = refl
blank-join (c ∷ cs) (t ∷ ts) h = refl

tags_of-join : (tags : List Bytes) → All IsSlug tags → tags_of (join (44 ∷ []) tags) ≡ tags
unfolding tags_of join
tags_of-join [] h = refl
tags_of-join (t ∷ ts) h =
    rw (blank-join t ts h.0.filled, split-join 44 t ts (plain_tags (t ∷ ts) h))
      (keep-slugs (t ∷ ts) h)

operation-read :
    (go : Go) (item : ProbeMetadata (Go.fl go)) (fetched_at : ℤ)
    → pos 0 <ℤ fetched_at
    → Go.finite go item.latitude ≡ true
    → Go.finite go item.longitude ≡ true
    → All IsSlug item.tag_slugs
    → probe_metadata_from_row go (operation fetched_at item) ≡ some (written fetched_at item)
unfolding probe_metadata_from_row metadata_at operation column as_int as_float as_string as_bool
operation-read go item fetched_at h lat lon tags =
    let late : leb_ℤ fetched_at (pos 0) ≡ false = ground arith in
    rw (late, lat, lon, tags_of-join item.tag_slugs tags) refl

All-insert_tag {κ} :
    (P : Bytes → Type κ) (t : Bytes) (ts : List Bytes) → P t → All P ts → All P (insert_tag t ts)
unfolding insert_tag
All-insert_tag P t [] p h = (p, tt)
All-insert_tag P t (u ∷ us) p h = elim (Bool-cases (ltb_bytes u t)) [
  | inl e ↦ rw e (h.0, All-insert_tag P t us p h.1)
  | inr e ↦ rw e (p, h)
]

All-sort_tags {κ} : (P : Bytes → Type κ) (ts : List Bytes) → All P ts → All P (sort_tags ts)
unfolding sort_tags
All-sort_tags P [] h = tt
All-sort_tags P (t ∷ ts) h = All-insert_tag P t (sort_tags ts) h.0 (All-sort_tags P ts h.1)

-- A tag that white space does not surround and that has no comma; it may be empty.
abbrev pub IsTag : Bytes → Type 0
IsTag tag = (trim_space tag ≡ tag) × Lacks 44 tag

kept_slugs : (tags : List Bytes) → All IsTag tags → All IsSlug (keep (λ t. not (is_blank t)) tags)
kept_slugs [] h = tt
kept_slugs (t ∷ ts) h = elim (Bool-cases (is_blank t)) [
  | inl e ↦ rw e (kept_slugs ts h.1)
  | inr e ↦ rw e (record { filled = e; trimmed = h.0.0; plain = h.0.1 }, kept_slugs ts h.1)
]

module _ (go : Go) where
  finite_place :
      (at : List (Float.F (Go.fl go)))
      → Go.finite go (Float.of_nat (Go.fl go) 0) ≡ true
      → All (λ x. Go.finite go x ≡ true) at
      → (Go.finite go (place (Go.fl go) at).0 ≡ true)
        × (Go.finite go (place (Go.fl go) at).1 ≡ true)
  unfolding place
  finite_place [] z h = (z, z)
  finite_place (x ∷ []) z h = (z, z)
  finite_place (x ∷ y ∷ rest) z h = (h.0, h.1.0)

-- A record of the probe API, brought to its normal form, written on its node and read back: the reader
-- gives every field of the normal form, when the time of the fetch is positive, the coordinates are
-- finite, as zero is, and no tag has white space at an end or contains a comma.
pub probe_metadata_from_row-operation :
    (go : Go) (r : ProbeApiRecord (Go.fl go)) (fetched_at : ℤ)
    → pos 0 <ℤ fetched_at
    → Go.finite go (Float.of_nat (Go.fl go) 0) ≡ true
    → All (λ x. Go.finite go x ≡ true) r.coordinates
    → All IsTag r.tags
    → probe_metadata_from_row go (operation fetched_at (normalize_probe_metadata (Go.fl go) r))
      ≡ some (written fetched_at (normalize_probe_metadata (Go.fl go) r))
unfolding normalize_probe_metadata
probe_metadata_from_row-operation go r fetched_at h zero_finite at tags =
    let coordinates = finite_place go r.coordinates zero_finite at in
    operation-read go (normalize_probe_metadata (Go.fl go) r) fetched_at h coordinates.1
      coordinates.0 (All-sort_tags IsSlug _ (kept_slugs r.tags tags))
