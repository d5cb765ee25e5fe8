-- ===== src/Atlas/Probes.antt =====
-- internal/atlas/probes.go: the inventory of probes, asked for in batches, and its normal form.
-- The HTTP request and the decoding of JSON are an argument, the answer to a batch.
pub mod Batches
use ripestream.Base.{
  ℕ, zero, suc, ◌-◌, ltb, Bool, true, false, not, ◌&&◌, ◌||◌, List, [], ◌∷◌, ◌++◌, map, Option,
  none, some, String, Bytes, if◌then◌else◌, length, take, keep, ◌⊎◌, inl, inr,
}
use ripestream.Base.Int.{ℤ, pos, ltb_ℤ, eqb_ℤ}
use ripestream.Base.Float.{Float}
use ripestream.Base.Text.{bytes_eq, ltb_bytes}
use ripestream.Base.Assoc.{member}
use ripestream.Base.Ascii.{ascii, to_upper}
use ripestream.Store.Statements.{trim_space}

-- `ProbeMetadata`.
pub record ProbeMetadata (fl : Float) : Type 0 where
  pub id : ℤ
  pub display_name : Bytes
  pub description : Bytes
  pub probe_type : Bytes
  pub country_code : Bytes
  pub latitude : Float.F fl
  pub longitude : Float.F fl
  pub is_anchor : Bool
  pub is_public : Bool
  pub firmware_version : ℤ
  pub status_id : ℤ
  pub status_name : Bytes
  pub status_since : ℤ
  pub first_connected : ℤ
  pub last_connected : ℤ
  pub prefix_v4 : Bytes
  pub prefix_v6 : Bytes
  pub asn_v4 : ℤ
  pub asn_v6 : ℤ
  pub tag_slugs : List Bytes

-- `probeAPIRecord`, its nested fields under their path.
pub record ProbeApiRecord (fl : Float) : Type 0 where
  pub id : ℤ
  pub description : Bytes
  pub country_code : Bytes
  pub is_anchor : Bool
  pub is_public : Bool
  pub firmware_version : ℤ
  pub status_since : ℤ
  pub first_connected : ℤ
  pub last_connected : ℤ
  pub prefix_v4 : Bytes
  pub prefix_v6 : Bytes
  pub asn_v4 : ℤ
  pub asn_v6 : ℤ
  pub coordinates : List (Float.F fl)
  pub status_id : ℤ
  pub status_name : Bytes
  pub tags : List Bytes

-- The loop over the hardware versions, from 5 down to 1.
unfoldable pub hardware_type : List String → List Bytes → Bytes
hardware_type [] tags = ascii "RIPE Atlas probe"
hardware_type (version ∷ versions) tags =
    let older = hardware_type versions tags in
    if member (ascii "system-v" ++ ascii version) tags
    then ascii "Hardware v" ++ ascii version
    else older

unfoldable pub probe_type : Bool → List Bytes → Bytes
probe_type true tags =
    if member (ascii "system-virtual") tags then ascii "Virtual anchor" else ascii "Anchor"
probe_type false tags =
    if member (ascii "system-software") tags
    then ascii "Software probe"
    else hardware_type ("5" ∷ "4" ∷ "3" ∷ "2" ∷ "1" ∷ []) tags

abbrev pub is_blank : Bytes → Bool
is_blank [] = true
is_blank (_ ∷ _) = false

-- `sort.Strings`.
unfoldable pub insert_tag : Bytes → List Bytes → List Bytes
insert_tag t [] = t ∷ []
insert_tag t (u ∷ us) = let rest = insert_tag t us in if ltb_bytes u t then u ∷ rest else t ∷ u ∷ us

unfoldable pub sort_tags : List Bytes → List Bytes
sort_tags [] = []
sort_tags (t ∷ ts) = insert_tag t (sort_tags ts)

module _ (fl : Float) where
  -- Longitude and latitude, when there are two coordinates.
  unfoldable pub place : List (Float.F fl) → Float.F fl × Float.F fl
  place (longitude ∷ latitude ∷ _) = (longitude, latitude)
  place _ = (Float.of_nat fl 0, Float.of_nat fl 0)

  unfoldable pub display_name_of : Bytes → Bytes → Bytes → Bytes
  display_name_of description type country =
      if is_blank description
      then type ++ ascii " in " ++ (if is_blank country then ascii "unknown location" else country)
      else description

  -- `normalizeProbeMetadata`.
  unfoldable pub normalize_probe_metadata : ProbeApiRecord fl → ProbeMetadata fl
  normalize_probe_metadata r =
      let tags : List Bytes = sort_tags (keep (λ t. not (is_blank t)) r.tags) in
      let description : Bytes = trim_space r.description in
      let country : Bytes = to_upper r.country_code in
      let type : Bytes = probe_type r.is_anchor tags in
      let at : Float.F fl × Float.F fl = place r.coordinates in
      record {
        id = r.id;
        display_name = display_name_of description type country;
        description = description;
        probe_type = type;
        country_code = country;
        latitude = at.1;
        longitude = at.0;
        is_anchor = r.is_anchor;
        is_public = r.is_public;
        firmware_version = r.firmware_version;
        status_id = r.status_id;
        status_name = r.status_name;
        status_since = r.status_since;
        first_connected = r.first_connected;
        last_connected = r.last_connected;
        prefix_v4 = r.prefix_v4;
        prefix_v6 = r.prefix_v6;
        asn_v4 = r.asn_v4;
        asn_v6 = r.asn_v6;
        tag_slugs = tags;
      }

-- The set of positive identifiers in ascending order, as the map and the sort give it.
unfoldable pub insert_id : ℤ → List ℤ → List ℤ
insert_id id [] = id ∷ []
insert_id id (x ∷ xs) =
    let rest = insert_id id xs in
    if eqb_ℤ x id then x ∷ xs else if ltb_ℤ x id then x ∷ rest else id ∷ x ∷ xs

unfoldable pub ordered_ids : List ℤ → List ℤ
ordered_ids [] = []
ordered_ids (id ∷ ids) =
    let rest = ordered_ids ids in if ltb_ℤ (pos 0) id then insert_id id rest else rest

abbrev pub drop {ℓ} : {A : Type ℓ} → ℕ → List A → List A
drop zero xs = xs
drop (suc n) [] = []
drop (suc n) (x ∷ xs) = drop n xs

-- `fetchProbeBatch`, on the records of the page that answers the request, or its error.
unfoldable pub fetch_probe_batch :
    {fl : Float} → Bytes ⊎ List (ProbeApiRecord fl) → Bytes ⊎ List (ProbeMetadata fl)
fetch_probe_batch (inl e) = inl e
fetch_probe_batch {fl = fl} (inr records) = inr (map (normalize_probe_metadata fl) records)

module _ {fl : Float} (request : List ℤ → Bytes ⊎ List (ProbeApiRecord fl)) where
  unfoldable pub append_batch :
      Bytes ⊎ List (ProbeMetadata fl)
      → Bytes ⊎ List (ProbeMetadata fl)
      → Bytes ⊎ List (ProbeMetadata fl)
  append_batch (inl e) _ = inl e
  append_batch (inr batch) (inl e) = inl e
  append_batch (inr batch) (inr rest) = inr (batch ++ rest)

  -- The loop over the batches; each round takes 500, so the length of the list is fuel enough.
  unfoldable pub fetch_batches : ℕ → List ℤ → Bytes ⊎ List (ProbeMetadata fl)
  fetch_batches fuel [] = inr []
  fetch_batches zero (id ∷ ids) = inr []
  fetch_batches (suc fuel) (id ∷ ids) =
      append_batch (fetch_probe_batch (request (take 500 (id ∷ ids))))
        (fetch_batches fuel (drop 500 (id ∷ ids)))

  -- `Fetch`.
  unfoldable pub fetch : List ℤ → Bytes ⊎ List (ProbeMetadata fl)
  fetch ids = let ordered : List ℤ = ordered_ids ids in fetch_batches (length ordered) ordered
