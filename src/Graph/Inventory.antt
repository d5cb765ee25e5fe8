-- ===== src/Graph/Inventory.antt =====
-- The inventory of probes in the graph: what upsertProbeMetadata of internal/graph/probe_metadata.go
-- writes on a node, and what probeMetadataFromRow of internal/graph/query.go reads from one.
pub mod Stored
use ripestream.Base.{
  ℕ, leb, Bool, true, false, not, List, [], ◌∷◌, map, Option, none, some, String, Bytes,
  if◌then◌else◌, keep, ◌⊎◌, inl, inr,
}
use ripestream.Base.Int.{ℤ, pos, leb_ℤ, ltb_ℤ}
use ripestream.Base.Float.{Float}
use ripestream.Base.Ascii.{split, join}
use ripestream.Store.Statements.{trim_space}
use ripestream.Graph.Values.{Value, Row, Go, column, as_int, as_float, as_string, as_bool, ptr_if}
use ripestream.Atlas.Probes.{ProbeMetadata, is_blank}

-- `ProbeMetadata` of internal/graph, which has no identifier and knows when it was written.
pub record Metadata (fl : Float) : Type 0 where
  pub display_name : Bytes
  pub description : Bytes
  pub probe_type : Bytes
  pub country_code : Bytes
  pub latitude : Float.F fl
  pub longitude : Float.F fl
  pub is_anchor : Bool
  pub is_public : Bool
  pub firmware_version : ℤ
  pub status_id : ℤ
  pub status_name : Bytes
  pub status_since : ℤ
  pub first_connected : ℤ
  pub last_connected : ℤ
  pub prefix_v4 : Bytes
  pub prefix_v6 : Bytes
  pub asn_v4 : ℤ
  pub asn_v6 : ℤ
  pub tags : List Bytes
  pub updated_at : ℤ

-- `ProbeInfo`.
pub record ProbeInfo (fl : Float) : Type 0 where
  pub id : ℤ
  pub src_ip : Bytes
  pub src_asn : Option ℤ
  pub src_org : Bytes
  pub metadata : Option (Metadata fl)
  pub avg_rtt_ms : Float.F fl
  pub loss_pct : Float.F fl
  pub last_seen : ℤ

-- The tags of a list that commas separate.
unfoldable pub tags_of : Bytes → List Bytes
tags_of raw =
    if is_blank raw then [] else keep (λ t. not (is_blank t)) (map trim_space (split 44 raw))

module _ (go : Go) where
  unfoldable pub metadata_at : ℤ → Row (Go.fl go) → Metadata (Go.fl go)
  metadata_at updated_at r = record {
    display_name = as_string go (column "display_name" r);
    description = as_string go (column "description" r);
    probe_type = as_string go (column "probe_type" r);
    country_code = as_string go (column "country_code" r);
    latitude = as_float go (column "latitude" r);
    longitude = as_float go (column "longitude" r);
    is_anchor = as_bool (column "is_anchor" r);
    is_public = as_bool (column "is_public" r);
    firmware_version = as_int go (column "firmware_version" r);
    status_id = as_int go (column "status_id" r);
    status_name = as_string go (column "status_name" r);
    status_since = as_int go (column "status_since" r);
    first_connected = as_int go (column "first_connected" r);
    last_connected = as_int go (column "last_connected" r);
    prefix_v4 = as_string go (column "prefix_v4" r);
    prefix_v6 = as_string go (column "prefix_v6" r);
    asn_v4 = as_int go (column "asn_v4" r);
    asn_v6 = as_int go (column "asn_v6" r);
    tags = tags_of (as_string go (column "tag_slugs" r));
    updated_at = updated_at;
  }

  -- `probeMetadataFromRow`.
  unfoldable pub probe_metadata_from_row : Row (Go.fl go) → Option (Metadata (Go.fl go))
  probe_metadata_from_row r =
      let updated_at : ℤ = as_int go (column "metadata_updated_at" r) in
      if leb_ℤ updated_at (pos 0) then none else some (metadata_at updated_at r)

  -- `probeInfoFromRow`.
  unfoldable pub probe_info_from_row : Row (Go.fl go) → ProbeInfo (Go.fl go)
  probe_info_from_row r = record {
    id = as_int go (column "id" r);
    src_ip = as_string go (column "src_ip" r);
    src_asn = ptr_if (as_int go (column "asn" r));
    src_org = as_string go (column "org" r);
    metadata = probe_metadata_from_row r;
    avg_rtt_ms = as_float go (column "rtt" r);
    loss_pct = as_float go (column "loss_pct" r);
    last_seen = as_int go (column "last_seen" r);
  }

  -- `probeIDsNeedingMetadata`, on the rows of its query.
  unfoldable pub positive_ids : List (Row (Go.fl go)) → List ℤ
  positive_ids rows = keep (λ id. ltb_ℤ (pos 0) id) (map (λ row. as_int go (column "id" row)) rows)

-- The operation of a record, whose fields the query sets as the node's properties of the same name.
unfoldable pub operation : {fl : Float} → ℤ → ProbeMetadata fl → Row fl
operation fetched_at item =
    ("id", Value.int item.id)
    ∷ ("display_name", Value.text item.display_name)
    ∷ ("description", Value.text item.description)
    ∷ ("probe_type", Value.text item.probe_type)
    ∷ ("country_code", Value.text item.country_code)
    ∷ ("latitude", Value.float item.latitude)
    ∷ ("longitude", Value.float item.longitude)
    ∷ ("is_anchor", Value.bool item.is_anchor)
    ∷ ("is_public", Value.bool item.is_public)
    ∷ ("firmware_version", Value.int item.firmware_version)
    ∷ ("status_id", Value.int item.status_id)
    ∷ ("status_name", Value.text item.status_name)
    ∷ ("status_since", Value.int item.status_since)
    ∷ ("first_connected", Value.int item.first_connected)
    ∷ ("last_connected", Value.int item.last_connected)
    ∷ ("prefix_v4", Value.text item.prefix_v4)
    ∷ ("prefix_v6", Value.text item.prefix_v6)
    ∷ ("asn_v4", Value.int item.asn_v4)
    ∷ ("asn_v6", Value.int item.asn_v6)
    ∷ ("tag_slugs", Value.text (join (44 ∷ []) item.tag_slugs))
    ∷ ("metadata_updated_at", Value.int fetched_at)
    ∷ ("metadata_checked_at", Value.int fetched_at)
    ∷ []
