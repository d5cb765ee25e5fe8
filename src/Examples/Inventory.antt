-- ===== src/Examples/Inventory.antt =====
-- The inventory of probes, and the search.
use ripestream.Base.{
  ℕ, ◌≡◌, refl, true, false, ◌&&◌, List, [], ◌∷◌, map, none, some, Bytes, ◌⊎◌, inr, All, arith,
}
use ripestream.Base.Int.{ℤ, pos, negsuc, ltb_ℤ}
use ripestream.Base.Text.{bytes_eq, ltb_bytes}
use ripestream.Base.Ascii
use ripestream.Base.Ascii.{ascii, to_lower, format_int, digits}
use ripestream.Base.Sorted.{sort_by, insert_by}
use ripestream.Store.Statements.{trim_space, trim_left, is_space}
use ripestream.Graph.Values.{Row, int, text, texts, column, as_int, as_string, ptr_if}
use ripestream.Atlas.Probes.{
  ProbeMetadata, ProbeApiRecord, is_blank, ordered_ids, insert_id, fetch, fetch_probe_batch,
  normalize_probe_metadata,
}
use ripestream.Atlas.Probes
use ripestream.Atlas.Probes.Batches.{concat, IsBatch, gather, IsAscending, among, fetch-gather}
use ripestream.Graph.Inventory.{probe_metadata_from_row, operation}
use ripestream.Graph.Inventory.Stored.{written, probe_metadata_from_row-operation}
use ripestream.Graph.Search
use ripestream.Graph.Search.{SearchDb, SearchResult}
use ripestream.Graph.Search.Query
use ripestream.Graph.Search.Query.{search, search_limit, collect}
use ripestream.Examples.{whole, go}

-- Probe 7 of the inventory's test, and one without a description.
abbrev api_record : ℤ → ProbeApiRecord whole
api_record id = record {
  id = id;
  description = [];
  country_code = ascii "nl";
  is_anchor = false;
  is_public = true;
  firmware_version = pos 5080;
  status_since = pos 100;
  first_connected = pos 10;
  last_connected = pos 200;
  prefix_v4 = [];
  prefix_v6 = [];
  asn_v4 = pos 64500;
  asn_v6 = pos 0;
  coordinates = 4 ∷ 52 ∷ [];
  status_id = pos 1;
  status_name = ascii "Connected";
  tags = ascii "system-v5" ∷ [] ∷ ascii "fibre" ∷ [];
}

normal_form_test :
    (ProbeMetadata.display_name (normalize_probe_metadata whole (api_record (pos 7)))
      ≡ ascii "Hardware v5 in NL")
    × (ProbeMetadata.tag_slugs (normalize_probe_metadata whole (api_record (pos 7)))
        ≡ ascii "fibre" ∷ ascii "system-v5" ∷ [])
unfolding normalize_probe_metadata Probes.probe_type Probes.hardware_type Probes.sort_tags
    Probes.insert_tag Probes.display_name_of Ascii.to_upper ascii ltb_bytes bytes_eq trim_space
    trim_left is_space
normal_form_test = (refl, refl)

probe_metadata_from_row-operation_example :
    probe_metadata_from_row go
      (operation (pos 1700000000) (normalize_probe_metadata whole (api_record (pos 7))))
    ≡ some (written (pos 1700000000) (normalize_probe_metadata whole (api_record (pos 7))))
unfolding trim_space trim_left is_space ascii Ascii.Lacks
probe_metadata_from_row-operation_example =
    probe_metadata_from_row-operation go (api_record (pos 7)) (pos 1700000000) (omega arith) refl
      (refl, (refl, tt))
      (
        (refl, (refl, (refl, (refl, (refl, (refl, (refl, (refl, (refl, (refl, tt)))))))))),
        ((refl, tt), ((refl, (refl, (refl, (refl, (refl, (refl, tt)))))), tt)),
      )

abbrev request : List ℤ → Bytes ⊎ List (ProbeApiRecord whole)
request ids = inr (map api_record ids)

abbrev wanted : List ℤ
wanted = pos 9 ∷ pos 7 ∷ negsuc 0 ∷ pos 7 ∷ []

ordered_ids_test : ordered_ids wanted ≡ pos 7 ∷ pos 9 ∷ []
unfolding ordered_ids insert_id
ordered_ids_test = refl

fetch-gather_example :
    (asked : List (List ℤ)) × (concat asked ≡ ordered_ids wanted)
    × All IsBatch asked
    × (fetch request wanted ≡ gather (map (λ b. fetch_probe_batch (request b)) asked))
    × IsAscending (ordered_ids wanted)
    × ((j : ℤ) → among j (ordered_ids wanted) ≡ (among j wanted && ltb_ℤ (pos 0) j))
fetch-gather_example = fetch-gather whole request wanted

abbrev as_row : ℕ → Bytes → List Bytes → Row whole
as_row asn org ips =
    ("asn", int (pos asn)) ∷ ("org", text org) ∷ ("ipCount", int (pos 9)) ∷ ("ips", texts ips) ∷ []

-- The query for names fails; that for numbers names one network twice.
abbrev search_db : SearchDb go
search_db = record {
  by_org = λ _ _. none;
  by_asn = λ _ _. some (
      as_row 64501 (ascii "Net") []
      ∷ as_row 64500 (ascii "Lab") ((1 ∷ []) ∷ (2 ∷ []) ∷ [])
      ∷ as_row 64501 (ascii "Net") []
      ∷ []);
  by_addr = λ _ _. none;
  by_probe_id = λ _ _. none;
  by_probe_name = λ _ _. none;
}

search_test :
    map (λ r. SearchResult.label r) (search go search_db (ascii " 64") (pos 5))
    ≡ ascii "Lab" ∷ ascii "Net" ∷ []
unfolding search search_limit collect Query.hits_of Query.arrange Search.as_result Search.texts_of
    Search.is_numeric_prefix Search.all_digits Search.looks_like_ip Search.all_address_bytes
    Search.dedupe_search Search.dedupe_loop Search.key_of Search.kind_name Search.identity_of
    Search.number_or Search.ip_count Search.rank_hit Search.hit_less sort_by insert_by column as_int
    as_string ptr_if format_int digits ascii to_lower Ascii.has_prefix Ascii.contains bytes_eq
    trim_space trim_left is_space
search_test = refl
