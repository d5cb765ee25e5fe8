-- ===== src/Graph/Search.antt =====
-- internal/graph/search.go: the hits of a free-text query, without duplicates and by relevance.
-- The queries are FalkorDB's answers, an argument; one that fails adds no hits.
pub mod Query
pub mod Keys
pub mod Listing
use ripestream.Base.{
  ℕ, ◌+◌, ltb, leb, ◌==◌, Bool, true, false, not, ◌&&◌, ◌||◌, List, [], ◌∷◌, ◌++◌, map, Option,
  none, some, Bytes, length, take, if◌then◌else◌,
}
use ripestream.Base.Int.{ℤ, pos, pos_part, leb_ℤ, ltb_ℤ}
use ripestream.Base.Float.{Float}
use ripestream.Base.Text.{bytes_eq}
use ripestream.Base.Assoc.{member}
use ripestream.Base.Ascii.{ascii, to_lower, has_prefix, contains, join, format_int}
use ripestream.Store.Statements.{trim_space}
use ripestream.Graph.Values.{Value, Row, Go, column, as_int, as_string, ptr_if}
use ripestream.Graph.Inventory.{Metadata, probe_metadata_from_row}
use ripestream.Atlas.Probes.{is_blank}

pub data Kind : Type 0 where
  as_hit ip_hit probe_hit : Kind

-- `SearchResult`.
pub record SearchResult : Type 0 where
  pub kind : Kind
  pub label : Bytes
  pub addr : Bytes
  pub addrs : List Bytes
  pub asn : Option ℤ
  pub probe_id : Option ℤ
  pub org : Bytes
  pub sub : Bytes

-- The four queries, each on its text and its limit.
pub record SearchDb (go : Go) : Type 0 where
  pub by_org : Bytes → ℕ → Option (List (Row (Go.fl go)))
  pub by_asn : Bytes → ℕ → Option (List (Row (Go.fl go)))
  pub by_addr : Bytes → ℕ → Option (List (Row (Go.fl go)))
  pub by_probe_id : Bytes → ℕ → Option (List (Row (Go.fl go)))
  pub by_probe_name : Bytes → ℕ → Option (List (Row (Go.fl go)))

-- " · ", with the middle dot in UTF-8.
abbrev pub dot : Bytes
dot = 32 ∷ 194 ∷ 183 ∷ 32 ∷ []

abbrev pub is_digit : ℕ → Bool
is_digit c = leb 48 c && leb c 57

unfoldable pub all_digits : Bytes → Bool
all_digits [] = true
all_digits (c ∷ cs) = is_digit c && all_digits cs

unfoldable pub is_numeric_prefix : Bytes → Bool
is_numeric_prefix s = not (is_blank s) && all_digits s

abbrev pub is_address_byte : ℕ → Bool
is_address_byte c =
    is_digit c || (leb 97 c && leb c 102) || (leb 65 c && leb c 70) || c == 46 || c == 58

unfoldable pub all_address_bytes : Bytes → Bool
all_address_bytes [] = true
all_address_bytes (c ∷ cs) = is_address_byte c && all_address_bytes cs

unfoldable pub looks_like_ip : Bytes → Bool
looks_like_ip s = not (is_blank s) && all_address_bytes s

-- An array that the row may lack, by the readings of its elements.
unfoldable pub texts_of : {fl : Float} → Value fl → List Bytes
texts_of (Value.texts ts) = ts
texts_of _ = []

abbrev pub first_of : List Bytes → Bytes
first_of [] = []
first_of (a ∷ _) = a

abbrev pub unless_blank : Bytes → List Bytes
unless_blank [] = []
unless_blank (c ∷ cs) = (c ∷ cs) ∷ []

module _ (go : Go) where
  -- The body of the loop of `asHitsFromRows`.
  unfoldable pub as_result : Row (Go.fl go) → SearchResult
  as_result r =
      let asn : ℤ = as_int go (column "asn" r) in
      let ips : List Bytes = texts_of (column "ips" r) in
      record {
        kind = Kind.as_hit;
        label = as_string go (column "org" r);
        addr = first_of ips;
        addrs = ips;
        asn = ptr_if asn;
        probe_id = none;
        org = as_string go (column "org" r);
        sub =
            ascii "AS"
            ++ format_int asn
            ++ dot
            ++ format_int (as_int go (column "ipCount" r))
            ++ ascii " IPs";
      }

  unfoldable pub ip_result : Row (Go.fl go) → SearchResult
  ip_result r =
      let addr : Bytes = as_string go (column "addr" r) in
      let asn : ℤ = as_int go (column "asn" r) in
      let org : Bytes = as_string go (column "org" r) in
      let known : Bool = ltb_ℤ (pos 0) asn in
      record {
        kind = Kind.ip_hit;
        label = addr;
        addr = addr;
        addrs = [];
        asn = if known then ptr_if asn else none;
        probe_id = none;
        org = if known then org else [];
        sub =
            if known
            then ascii "AS" ++ format_int asn ++ (if is_blank org then [] else dot ++ org)
            else [];
      }

  -- The label and the parts of the second line of a probe.
  unfoldable pub probe_texts : Bytes → Option (Metadata (Go.fl go)) → Bytes × List Bytes
  probe_texts label none = (label, label ∷ [])
  probe_texts label (some m) = (
    if is_blank m.display_name then label else m.display_name,
    label ∷ unless_blank m.probe_type ++ unless_blank m.country_code,
  )

  unfoldable pub probe_result : Row (Go.fl go) → SearchResult
  probe_result r =
      let id : ℤ = as_int go (column "id" r) in
      let asn : ℤ = as_int go (column "asn" r) in
      let texts : Bytes × List Bytes =
        probe_texts (ascii "Probe " ++ format_int id) (probe_metadata_from_row go r) in
      let known : Bool = ltb_ℤ (pos 0) asn in
      record {
        kind = Kind.probe_hit;
        label = texts.0;
        addr = as_string go (column "addr" r);
        addrs = [];
        asn = if known then ptr_if asn else none;
        probe_id = ptr_if id;
        org = if known then as_string go (column "org" r) else [];
        sub = join dot texts.1;
      }

unfoldable pub kind_name : Kind → Bytes
kind_name Kind.as_hit = ascii "as:"
kind_name Kind.ip_hit = ascii "ip:"
kind_name Kind.probe_hit = ascii "probe:"

unfoldable pub number_or : Option ℤ → Bytes → Bytes
number_or none text = text
number_or (some n) text = format_int n

unfoldable pub identity_of : SearchResult → Kind → Bytes
identity_of h Kind.as_hit = number_or h.asn h.label
identity_of h Kind.probe_hit = number_or h.probe_id h.addr
identity_of h Kind.ip_hit = h.addr

-- The key by which `dedupeSearch` knows a hit.
unfoldable pub key_of : SearchResult → Bytes
key_of h = kind_name h.kind ++ identity_of h h.kind

-- The loop of `dedupeSearch`, on the keys seen so far.
unfoldable pub dedupe_loop : List Bytes → List SearchResult → List SearchResult
dedupe_loop seen [] = []
dedupe_loop seen (h ∷ hs) =
    let without = dedupe_loop seen hs in
    let with = dedupe_loop (key_of h ∷ seen) hs in
    if member (key_of h) seen then without else h ∷ with

unfoldable pub dedupe_search : List SearchResult → List SearchResult
dedupe_search hits = dedupe_loop [] hits

-- `ipCount`.
unfoldable pub ip_count : SearchResult → Kind → ℕ
ip_count h Kind.as_hit = length h.addrs
ip_count h _ = 0

unfoldable pub rank_hit : SearchResult → Bytes → ℕ
rank_hit h q =
    let label : Bytes = to_lower h.label in
    if bytes_eq label q
    then 0
    else if has_prefix label q
    then 1
    else if contains label q
    then 2
    else 3

-- The order of the sort.
unfoldable pub hit_less : Bytes → SearchResult → SearchResult → Bool
hit_less q a b =
    if not (rank_hit a q == rank_hit b q)
    then ltb (rank_hit a q) (rank_hit b q)
    else ltb (ip_count b b.kind) (ip_count a a.kind)
