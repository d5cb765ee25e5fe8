-- ===== src/Graph/Writer.antt =====
-- internal/graph/store.go: what a record adds to the batch of pending upserts, and the loop `Run`
-- that writes the batches. Decoding and the ASN database are arguments; a flush succeeds or fails.
pub mod Joined
use ripestream.Base.{
  ℕ, ◌+◌, ◌%◌, ◌^◌, Bool, true, false, not, ◌&&◌, ◌||◌, List, [], ◌∷◌, ◌++◌, Option, none, some,
  String, str_eq, Bytes, leb, ◌==◌, if◌then◌else◌, length,
}
use ripestream.Base.Int.{ℤ, pos, leb_ℤ, ltb_ℤ, eqb_ℤ, pos_part}
use ripestream.Base.Float.{Float}
use ripestream.Base.Text.{bytes_eq}
use ripestream.Graph.Parse.{
  Hop, HopIp, PingPayload, is_blank, responsive_hops, loss_ratio, is_graph_type,
}

-- The fields of `atlas.Record` that the graph reads.
pub record AtlasRecord : Type 0 where
  pub timestamp : ℤ
  pub msm_id : ℕ
  pub prb_id : ℕ
  pub type : String
  pub from_ip : Bytes
  pub af : ℕ
  pub proto : String
  pub dst_addr : Bytes
  pub result_json : Bytes

-- The rows of the four lists of a batch.
pub record NextHop (fl : Float) : Type 0 where
  pub from : HopIp fl
  pub to : HopIp fl
  pub ts : ℤ
  pub proto : String
  pub af : ℕ

pub record AsLink : Type 0 where
  pub asn_a : ℤ
  pub org_a : Bytes
  pub asn_b : ℤ
  pub org_b : Bytes
  pub ts : ℤ

pub record ProbeRow : Type 0 where
  pub prb_id : ℕ
  pub from_ip : Bytes
  pub dst_addr : Bytes
  pub msm_id : ℕ
  pub ts : ℤ
  pub af : ℕ
  pub from_as : ℤ × Bytes
  pub dst_as : ℤ × Bytes

pub record PingRow (fl : Float) : Type 0 where
  pub source : ProbeRow
  pub payload : PingPayload fl
  pub loss : Float.F fl

pub record Batch (fl : Float) : Type 0 where
  pub next_hops : List (NextHop fl)
  pub as_links : List AsLink
  pub probes : List ProbeRow
  pub pings : List (PingRow fl)

-- `clear`.
abbrev pub cleared : {fl : Float} → Batch fl
cleared = record { next_hops = []; as_links = []; probes = []; pings = [] }

-- `len`.
abbrev pub size_of : {fl : Float} → Batch fl → ℕ
size_of b = length b.next_hops + length b.as_links + length b.probes + length b.pings

abbrev pub u64 : ℕ
u64 = 2 ^ 64

-- `lookupASN`: an empty address, and one that the database does not know, has number 0 and no name.
-- A database that is missing is one that knows no address.
abbrev pub lookup_asn : (Bytes → Option (ℤ × Bytes)) → Bytes → ℤ × Bytes
lookup_asn find ip = if is_blank ip then (pos 0, []) else found (find ip)
  where
    found : Option (ℤ × Bytes) → ℤ × Bytes
    found none = (pos 0, [])
    found (some a) = a

abbrev probe_row : (Bytes → Option (ℤ × Bytes)) → AtlasRecord → ProbeRow
probe_row find r = record {
  prb_id = r.prb_id;
  from_ip = r.from_ip;
  dst_addr = r.dst_addr;
  msm_id = r.msm_id;
  ts = r.timestamp;
  af = r.af;
  from_as = lookup_asn find r.from_ip;
  dst_as = lookup_asn find r.dst_addr;
}

module _ {fl : Float} where
  abbrev with_asn : (Bytes → Option (ℤ × Bytes)) → List (HopIp fl) → List (HopIp fl)
  with_asn find [] = []
  with_asn find (h ∷ hs) =
      record {
        addr = h.addr;
        rtt = h.rtt;
        asn = (lookup_asn find h.addr).0;
        org = (lookup_asn find h.addr).1;
      }
      ∷ with_asn find hs

  abbrev pub skips_pair : HopIp fl → HopIp fl → Bool
  skips_pair a c = is_blank a.addr || is_blank c.addr || bytes_eq a.addr c.addr

  abbrev pub links_as : HopIp fl → HopIp fl → Bool
  links_as a c = ltb_ℤ (pos 0) a.asn && ltb_ℤ (pos 0) c.asn && not (eqb_ℤ a.asn c.asn)

  abbrev next_hop : AtlasRecord → HopIp fl → HopIp fl → NextHop fl
  next_hop r a c = record { from = a; to = c; ts = r.timestamp; proto = r.proto; af = r.af }

  abbrev as_link : AtlasRecord → HopIp fl → HopIp fl → AsLink
  as_link r a c = record {
    asn_a = a.asn;
    org_a = a.org;
    asn_b = c.asn;
    org_b = c.org;
    ts = r.timestamp;
  }

  -- A round of the loop over neighbouring hops.
  unfoldable pub append_pair : AtlasRecord → HopIp fl → HopIp fl → Batch fl → Batch fl
  append_pair r a c b = if skips_pair a c then b else record {
    next_hops = b.next_hops ++ next_hop r a c ∷ [];
    as_links = if links_as a c then b.as_links ++ as_link r a c ∷ [] else b.as_links;
    probes = b.probes;
    pings = b.pings;
  }

  unfoldable pub append_hops : AtlasRecord → List (HopIp fl) → Batch fl → Batch fl
  append_hops r [] b = b
  append_hops r (a ∷ []) b = b
  append_hops r (a ∷ c ∷ hs) b = append_hops r (c ∷ hs) (append_pair r a c b)

  abbrev add_probe : Batch fl → ProbeRow → Batch fl
  add_probe b p = record {
    next_hops = b.next_hops;
    as_links = b.as_links;
    probes = b.probes ++ p ∷ [];
    pings = b.pings;
  }

  abbrev add_ping : Batch fl → PingRow fl → Batch fl
  add_ping b p = record {
    next_hops = b.next_hops;
    as_links = b.as_links;
    probes = b.probes;
    pings = b.pings ++ p ∷ [];
  }

  -- The decoders: `none` is an error of encoding/json.
  module _ (decode_hops : Bytes → Option (List (Hop fl)))
      (decode_ping : Bytes → Option (PingPayload fl)) (find : Bytes → Option (ℤ × Bytes)) where
    -- `appendTraceroute`; `none` is its error.
    unfoldable pub append_traceroute : AtlasRecord → Batch fl → Option (Batch fl)
    append_traceroute r b = decoded (decode_hops r.result_json)
      where
        decoded : Option (List (Hop fl)) → Option (Batch fl)
        decoded none = none
        decoded (some hops) =
            let out = append_hops r (with_asn find (responsive_hops hops)) b in
            some (
              if is_blank r.from_ip && is_blank r.dst_addr
              then out
              else add_probe out (probe_row find r))

    -- `appendPing`; a payload that cannot be decoded and a missing destination are errors.
    unfoldable pub append_ping : AtlasRecord → Batch fl → Option (Batch fl)
    append_ping r b = decoded (decode_ping r.result_json)
      where
        decoded : Option (PingPayload fl) → Option (Batch fl)
        decoded none = none
        decoded (some pl) =
            if is_blank r.dst_addr
            then none
            else some (
                add_ping b (record {
                  source = probe_row find r;
                  payload = pl;
                  loss = loss_ratio fl pl.sent pl.rcvd;
                }))

    -- `ingest`; `none` where it counts the record as skipped.
    unfoldable pub ingest : AtlasRecord → Batch fl → Option (Batch fl)
    ingest r b =
        if not (is_graph_type r.type)
        then none
        else if str_eq r.type "traceroute"
        then append_traceroute r b
        else if str_eq r.type "ping"
        then append_ping r b
        else some b
