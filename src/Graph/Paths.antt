-- ===== src/Graph/Paths.antt =====
-- The path between two addresses, the reachable destinations and the hot hops: Path and scanHotHops of
-- internal/graph/queries_read.go, and internal/graph/reachable.go, on the rows of their queries.
pub mod Hops
use ripestream.Base.{
  ℕ, Bool, List, [], ◌∷◌, map, Option, none, some, Bytes, if◌then◌else◌, ◌⊎◌, inl, inr, ◌||◌, false,
  true,
}
use ripestream.Base.Int.{ℤ, pos, negsuc, pos_part, leb_ℤ, ltb_ℤ}
use ripestream.Base.Float.{Float}
use ripestream.Base.Text.{bytes_eq}
use ripestream.Base.Assoc.{Dict, lookup, put}
use ripestream.Graph.Values.{Value, Row, Go, column, as_int, as_float, as_string, ptr_if}
use ripestream.Graph.Search.{texts_of}
use ripestream.Atlas.Probes.{is_blank}

-- `HotHop`.
pub record HotHop (fl : Float) : Type 0 where
  pub from_addr : Bytes
  pub to_addr : Bytes
  pub from_asn : Option ℤ
  pub from_org : Bytes
  pub to_asn : Option ℤ
  pub to_org : Bytes
  pub last_rtt_ms : Float.F fl
  pub seen_count : ℤ
  pub last_seen : ℤ

-- `PathHop`.
pub record PathHop (fl : Float) : Type 0 where
  pub addr : Bytes
  pub asn : Option ℤ
  pub org : Bytes
  pub rtt_ms : Float.F fl
  pub seen_count : ℤ

-- `asnInfo`.
pub record AsnInfo : Type 0 where
  pub asn : ℤ
  pub org : Bytes

-- The row of the path: its three arrays, by the readings of their elements.
pub record PathRow (fl : Float) : Type 0 where
  pub addrs : List Bytes
  pub rtts : List (Float.F fl)
  pub seen_counts : List ℤ

-- What `Path` returns; `panicked` is an index out of range.
pub data PathReply (fl : Float) : Type 0 where
  failed : Bytes → PathReply fl
  not_found : PathReply fl
  found : List (PathHop fl) → PathReply fl
  panicked : PathReply fl

-- `ReachableGroup`.
pub record ReachableGroup : Type 0 where
  pub asn : Option ℤ
  pub org : Bytes
  pub ip_count : ℤ
  pub sample_ip : List Bytes
  pub from_probe : Bool

-- The greatest length of the path that the query looks for.
unfoldable pub max_hops : ℤ → ℕ
max_hops n = if leb_ℤ n (pos 0) then 15 else if ltb_ℤ (pos 30) n then 15 else pos_part n

module _ (go : Go) where
  unfoldable pub hot_hop : Row (Go.fl go) → HotHop (Go.fl go)
  hot_hop r = record {
    from_addr = as_string go (column "fa" r);
    to_addr = as_string go (column "ta" r);
    from_asn = ptr_if (as_int go (column "faasn" r));
    from_org = as_string go (column "faorg" r);
    to_asn = ptr_if (as_int go (column "taasn" r));
    to_org = as_string go (column "taorg" r);
    last_rtt_ms = as_float go (column "rtt" r);
    seen_count = as_int go (column "sc" r);
    last_seen = as_int go (column "ls" r);
  }

  -- `scanHotHops`.
  unfoldable pub scan_hot_hops : List (Row (Go.fl go)) → List (HotHop (Go.fl go))
  scan_hot_hops rows = map hot_hop rows

  -- The loop of `asnBatch`: a later row of an address replaces an earlier one.
  unfoldable pub asn_map : Dict AsnInfo → List (Row (Go.fl go)) → Dict AsnInfo
  asn_map m [] = m
  asn_map m (r ∷ rs) =
      asn_map
        (put m (as_string go (column "addr" r))
          (record { asn = as_int go (column "asn" r); org = as_string go (column "org" r) }))
        rs

  -- `groupsFromRows`, for rows of probes or of transit.
  unfoldable pub group_of : Bool → Row (Go.fl go) → ReachableGroup
  group_of from_probe r =
      let asn : ℤ = as_int go (column "asn" r) in
      record {
        asn = if ltb_ℤ (pos 0) asn then ptr_if asn else none;
        org = as_string go (column "org" r);
        ip_count = as_int go (column "n" r);
        sample_ip = texts_of (column "sample" r);
        from_probe = from_probe;
      }

  -- The second query of `ReachableDestinations`, and its choice between the two.
  unfoldable pub transit_groups : Bytes ⊎ List (Row (Go.fl go)) → Bytes ⊎ List ReachableGroup
  transit_groups (inl e) = inl e
  transit_groups (inr rows) = inr (map (group_of false) rows)

  unfoldable pub choose_groups :
      Bytes ⊎ List (Row (Go.fl go)) → Bytes ⊎ List (Row (Go.fl go)) → Bytes ⊎ List ReachableGroup
  choose_groups (inl e) hops = transit_groups hops
  choose_groups (inr []) hops = transit_groups hops
  choose_groups (inr (r ∷ rs)) hops = inr (map (group_of true) (r ∷ rs))

  unfoldable pub reachable_destinations :
      Bytes
      → Bytes ⊎ List (Row (Go.fl go))
      → Bytes ⊎ List (Row (Go.fl go))
      → Bytes ⊎ List ReachableGroup
  reachable_destinations src probes hops =
      if is_blank src then inr [] else choose_groups probes hops

module _ {fl : Float} where
  unfoldable pub enrich : Option AsnInfo → Bytes → Float.F fl → ℤ → PathHop fl
  enrich none addr rtt seen = record {
    addr = addr;
    asn = none;
    org = [];
    rtt_ms = rtt;
    seen_count = seen;
  }
  enrich (some info) addr rtt seen = record {
    addr = addr;
    asn = ptr_if info.asn;
    org = info.org;
    rtt_ms = rtt;
    seen_count = seen;
  }

  -- The hops behind the first, each with the entry of its index less one.
  unfoldable pub later_hops :
      Dict AsnInfo → List Bytes → List (Float.F fl) → List ℤ → Option (List (PathHop fl))
  later_hops m [] rtts seens = some []
  later_hops m (a ∷ rest) [] seens = none
  later_hops m (a ∷ rest) (rtt ∷ rtts) [] = none
  later_hops m (a ∷ rest) (rtt ∷ rtts) (seen ∷ seens) =
      prepend (enrich (lookup a m) a rtt seen) (later_hops m rest rtts seens)
    where
      prepend : PathHop fl → Option (List (PathHop fl)) → Option (List (PathHop fl))
      prepend h none = none
      prepend h (some hs) = some (h ∷ hs)

  unfoldable pub with_first : PathHop fl → Option (List (PathHop fl)) → PathReply fl
  with_first h none = PathReply.panicked
  with_first h (some hs) = PathReply.found (h ∷ hs)

  -- The reply on the addresses of the row; the first hop has no edge, and its time is `unknown`, -1.
  unfoldable pub path_of : Float.F fl → Dict AsnInfo → PathRow fl → List Bytes → PathReply fl
  path_of unknown m row [] = PathReply.not_found
  path_of unknown m row (a ∷ rest) =
      with_first (enrich (lookup a m) a unknown (pos 0))
        (later_hops m rest row.rtts row.seen_counts)

  -- `Path`, on the rows of its query and the map of `asnBatch`.
  unfoldable pub path : Float.F fl → Bytes ⊎ List (PathRow fl) → Dict AsnInfo → PathReply fl
  path unknown (inl e) m = PathReply.failed e
  path unknown (inr []) m = PathReply.not_found
  path unknown (inr (row ∷ _)) m = path_of unknown m row row.addrs
