-- ===== src/Graph/Topology.antt =====
-- Subgraph of internal/graph/queries_read.go: the seed of the view, and the nodes and edges made of the
-- rows of its queries. A query that fails adds nothing.
use ripestream.Base.{
  ℕ, List, [], ◌∷◌, ◌++◌, map, Option, none, some, String, Bytes, if◌then◌else◌, ◌⊎◌, inl, inr,
}
use ripestream.Base.Int.{ℤ, pos, ltb_ℤ}
use ripestream.Base.Float.{Float}
use ripestream.Base.Ascii.{ascii}
use ripestream.Graph.Values.{Row, Go, column, as_int, as_float, as_string, ptr_if, clamp_limit}
use ripestream.Graph.Inventory.{Metadata, probe_metadata_from_row}
use ripestream.Atlas.Probes.{is_blank}

-- `SubgraphFilter`.
pub record SubgraphFilter : Type 0 where
  pub asn : ℤ
  pub probe : ℤ
  pub target : Bytes
  pub depth : ℤ
  pub limit : ℤ

pub data Seed : Type 0 where
  target_seed : Bytes → Seed
  probe_seed as_seed : ℤ → Seed
  busiest_as : Seed

-- `GraphNode`, with the fields that this reply fills in.
pub record Node (fl : Float) : Type 0 where
  pub id : Bytes
  pub kind : String
  pub label : Bytes
  pub asn : Option ℤ
  pub org : Bytes
  pub probe_metadata : Option (Metadata fl)

-- `GraphEdge`, with the fields that this reply fills in.
pub record Edge (fl : Float) : Type 0 where
  pub from : Bytes
  pub to : Bytes
  pub kind : String
  pub last_rtt_ms : Float.F fl
  pub loss_ratio : Float.F fl
  pub seen_count : ℤ

-- `Subgraph`.
pub record Subgraph (fl : Float) : Type 0 where
  pub nodes : List (Node fl)
  pub edges : List (Edge fl)

-- The answers to the queries on the identifiers of the neighborhood; none for a failed one.
pub record SubgraphDb (fl : Float) : Type 0 where
  pub id_rows : Seed → ℕ → ℕ → Bytes ⊎ List (List ℤ)
  pub ips : List ℤ → Option (List (Row fl))
  pub ases : List ℤ → Option (List (Row fl))
  pub probes : List ℤ → Option (List (Row fl))
  pub next_hops : List ℤ → Option (List (Row fl))
  pub in_as : List ℤ → Option (List (Row fl))
  pub transits : List ℤ → Option (List (Row fl))
  pub pings : List ℤ → Option (List (Row fl))
  pub targets : List ℤ → Option (List (Row fl))
  pub located_at : List ℤ → Option (List (Row fl))

-- The switch over the filter.
unfoldable pub seed_of : SubgraphFilter → Seed
seed_of f =
    if is_blank f.target
    then (if ltb_ℤ (pos 0) f.probe
        then Seed.probe_seed f.probe
        else if ltb_ℤ (pos 0) f.asn
        then Seed.as_seed f.asn
        else Seed.busiest_as)
    else Seed.target_seed f.target

unfoldable pub rows_or {ℓ κ} : {A : Type ℓ} {B : Type κ} → (A → B) → Option (List A) → List B
rows_or f none = []
rows_or f (some rows) = map f rows

unfoldable pub probe_label : {fl : Float} → Bytes → Option (Metadata fl) → Bytes
probe_label id none = ascii "Probe " ++ id
probe_label id (some m) = if is_blank m.display_name then ascii "Probe " ++ id else m.display_name

module _ (go : Go) where
  abbrev zero_f : Float.F (Go.fl go)
  zero_f = Float.of_nat (Go.fl go) 0

  unfoldable pub ip_node : Row (Go.fl go) → Node (Go.fl go)
  ip_node r =
      let asn : ℤ = as_int go (column "asn" r) in
      record {
        id = as_string go (column "addr" r);
        kind = "ip";
        label = as_string go (column "addr" r);
        asn = if ltb_ℤ (pos 0) asn then ptr_if asn else none;
        org = as_string go (column "org" r);
        probe_metadata = none;
      }

  unfoldable pub as_node : Row (Go.fl go) → Node (Go.fl go)
  as_node r = record {
    id = ascii "AS" ++ as_string go (column "asn" r);
    kind = "as";
    label = ascii "AS" ++ as_string go (column "asn" r);
    asn = ptr_if (as_int go (column "asn" r));
    org = as_string go (column "org" r);
    probe_metadata = none;
  }

  unfoldable pub probe_node : Row (Go.fl go) → Node (Go.fl go)
  probe_node r =
      let id : Bytes = as_string go (column "id" r) in
      record {
        id = ascii "P" ++ id;
        kind = "probe";
        label = probe_label id (probe_metadata_from_row go r);
        asn = none;
        org = [];
        probe_metadata = probe_metadata_from_row go r;
      }

  -- An edge between the keys of its ends, under a kind, with the columns that its query has.
  unfoldable pub next_hop_edge : Row (Go.fl go) → Edge (Go.fl go)
  next_hop_edge r = record {
    from = as_string go (column "f" r);
    to = as_string go (column "t" r);
    kind = "next_hop";
    last_rtt_ms = as_float go (column "rtt" r);
    loss_ratio = zero_f;
    seen_count = as_int go (column "sc" r);
  }

  unfoldable pub transit_edge : Row (Go.fl go) → Edge (Go.fl go)
  transit_edge r = record {
    from = ascii "AS" ++ as_string go (column "f" r);
    to = ascii "AS" ++ as_string go (column "t" r);
    kind = "transits";
    last_rtt_ms = zero_f;
    loss_ratio = zero_f;
    seen_count = as_int go (column "sc" r);
  }

  unfoldable pub ping_edge : Row (Go.fl go) → Edge (Go.fl go)
  ping_edge r = record {
    from = ascii "P" ++ as_string go (column "f" r);
    to = as_string go (column "t" r);
    kind = "ping";
    last_rtt_ms = as_float go (column "rtt" r);
    loss_ratio = as_float go (column "loss" r);
    seen_count = pos 0;
  }

  unfoldable pub plain_edge : String → Bytes → Bytes → Row (Go.fl go) → Edge (Go.fl go)
  plain_edge kind from_prefix to_prefix r = record {
    from = from_prefix ++ as_string go (column "f" r);
    to = to_prefix ++ as_string go (column "t" r);
    kind = kind;
    last_rtt_ms = zero_f;
    loss_ratio = zero_f;
    seen_count = pos 0;
  }

  module _ (db : SubgraphDb (Go.fl go)) where
    unfoldable pub assemble : List ℤ → Subgraph (Go.fl go)
    assemble ids = record {
      nodes =
          rows_or ip_node (SubgraphDb.ips db ids)
          ++ rows_or as_node (SubgraphDb.ases db ids)
          ++ rows_or probe_node (SubgraphDb.probes db ids);
      edges =
          rows_or next_hop_edge (SubgraphDb.next_hops db ids)
          ++ rows_or (plain_edge "in_as" [] (ascii "AS")) (SubgraphDb.in_as db ids)
          ++ rows_or transit_edge (SubgraphDb.transits db ids)
          ++ rows_or ping_edge (SubgraphDb.pings db ids)
          ++ rows_or (plain_edge "targets" (ascii "P") []) (SubgraphDb.targets db ids)
          ++ rows_or (plain_edge "located_at" (ascii "P") []) (SubgraphDb.located_at db ids);
    }

    abbrev empty_subgraph : Subgraph (Go.fl go)
    empty_subgraph = record { nodes = []; edges = [] }

    unfoldable pub from_ids : List (List ℤ) → Subgraph (Go.fl go)
    from_ids [] = empty_subgraph
    from_ids ([] ∷ _) = empty_subgraph
    from_ids ((id ∷ ids) ∷ _) = assemble (id ∷ ids)

    unfoldable pub from_answer : Bytes ⊎ List (List ℤ) → Bytes ⊎ Subgraph (Go.fl go)
    from_answer (inl e) = inl e
    from_answer (inr rows) = inr (from_ids rows)

    unfoldable pub subgraph : SubgraphFilter → Bytes ⊎ Subgraph (Go.fl go)
    subgraph f =
        from_answer
          (SubgraphDb.id_rows db (seed_of f) (clamp_limit f.depth 2 4) (clamp_limit f.limit 80 300))
