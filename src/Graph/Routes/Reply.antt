-- ===== src/Graph/Routes/Reply.antt =====
-- IPRouteGraph of internal/graph/queries_read.go: its limits, and the reply that it makes of the walk.
-- The identifiers go to the queries in the order of the map; Go's order is any.
use ripestream.Base.{
  ℕ, ◌+◌, ltb, ◌==◌, Bool, true, false, ◌||◌, ◌&&◌, List, [], ◌∷◌, map, Option, none, some, Bytes,
  length, take, if◌then◌else◌, ◌⊎◌, inl, inr,
}
use ripestream.Base.Int.{ℤ}
use ripestream.Base.Float.{Float}
use ripestream.Graph.Values.{Go, Row, column, as_int, as_float, as_string, ptr_if, clamp_limit}
use ripestream.Graph.Routes.{
  same, Depths, Info, depths_at, keys, find, Walk, Db, RouteError, Outcome, row_id, traverse,
}

-- `TraversalRole`.
pub data Role : Type 0 where
  seed upstream downstream both : Role

-- `GraphNode`, with the fields that this reply fills in; the kind is "ip".
pub record GraphNode : Type 0 where
  pub id : Bytes
  pub label : Bytes
  pub asn : Option ℤ
  pub org : Bytes
  pub traversal_role : Role
  pub depth : ℕ
  pub last_seen : ℤ

-- `GraphEdge`, with the fields that this reply fills in; the kind is "next_hop".
pub record GraphEdge (fl : Float) : Type 0 where
  pub from : Bytes
  pub to : Bytes
  pub last_rtt_ms : Float.F fl
  pub seen_count : ℤ
  pub last_seen : ℤ

pub data Truncation : Type 0 where
  edge_limit_reached node_limit_reached depth_limit_reached : Truncation

-- `IPRouteGraph`; no truncation reason is the empty text.
pub record IpRouteGraph (fl : Float) : Type 0 where
  pub seed : Bytes
  pub nodes : List GraphNode
  pub edges : List (GraphEdge fl)
  pub complete : Bool
  pub max_depth : ℕ
  pub node_limit : ℕ
  pub truncation_reason : Option Truncation

-- What the call returns; `running` means that the fuel ran out.
pub data Reply (fl : Float) : Type 0 where
  error : RouteError → Reply fl
  graph : IpRouteGraph fl → Reply fl
  running : Reply fl

-- The role and the depth of a node.
unfoldable pub role_of : Bool → Depths → Role × ℕ
role_of is_seed v =
    if is_seed
    then (Role.seed, 0)
    else if ltb 0 v.up_depth && v.down_depth == 0
    then (Role.upstream, v.up_depth)
    else if ltb 0 v.down_depth && v.up_depth == 0
    then (Role.downstream, v.down_depth)
    else if ltb 0 v.down_depth && (v.up_depth == 0 || ltb v.down_depth v.up_depth)
    then (Role.both, v.down_depth)
    else (Role.both, v.up_depth)

abbrev pub edge_cap : ℕ
edge_cap = 10000

-- The last reason that applies, as the assignments overwrite each other.
unfoldable pub reason : Bool → Bool → Bool → Option Truncation
reason edges_cut limited reached =
    if limited
    then some Truncation.node_limit_reached
    else if reached
    then some Truncation.depth_limit_reached
    else if edges_cut
    then some Truncation.edge_limit_reached
    else none

abbrev pub is_none : Option Truncation → Bool
is_none none = true
is_none (some _) = false

module _ (go : Go) where
  unfoldable pub node : ℤ → Info → Row (Go.fl go) → GraphNode
  node seed_id info row =
      let id : ℤ = row_id go row in
      let place : Role × ℕ = role_of (same id seed_id) (depths_at (find id info)) in
      record {
        id = as_string go (column "addr" row);
        label = as_string go (column "addr" row);
        asn = ptr_if (as_int go (column "asn" row));
        org = as_string go (column "org" row);
        traversal_role = place.0;
        depth = place.1;
        last_seen = as_int go (column "last_seen" row);
      }

  unfoldable pub graph_edge : Row (Go.fl go) → GraphEdge (Go.fl go)
  graph_edge row = record {
    from = as_string go (column "f" row);
    to = as_string go (column "t" row);
    last_rtt_ms = as_float go (column "rtt" row);
    seen_count = as_int go (column "sc" row);
    last_seen = as_int go (column "last_seen" row);
  }

  module _ (db : Db (Go.fl go)) (addr : Bytes) (max_depth node_limit : ℕ) where
    unfoldable pub with_edges :
        Walk → Bool → List GraphNode → Bytes ⊎ List (Row (Go.fl go)) → Reply (Go.fl go)
    with_edges t reached nodes (inl e) = Reply.error (RouteError.load_edges e)
    with_edges t reached nodes (inr rows) =
        let why : Option Truncation = reason (ltb edge_cap (length rows)) t.limited reached in
        Reply.graph (record {
          seed = addr;
          nodes = nodes;
          edges = map graph_edge (take edge_cap rows);
          complete = is_none why;
          max_depth = max_depth;
          node_limit = node_limit;
          truncation_reason = why;
        })

    unfoldable pub with_nodes : ℤ → Walk → Bool → Bytes ⊎ List (Row (Go.fl go)) → Reply (Go.fl go)
    with_nodes seed_id t reached (inl e) = Reply.error (RouteError.load_nodes e)
    with_nodes seed_id t reached (inr rows) =
        with_edges t reached (map (node seed_id t.info) rows)
          (Db.edge_rows db (keys t.info) (edge_cap + 1))

    unfoldable pub load : ℤ → Outcome → Reply (Go.fl go)
    load seed_id (Outcome.failed e) = Reply.error e
    load seed_id (Outcome.finished t reached) =
        with_nodes seed_id t reached (Db.node_rows db (keys t.info))
    load seed_id Outcome.running = Reply.running

    unfoldable pub from_seed : Bytes ⊎ List (Row (Go.fl go)) → Reply (Go.fl go)
    from_seed (inl e) = Reply.error (RouteError.no_seed e)
    from_seed (inr []) = Reply.error (RouteError.not_found addr)
    from_seed (inr (row ∷ _)) =
        let seed_id : ℤ = row_id go row in
        load seed_id (traverse go db max_depth node_limit seed_id)

  -- `IPRouteGraph`, on the fields of its filter.
  unfoldable pub ip_route_graph : Db (Go.fl go) → Bytes → ℤ → ℤ → Reply (Go.fl go)
  ip_route_graph db addr max_depth node_limit =
      from_seed db addr (clamp_limit max_depth 15 30) (clamp_limit node_limit 400 1000)
        (Db.seed_rows db addr)
