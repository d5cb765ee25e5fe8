-- ===== src/Graph/Routes/Replied.antt =====
-- From a complete reply back to the walk that it was made of.
use ripestream.Base.{
  ℕ, ◌<◌, ◌≡◌, refl, sym, ap, ◌∙◌, Bool, true, false, List, [], ◌∷◌, map, arith, length, ltb, Bytes,
  ◌⊎◌, inl, inr,
}
use ripestream.Base.Int.{ℤ}
use ripestream.Graph.Values.{Go, Row, clamp_limit}
use ripestream.Graph.Routes.{keys, Walk, Db, Outcome, row_id, traverse}
use ripestream.Graph.Routes.Reply.{
  GraphNode, IpRouteGraph, Reply, reason, is_none, node, with_edges, with_nodes, load, from_seed,
  ip_route_graph,
}
use ripestream.Graph.Routes.Trails.{Answers}
use ripestream.Graph.Routes.Complete.{clamp_limit-pos, known_iff, known-Says, Exact}
use ripestream.Graph.Routes.Exact.{traverse-Ended}

reason-none :
    (cut limited reached : Bool)
    → is_none (reason cut limited reached) ≡ true
    → (limited ≡ false) × (reached ≡ false)
unfolding reason
reason-none cut true reached h = absurd (ground arith)
reason-none cut false true h = absurd (ground arith)
reason-none cut false false h = (refl, refl)

module _ (go : Go) (db : Db (Go.fl go)) (addr : Bytes) (max_depth limit : ℕ)
    (g : IpRouteGraph (Go.fl go)) (complete : g.complete ≡ true) where
  completeness : Reply (Go.fl go) → Bool
  completeness (Reply.graph r) = r.complete
  completeness _ = false

  reply_nodes : Reply (Go.fl go) → List GraphNode
  reply_nodes (Reply.graph r) = r.nodes
  reply_nodes _ = []

  with_edges-whole :
      (t : Walk) (reached : Bool) (nodes : List GraphNode) (answer : Bytes ⊎ List (Row (Go.fl go)))
      → with_edges go db addr max_depth limit t reached nodes answer ≡ Reply.graph g
      → (t.limited ≡ false) × (reached ≡ false) × (g.nodes ≡ nodes)
  unfolding with_edges completeness reply_nodes
  with_edges-whole t reached nodes (inl e) h = absurd (cc h)
  with_edges-whole t reached nodes (inr rows) h =
      let free =
        reason-none (ltb 10000 (length rows)) t.limited reached (ap completeness h ∙ complete) in
      (free.0, free.1, sym (ap reply_nodes h))

  -- The walk behind a complete reply.
  record Behind (seed_id : ℤ) (outcome : Outcome) : Type 0 where
    t : Walk
    ended : outcome ≡ Outcome.finished t false
    free : t.limited ≡ false
    rows : List (Row (Go.fl go))
    loaded : Db.node_rows db (keys t.info) ≡ inr rows
    noted : g.nodes ≡ map (node go seed_id t.info) rows

  with_nodes-Behind :
      (seed_id : ℤ) (t : Walk) (reached : Bool) (answer : Bytes ⊎ List (Row (Go.fl go)))
      → Db.node_rows db (keys t.info) ≡ answer
      → with_nodes go db addr max_depth limit seed_id t reached answer ≡ Reply.graph g
      → Behind seed_id (Outcome.finished t reached)
  unfolding with_nodes
  with_nodes-Behind seed_id t reached (inl e) eq h = absurd (cc h)
  with_nodes-Behind seed_id t reached (inr rows) eq h =
      let back =
        with_edges-whole t reached (map (node go seed_id t.info) rows)
          (Db.edge_rows db (keys t.info) 10001) h in
      record {
        t = t;
        ended = rw back.1 refl;
        free = back.0;
        rows = rows;
        loaded = eq;
        noted = back.2;
      }

  load-Behind :
      (seed_id : ℤ) (outcome : Outcome)
      → load go db addr max_depth limit seed_id outcome ≡ Reply.graph g
      → Behind seed_id outcome
  unfolding load
  load-Behind seed_id (Outcome.failed e) h = absurd (cc h)
  load-Behind seed_id (Outcome.finished t reached) h =
      with_nodes-Behind seed_id t reached (Db.node_rows db (keys t.info)) refl h
  load-Behind seed_id Outcome.running h = absurd (cc h)

  module _ (edge : ℤ → ℤ → Type 0) (answers : Answers go db edge) where
    Behind-Exact :
        (row : Row (Go.fl go)) (more : List (Row (Go.fl go)))
        → 0 < max_depth
        → 0 < limit
        → Db.seed_rows db addr ≡ inr (row ∷ more)
        → Behind (row_id go row) (traverse go db max_depth limit (row_id go row))
        → Exact go db edge addr g
    Behind-Exact row more d l seeded b =
        let seed_id : ℤ = row_id go row in
        let ended =
          traverse-Ended go db edge answers max_depth limit seed_id b.t false d l b.ended in
        let closed = ended.1 b.free refl in
        record {
          seed_row = row;
          more = more;
          info = b.t.info;
          rows = b.rows;
          seeded = seeded;
          loaded = b.loaded;
          noted = b.noted;
          whole = known_iff go db edge answers max_depth limit seed_id b.t false ended.0 closed;
          placed = known-Says go db edge answers max_depth limit seed_id b.t false ended.0 closed;
        }

    from_seed-Exact :
        (answer : Bytes ⊎ List (Row (Go.fl go)))
        → 0 < max_depth
        → 0 < limit
        → Db.seed_rows db addr ≡ answer
        → from_seed go db addr max_depth limit answer ≡ Reply.graph g
        → Exact go db edge addr g
    unfolding from_seed
    from_seed-Exact (inl e) d l seeded h = absurd (cc h)
    from_seed-Exact (inr []) d l seeded h = absurd (cc h)
    from_seed-Exact (inr (row ∷ more)) d l seeded h =
        Behind-Exact row more d l seeded
          (load-Behind (row_id go row) (traverse go db max_depth limit (row_id go row)) h)

-- A reply that calls itself complete is the whole of what edges lead to. When the queries for
-- neighbors answer the frontier's neighbors, each once and all of them below their limit, the
-- identifiers whose nodes a complete reply lists are those with a trail from the seed, towards
-- predecessors or towards successors, and the role and depth of each node say which: upstream, a
-- trail of that depth towards predecessors and none towards successors; downstream the other way
-- round; both, a trail each way, one of them of that depth.
pub ip_route_graph-Exact :
    (go : Go) (db : Db (Go.fl go)) (edge : ℤ → ℤ → Type 0) (addr : Bytes) (max_depth node_limit : ℤ)
    (g : IpRouteGraph (Go.fl go))
    → Answers go db edge
    → ip_route_graph go db addr max_depth node_limit ≡ Reply.graph g
    → g.complete ≡ true
    → Exact go db edge addr g
unfolding ip_route_graph
ip_route_graph-Exact go db edge addr max_depth node_limit g answers h complete =
    let d : ℕ = clamp_limit max_depth 15 30 in
    let l : ℕ = clamp_limit node_limit 400 1000 in
    from_seed-Exact go db addr d l g complete edge answers (Db.seed_rows db addr)
      (clamp_limit-pos max_depth 15 30 (omega arith) (omega arith))
      (clamp_limit-pos node_limit 400 1000 (omega arith) (omega arith)) refl h
