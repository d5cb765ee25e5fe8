-- ===== src/Graph/Routes/Ends.antt =====
-- The loop over the depths ends within its fuel.
use ripestream.Base.{
  ℕ, zero, suc, ◌+◌, ◌≤◌, ◌<◌, ◌≢◌, refl, Bool, true, false, ◌&&◌, leb, List, [], ◌∷◌, arith, Bytes,
  Option, none, some, Bool-cases, ◌⊎◌, inl, inr,
}
use ripestream.Base.Int.{ℤ}
use ripestream.Graph.Values.{Go, Row, clamp_limit}
use ripestream.Graph.Routes.{
  Walk, Db, Outcome, Next, row_id, waits, goes_on, turn, answered, iterate, next, loop, start,
  traverse,
}
use ripestream.Graph.Routes.Reply.{
  GraphNode, Reply, with_edges, with_nodes, load, from_seed, ip_route_graph,
}

module _ (go : Go) (db : Db (Go.fl go)) (max_depth limit : ℕ) where
  -- A next iteration is asked for only below the depth limit.
  Bounded : ℕ → Next → Type 0
  Bounded depth (Next.stop o) = o ≢ Outcome.running
  Bounded depth (Next.again r w) = depth ≤ max_depth

  turn-Bounded :
      (depth : ℕ) (reached : Bool) (w : Walk) (limited : Bool)
      → depth ≤ max_depth
      → Bounded depth (turn go db max_depth limit depth reached w limited)
  unfolding Bounded turn
  turn-Bounded depth reached w true h = λ e. cc e
  turn-Bounded depth reached w false h = h

  answered-Bounded :
      (depth : ℕ) (reached : Bool) (w : Walk) (ups downs : Bytes ⊎ List ℤ)
      → depth ≤ max_depth
      → Bounded depth (answered go db max_depth limit depth reached w ups downs)
  unfolding Bounded answered
  answered-Bounded depth reached w (inl e) downs h = λ e. cc e
  answered-Bounded depth reached w (inr us) (inl e) h = λ e. cc e
  answered-Bounded depth reached w (inr us) (inr ds) h = turn-Bounded depth reached _ _ h

  iterate-Bounded :
      (depth : ℕ) (reached : Bool) (w : Walk) (error : Option Bytes)
      → depth ≤ max_depth
      → Bounded depth (iterate go db max_depth limit depth reached w error)
  unfolding Bounded iterate
  iterate-Bounded depth reached w (some e) h = λ e. cc e
  iterate-Bounded depth reached w none h = answered-Bounded depth reached w _ _ h

  next-Bounded :
      (depth : ℕ) (reached : Bool) (w : Walk)
      → Bounded depth (next go db max_depth limit depth reached w)
  unfolding Bounded next goes_on
  next-Bounded depth reached w = elim (Bool-cases (leb depth max_depth && waits w)) [
    | inl h ↦ rw h (iterate-Bounded depth reached w (Db.context_error db depth) (ground arith))
    | inr h ↦ rw h (λ e. cc e)
  ]

  loop-ends :
      (fuel depth : ℕ) (reached : Bool) (w : Walk)
      → depth ≤ suc max_depth
      → suc max_depth < fuel + depth
      → loop go db max_depth limit fuel depth reached w ≢ Outcome.running
  unfolding loop Bounded
  loop-ends zero depth reached w d f = absurd (omega arith)
  loop-ends (suc fuel) depth reached w d f =
      from_next (next go db max_depth limit depth reached w) (next-Bounded depth reached w)
        (λ r v le. loop-ends fuel (suc depth) r v (omega arith) (omega arith))
    where
      from_next :
          (n : Next)
          → Bounded depth n
          → ((r : Bool) (v : Walk)
              → depth ≤ max_depth
              → loop go db max_depth limit fuel (suc depth) r v ≢ Outcome.running)
          → elim n [
            | Next.stop o ↦ o
            | Next.again r v ↦ loop go db max_depth limit fuel (suc depth) r v
          ]
            ≢ Outcome.running
      from_next (Next.stop o) b rest = b
      from_next (Next.again r v) b rest = rest r v b

  traverse-ends : (seed_id : ℤ) → traverse go db max_depth limit seed_id ≢ Outcome.running
  unfolding traverse
  traverse-ends seed_id =
      loop-ends (suc max_depth) 1 false (start seed_id) (omega arith) (omega arith)

  module _ (addr : Bytes) where
    with_edges-ends :
        (t : Walk) (reached : Bool) (nodes : List GraphNode)
        (answer : Bytes ⊎ List (Row (Go.fl go)))
        → with_edges go db addr max_depth limit t reached nodes answer ≢ Reply.running
    unfolding with_edges
    with_edges-ends t reached nodes (inl e) h = cc h
    with_edges-ends t reached nodes (inr rows) h = cc h

    with_nodes-ends :
        (seed_id : ℤ) (t : Walk) (reached : Bool) (answer : Bytes ⊎ List (Row (Go.fl go)))
        → with_nodes go db addr max_depth limit seed_id t reached answer ≢ Reply.running
    unfolding with_nodes
    with_nodes-ends seed_id t reached (inl e) h = cc h
    with_nodes-ends seed_id t reached (inr rows) h = with_edges-ends t reached _ _ h

    load-ends :
        (seed_id : ℤ) (outcome : Outcome)
        → outcome ≢ Outcome.running
        → load go db addr max_depth limit seed_id outcome ≢ Reply.running
    unfolding load
    load-ends seed_id (Outcome.failed e) n h = cc h
    load-ends seed_id (Outcome.finished t reached) n h = with_nodes-ends seed_id t reached _ h
    load-ends seed_id Outcome.running n h = n refl

    from_seed-ends :
        (answer : Bytes ⊎ List (Row (Go.fl go)))
        → from_seed go db addr max_depth limit answer ≢ Reply.running
    unfolding from_seed
    from_seed-ends (inl e) h = cc h
    from_seed-ends (inr []) h = cc h
    from_seed-ends (inr (row ∷ more)) h =
        load-ends (row_id go row) (traverse go db max_depth limit (row_id go row))
          (traverse-ends (row_id go row)) h

-- Whatever the database answers and whatever the limits asked for, the walk ends within its fuel, one
-- round more than the depth limit: the call returns a graph or an error.
pub ip_route_graph-ne-running :
    (go : Go) (db : Db (Go.fl go)) (addr : Bytes) (max_depth node_limit : ℤ)
    → ip_route_graph go db addr max_depth node_limit ≢ Reply.running
unfolding ip_route_graph
ip_route_graph-ne-running go db addr max_depth node_limit =
    from_seed-ends go db (clamp_limit max_depth 15 30) (clamp_limit node_limit 400 1000) addr
      (Db.seed_rows db addr)
