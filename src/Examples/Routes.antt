-- ===== src/Examples/Routes.antt =====
-- The route graph of a chain of three addresses.
use ripestream.Base.{
  ℕ, ◌≤◌, ◌≡◌, ◌≢◌, refl, ap, Bool, true, false, List, [], ◌∷◌, map, none, Bytes, arith, ◌⊎◌, inl,
  inr, All, length,
}
use mathlib.Core.Path.{subst}
use ripestream.Base.Int.{ℤ, pos}
use ripestream.Graph.Values.{Row, int, column, as_int, as_string, ptr_if, clamp_limit}
use ripestream.Graph.Routes
use ripestream.Graph.Routes.{
  Direction, upward, downward, Db, has, same, Walk, Outcome, finished, row_id, traverse,
}
use ripestream.Graph.Routes.Reply
use ripestream.Graph.Routes.Reply.{
  Role, Reply, graph, running, IpRouteGraph, GraphNode, ip_route_graph,
}
use ripestream.Graph.Routes.Members.{same_iff, Distinct}
use ripestream.Graph.Routes.Trails.{Trail, Along, Answers}
use ripestream.Graph.Routes.Visits.{side, level}
use ripestream.Graph.Routes.Exact.{traverse_sound}
use ripestream.Graph.Routes.Complete.{Exact}
use ripestream.Graph.Routes.Replied.{ip_route_graph-Exact}
use ripestream.Graph.Routes.Ends.{ip_route_graph-ne-running}
use ripestream.Examples.{whole, go}

-- 1 → 2 → 3
abbrev Chain : ℤ → ℤ → Type 0
Chain a b = ((a ≡ pos 1) × (b ≡ pos 2)) ⊎ ((a ≡ pos 2) × (b ≡ pos 3))

abbrev id_row : ℤ → Row whole
id_row id = ("id", int id) ∷ []

abbrev hits : Bool → Bool → ℤ → ℤ → List (Row whole)
hits true true x y = id_row x ∷ id_row y ∷ []
hits true false x y = id_row x ∷ []
hits false true x y = id_row y ∷ []
hits false false x y = []

abbrev adjacent : Direction → List ℤ → List (Row whole)
adjacent upward frontier = hits (has (pos 2) frontier) (has (pos 3) frontier) (pos 1) (pos 2)
adjacent downward frontier = hits (has (pos 1) frontier) (has (pos 2) frontier) (pos 2) (pos 3)

-- No answer has more than two rows, so no limit of two or more cuts it.
abbrev db : Db whole
db = record {
  seed_rows = λ _. inr (id_row (pos 2) ∷ []);
  neighbors = λ way frontier _. inr (adjacent way frontier);
  node_rows = λ ids. inr (map id_row ids);
  edge_rows = λ _ _. inr [];
  context_error = λ _. none;
}

abbrev rows_in : Bytes ⊎ List (Row whole) → List (Row whole)
rows_in (inl _) = []
rows_in (inr rows) = rows

module _ (x y : ℤ) where
  hits_sound :
      (P : ℤ → Type 0) (p q : Bool)
      → (p ≡ true → P x)
      → (q ≡ true → P y)
      → All P (map (row_id go) (hits p q x y))
  unfolding column as_int
  hits_sound P true true hx hy = (hx refl, (hy refl, tt))
  hits_sound P true false hx hy = (hx refl, tt)
  hits_sound P false true hx hy = (hy refl, tt)
  hits_sound P false false hx hy = tt

  hits-Distinct : (p q : Bool) → same y x ≡ false → Distinct (map (row_id go) (hits p q x y))
  unfolding column as_int Distinct has
  hits-Distinct true true n = (rw n refl, (refl, tt))
  hits-Distinct true false n = (refl, tt)
  hits-Distinct false true n = (refl, tt)
  hits-Distinct false false n = tt

  hits-first :
      (p q : Bool) (id : ℤ) → p ≡ true → id ≡ x → has id (map (row_id go) (hits p q x y)) ≡ true
  unfolding column as_int has
  hits-first true true id h e = ground (arith, same_iff x id)
  hits-first true false id h e = ground (arith, same_iff x id)
  hits-first false q id h e = absurd (ground arith)

  hits-second :
      (p q : Bool) (id : ℤ) → q ≡ true → id ≡ y → has id (map (row_id go) (hits p q x y)) ≡ true
  unfolding column as_int has
  hits-second true true id h e = ground (arith, same_iff y id)
  hits-second false true id h e = ground (arith, same_iff y id)
  hits-second p false id h e = absurd (ground arith)

abbrev Neighbor : Direction → List ℤ → ℤ → Type 0
Neighbor way frontier id = (a : ℤ) × (has a frontier ≡ true) × Along Chain way a id

adjacent_sound :
    (way : Direction) (frontier : List ℤ)
    → All (Neighbor way frontier) (map (row_id go) (adjacent way frontier))
adjacent_sound upward frontier =
    hits_sound (pos 1) (pos 2) (Neighbor upward frontier) (has (pos 2) frontier)
      (has (pos 3) frontier) (λ h. (pos 2, h, inl (refl, refl))) (λ h. (pos 3, h, inr (refl, refl)))
adjacent_sound downward frontier =
    hits_sound (pos 2) (pos 3) (Neighbor downward frontier) (has (pos 1) frontier)
      (has (pos 2) frontier) (λ h. (pos 1, h, inl (refl, refl))) (λ h. (pos 2, h, inr (refl, refl)))

adjacent-Distinct :
    (way : Direction) (frontier : List ℤ) → Distinct (map (row_id go) (adjacent way frontier))
unfolding same
adjacent-Distinct upward frontier = hits-Distinct (pos 1) (pos 2) _ _ refl
adjacent-Distinct downward frontier = hits-Distinct (pos 2) (pos 3) _ _ refl

adjacent-whole :
    (way : Direction) (frontier : List ℤ) (a b : ℤ)
    → has a frontier ≡ true
    → Along Chain way a b
    → has b (map (row_id go) (adjacent way frontier)) ≡ true
adjacent-whole upward frontier a b h (inl e) =
    hits-first (pos 1) (pos 2) _ _ b (subst (λ x. has x frontier ≡ true) e.1 h) e.0
adjacent-whole upward frontier a b h (inr e) =
    hits-second (pos 1) (pos 2) _ _ b (subst (λ x. has x frontier ≡ true) e.1 h) e.0
adjacent-whole downward frontier a b h (inl e) =
    hits-first (pos 2) (pos 3) _ _ b (subst (λ x. has x frontier ≡ true) e.0 h) e.1
adjacent-whole downward frontier a b h (inr e) =
    hits-second (pos 2) (pos 3) _ _ b (subst (λ x. has x frontier ≡ true) e.0 h) e.1

db-Answers : Answers go db Chain
db-Answers = record {
  sound = λ way frontier limit rows e.
      subst (λ r. All (Neighbor way frontier) (map (row_id go) r)) (ap rows_in e)
        (adjacent_sound way frontier);
  distinct = λ way frontier limit rows e.
      subst (λ r. Distinct (map (row_id go) r)) (ap rows_in e) (adjacent-Distinct way frontier);
  whole = λ way frontier limit rows e _ a b h along.
      subst (λ r. has b (map (row_id go) r) ≡ true) (ap rows_in e)
        (adjacent-whole way frontier a b h along);
}

abbrev chain_node : Role → ℕ → GraphNode
chain_node role depth = record {
  id = [];
  label = [];
  asn = none;
  org = [];
  traversal_role = role;
  depth = depth;
  last_seen = pos 0;
}

-- From address 2: its own node, one upstream and one downstream.
abbrev chain_graph : IpRouteGraph whole
chain_graph = record {
  seed = 2 ∷ [];
  nodes = chain_node Role.seed 0 ∷ chain_node Role.upstream 1 ∷ chain_node Role.downstream 1 ∷ [];
  edges = [];
  complete = true;
  max_depth = 15;
  node_limit = 400;
  truncation_reason = none;
}

chain_graph_test : ip_route_graph go db (2 ∷ []) (pos 0) (pos 0) ≡ graph chain_graph
unfolding ip_route_graph Reply.from_seed Reply.load Reply.with_nodes Reply.with_edges Reply.node
    Reply.role_of Reply.reason traverse Routes.loop Routes.next Routes.goes_on Routes.any_left
    Routes.iterate Routes.neighbor_ids Routes.ids_of Routes.answered Routes.turn Routes.alternate
    Routes.visit_up Routes.visit_down Routes.visit Routes.admit has same Routes.find Routes.store
    column as_int as_string ptr_if clamp_limit
chain_graph_test = refl

ip_route_graph-Exact_example : Exact go db Chain (2 ∷ []) chain_graph
ip_route_graph-Exact_example =
    ip_route_graph-Exact go db Chain (2 ∷ []) (pos 0) (pos 0) chain_graph db-Answers
      chain_graph_test refl

ip_route_graph-ne-running_example : ip_route_graph go db (2 ∷ []) (pos 0) (pos 0) ≢ running
ip_route_graph-ne-running_example = ip_route_graph-ne-running go db (2 ∷ []) (pos 0) (pos 0)

-- With room for two nodes only, the walk from 2 ends at its limit, without address 3.
abbrev cut_walk : Walk
cut_walk = record {
  info =
      (pos 2, record { up_depth = 0; down_depth = 0 })
      ∷ (pos 1, record { up_depth = 1; down_depth = 0 })
      ∷ [];
  up = record { seen = pos 1 ∷ pos 2 ∷ []; frontier = pos 1 ∷ [] };
  down = record { seen = pos 2 ∷ []; frontier = [] };
  limited = true;
}

cut_walk_test : traverse go db 15 2 (pos 2) ≡ finished cut_walk false
unfolding traverse Routes.loop Routes.next Routes.goes_on Routes.any_left Routes.iterate
    Routes.neighbor_ids Routes.ids_of Routes.answered Routes.turn Routes.alternate Routes.visit_up
    Routes.visit_down Routes.visit Routes.admit has same Routes.find Routes.store column as_int
cut_walk_test = refl

traverse_sound_example :
    (length cut_walk.info ≤ 2)
    × ((way : Direction) (j : ℤ)
        → has j (side way cut_walk).seen ≡ true
        → Trail Chain way (pos 2) j (level way j cut_walk.info))
traverse_sound_example =
    traverse_sound go db Chain 15 2 (pos 2) cut_walk false db-Answers (omega arith) (omega arith)
      cut_walk_test
