-- ===== src/Graph/Routes.antt =====
-- IPRouteGraph of internal/graph/queries_read.go: the walk along NEXT_HOP edges from one address,
-- towards predecessors and successors, under a depth limit and a shared node limit.
-- The queries are FalkorDB's answers, an argument; a failed one carries the text of its error.
pub mod Reply
pub mod Members
pub mod Trails
pub mod Visits
pub mod Covers
pub mod Kept
pub mod Rounds
pub mod Advance
pub mod Turn
pub mod Whole
pub mod Exact
pub mod Complete
pub mod Replied
pub mod Ends
use ripestream.Base.{
  ℕ, zero, suc, ◌+◌, leb, ◌==◌, Bool, true, false, ◌&&◌, ◌||◌, List, [], ◌∷◌, ◌++◌, map, Option,
  none, some, Bytes, length, if◌then◌else◌, ◌⊎◌, inl, inr,
}
use ripestream.Base.Int.{ℤ, eqb_ℤ}
use ripestream.Base.Float.{Float}
use ripestream.Graph.Values.{Go, Row, column, as_int}

unfoldable pub same : ℤ → ℤ → Bool
same a b = eqb_ℤ a b

-- A set of identifiers, `map[int64]bool`, and its test.
unfoldable pub has : ℤ → List ℤ → Bool
has id [] = false
has id (x ∷ xs) = same x id || has id xs

-- `traversalInfo`.
pub record Depths : Type 0 where
  pub up_depth : ℕ
  pub down_depth : ℕ

abbrev pub Info : Type 0
Info = List (ℤ × Depths)

abbrev pub no_depths : Depths
no_depths = record { up_depth = 0; down_depth = 0 }

-- `info[id]`, with whether the key is there.
unfoldable pub find : ℤ → Info → Option Depths
find id [] = none
find id (e ∷ es) = if same e.0 id then some e.1 else find id es

-- What `info[id]` reads, the zero value for a key that the map lacks.
abbrev pub depths_at : Option Depths → Depths
depths_at none = no_depths
depths_at (some v) = v

-- `for id := range info`.
abbrev pub keys : Info → List ℤ
keys [] = []
keys (e ∷ es) = e.0 ∷ keys es

-- `info[id] = v`.
unfoldable pub store : Info → ℤ → Depths → Info
store [] id v = (id, v) ∷ []
store (e ∷ es) id v = if same e.0 id then (id, v) ∷ es else e ∷ store es id v

-- The set and the frontier of one direction.
pub record Side : Type 0 where
  pub seen : List ℤ
  pub frontier : List ℤ

-- The locals of the walk.
pub record Walk : Type 0 where
  pub info : Info
  pub up : Side
  pub down : Side
  pub limited : Bool

-- One direction with what both share.
pub record Visit : Type 0 where
  pub info : Info
  pub side : Side
  pub limited : Bool

pub data Direction : Type 0 where
  upward downward : Direction

abbrev pub set_depth : Direction → ℕ → Depths → Depths
set_depth Direction.upward depth v = record v { up_depth = depth }
set_depth Direction.downward depth v = record v { down_depth = depth }

module _ (way : Direction) (limit depth : ℕ) where
  -- An identifier that this direction has not seen.
  unfoldable pub admit : Visit → ℤ → Option Depths → Visit
  admit v id none = if leb limit (length v.info) then record v { limited = true } else record v {
    info = store v.info id (set_depth way depth no_depths);
    side = record { seen = id ∷ v.side.seen; frontier = v.side.frontier ++ id ∷ [] };
  }
  admit v id (some d) = record v {
    info = store v.info id (set_depth way depth d);
    side = record { seen = id ∷ v.side.seen; frontier = v.side.frontier ++ id ∷ [] };
  }

  -- The body of the loop over the answers, for one direction.
  unfoldable pub visit : Visit → ℤ → Visit
  visit v id = if has id v.side.seen then v else admit v id (find id v.info)

unfoldable pub visit_up : ℕ → ℕ → Walk → ℤ → Walk
visit_up limit depth w id =
    let v : Visit =
      visit Direction.upward limit depth
        (record { info = w.info; side = w.up; limited = w.limited }) id in
    record { info = v.info; up = v.side; down = w.down; limited = v.limited }

unfoldable pub visit_down : ℕ → ℕ → Walk → ℤ → Walk
visit_down limit depth w id =
    let v : Visit =
      visit Direction.downward limit depth
        (record { info = w.info; side = w.down; limited = w.limited }) id in
    record { info = v.info; up = w.up; down = v.side; limited = v.limited }

-- The answers of both directions, in turn.
unfoldable pub alternate : ℕ → ℕ → Walk → List ℤ → List ℤ → Walk
alternate limit depth w [] [] = w
alternate limit depth w (u ∷ us) [] = alternate limit depth (visit_up limit depth w u) us []
alternate limit depth w [] (d ∷ ds) = alternate limit depth (visit_down limit depth w d) [] ds
alternate limit depth w (u ∷ us) (d ∷ ds) =
    alternate limit depth (visit_down limit depth (visit_up limit depth w u) d) us ds

-- What FalkorDB answers to the queries, and the error of the context, if any, at each depth.
pub record Db (fl : Float) : Type 0 where
  pub seed_rows : Bytes → Bytes ⊎ List (Row fl)
  pub neighbors : Direction → List ℤ → ℕ → Bytes ⊎ List (Row fl)
  pub node_rows : List ℤ → Bytes ⊎ List (Row fl)
  pub edge_rows : List ℤ → ℕ → Bytes ⊎ List (Row fl)
  pub context_error : ℕ → Option Bytes

pub data RouteError : Type 0 where
  no_seed not_found interrupted load_nodes load_edges : Bytes → RouteError
  incoming outgoing : ℕ → Bytes → RouteError

-- `finished` carries `reachedDepth`.
pub data Outcome : Type 0 where
  failed : RouteError → Outcome
  finished : Walk → Bool → Outcome
  running : Outcome

-- What an iteration decides.
pub data Next : Type 0 where
  stop : Outcome → Next
  again : Bool → Walk → Next

-- `len(upFrontier) > 0 || len(downFrontier) > 0`.
unfoldable pub any_left : List ℤ → List ℤ → Bool
any_left [] [] = false
any_left [] (_ ∷ _) = true
any_left (_ ∷ _) _ = true

abbrev pub waits : Walk → Bool
waits w = any_left w.up.frontier w.down.frontier

abbrev pub emptied : Side → Side
emptied side = record side { frontier = [] }

abbrev pub row_id : (go : Go) → Row (Go.fl go) → ℤ
row_id go row = as_int go (column "id" row)

unfoldable pub ids_of : (go : Go) → Bytes ⊎ List (Row (Go.fl go)) → Bytes ⊎ List ℤ
ids_of go (inl e) = inl e
ids_of go (inr rows) = inr (map (row_id go) rows)

-- `neighborIDs`.
unfoldable pub neighbor_ids : (go : Go) → Db (Go.fl go) → ℕ → Direction → List ℤ → Bytes ⊎ List ℤ
neighbor_ids go db limit way [] = inr []
neighbor_ids go db limit way (x ∷ xs) = ids_of go (Db.neighbors db way (x ∷ xs) (limit + 1))

module _ (go : Go) (db : Db (Go.fl go)) (max_depth limit : ℕ) where
  unfoldable pub goes_on : ℕ → Walk → Bool
  goes_on depth w = leb depth max_depth && waits w

  -- The end of an iteration, on the walk behind it and its `limited`.
  unfoldable pub turn : ℕ → Bool → Walk → Bool → Next
  turn depth reached w true = Next.stop (Outcome.finished w reached)
  turn depth reached w false = Next.again (reached || (depth == max_depth && waits w)) w

  unfoldable pub answered : ℕ → Bool → Walk → Bytes ⊎ List ℤ → Bytes ⊎ List ℤ → Next
  answered depth reached w (inl e) _ = Next.stop (Outcome.failed (RouteError.incoming depth e))
  answered depth reached w (inr ups) (inl e) =
      Next.stop (Outcome.failed (RouteError.outgoing depth e))
  answered depth reached w (inr ups) (inr downs) =
      let w' : Walk =
        alternate limit depth (record w { up = emptied w.up; down = emptied w.down }) ups downs in
      turn depth reached w' w'.limited

  unfoldable pub iterate : ℕ → Bool → Walk → Option Bytes → Next
  iterate depth reached w (some e) = Next.stop (Outcome.failed (RouteError.interrupted e))
  iterate depth reached w none =
      answered depth reached w (neighbor_ids go db limit Direction.upward w.up.frontier)
        (neighbor_ids go db limit Direction.downward w.down.frontier)

  unfoldable pub next : ℕ → Bool → Walk → Next
  next depth reached w =
      if goes_on depth w
      then iterate depth reached w (Db.context_error db depth)
      else Next.stop (Outcome.finished w reached)

  -- The loop over the depths; `running` means that the fuel ran out.
  unfoldable pub loop : ℕ → ℕ → Bool → Walk → Outcome
  loop zero depth reached w = Outcome.running
  loop (suc fuel) depth reached w = elim (next depth reached w) [
    | Next.stop o ↦ o
    | Next.again r w' ↦ loop fuel (suc depth) r w'
  ]

abbrev pub start : ℤ → Walk
start seed =
    let side : Side = record { seen = seed ∷ []; frontier = seed ∷ [] } in
    record { info = (seed, no_depths) ∷ []; up = side; down = side; limited = false }

-- The walk from the seed, with one round of fuel more than the depth limit.
unfoldable pub traverse : (go : Go) → Db (Go.fl go) → ℕ → ℕ → ℤ → Outcome
traverse go db max_depth limit seed =
    loop go db max_depth limit (suc max_depth) 1 false (start seed)
