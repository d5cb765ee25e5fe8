-- ===== src/Graph/Routes/Trails.antt =====
-- Trails along observed edges, and what the queries for neighbors answer.
use ripestream.Base.{ℕ, suc, ◌<◌, ◌≡◌, true, List, map, inr, All, length}
use ripestream.Base.Int.{ℤ}
use ripestream.Graph.Values.{Go, Row}
use ripestream.Graph.Routes.{has, Direction, Db, row_id}
use ripestream.Graph.Routes.Members.{Distinct}

-- An edge as a direction takes it: towards predecessors, or towards successors.
abbrev pub Along : (ℤ → ℤ → Type 0) → Direction → ℤ → ℤ → Type 0
Along edge Direction.upward a b = edge b a
Along edge Direction.downward a b = edge a b

pub data Trail (edge : ℤ → ℤ → Type 0) (way : Direction) (a : ℤ) : ℤ → ℕ → Type 0 where
  here : Trail edge way a a 0
  step : {b c : ℤ} {n : ℕ} → Trail edge way a b n → Along edge way b c → Trail edge way a c (suc n)

-- `MATCH (a)-[:NEXT_HOP]->(b) WHERE id(a) IN $frontier RETURN DISTINCT id(b) LIMIT $limit`, and the
-- same with a and b exchanged: the answer names neighbors of the frontier, each once, and all of
-- them when it is shorter than the limit.
pub record Answers (go : Go) (db : Db (Go.fl go)) (edge : ℤ → ℤ → Type 0) : Type 0 where
  pub sound :
      (way : Direction) (frontier : List ℤ) (limit : ℕ) (rows : List (Row (Go.fl go)))
      → Db.neighbors db way frontier limit ≡ inr rows
      → All (λ id. (a : ℤ) × (has a frontier ≡ true) × Along edge way a id) (map (row_id go) rows)
  pub distinct :
      (way : Direction) (frontier : List ℤ) (limit : ℕ) (rows : List (Row (Go.fl go)))
      → Db.neighbors db way frontier limit ≡ inr rows
      → Distinct (map (row_id go) rows)
  pub whole :
      (way : Direction) (frontier : List ℤ) (limit : ℕ) (rows : List (Row (Go.fl go)))
      → Db.neighbors db way frontier limit ≡ inr rows
      → length (map (row_id go) rows) < limit
      → (a b : ℤ) → has a frontier ≡ true
      → Along edge way a b
      → has b (map (row_id go) rows) ≡ true
