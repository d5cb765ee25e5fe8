-- ===== src/Graph/Routes/Complete.antt =====
-- A reply that calls itself complete against the trails of the observed graph.
use ripestream.Base.{
  ℕ, zero, suc, ◌<◌, ◌≡◌, refl, Bool, true, false, List, ◌∷◌, map, arith, ltb, Bytes, Bool-cases,
  ◌⊎◌, inl, inr, ◌↔◌,
}
use ripestream.Base.Int.{ℤ}
use ripestream.Graph.Values.{Go, Row, clamp_limit}
use ripestream.Graph.Routes.{
  same, has, keys, find, depths_at, Depths, Info, Walk, Direction, Db, row_id,
}
use ripestream.Graph.Routes.Reply.{Role, IpRouteGraph, role_of, node}
use ripestream.Graph.Routes.Members.{same_iff}
use ripestream.Graph.Routes.Trails.{Trail, Answers}
use ripestream.Graph.Routes.Visits.{side, level}
use ripestream.Graph.Routes.Rounds.{Inv}
use ripestream.Graph.Routes.Whole.{Closed}
use ripestream.Graph.Routes.Exact.{seen_iff}

pub clamp_limit-pos :
    (n : ℤ) (default greatest : ℕ) → 0 < default → 0 < greatest → 0 < clamp_limit n default greatest
unfolding clamp_limit
clamp_limit-pos n default greatest d g = ground arith

module _ (edge : ℤ → ℤ → Type 0) (seed j : ℤ) where
  unfoldable pub Found : Direction → Type 0
  Found way = (n : ℕ) × Trail edge way seed j n

  -- What a role and a depth say of an identifier.
  unfoldable pub Says : Role × ℕ → Type 0
  unfolding Found
  Says (Role.seed, n) = (j ≡ seed) × (n ≡ 0)
  Says (Role.upstream, n) = Trail edge Direction.upward seed j n × ¬ Found Direction.downward
  Says (Role.downstream, n) = Trail edge Direction.downward seed j n × ¬ Found Direction.upward
  Says (Role.both, n) =
      (Trail edge Direction.upward seed j n ⊎ Trail edge Direction.downward seed j n)
      × Found Direction.upward
      × Found Direction.downward

role_of-cases :
    (u d : ℕ)
    → let v : Depths = record { up_depth = u; down_depth = d } in
      ((u ≡ 0) × (d ≡ 0))
      ⊎ (((0 < u) × (d ≡ 0) × (role_of false v ≡ (Role.upstream, u)))
          ⊎ (((u ≡ 0) × (0 < d) × (role_of false v ≡ (Role.downstream, d)))
              ⊎ (((0 < u) × (0 < d) × (role_of false v ≡ (Role.both, u)))
                  ⊎ ((0 < u) × (0 < d) × (role_of false v ≡ (Role.both, d))))))
unfolding role_of
role_of-cases zero zero = inl (refl, refl)
role_of-cases (suc a) zero = inr (inl (omega arith, refl, ground arith))
role_of-cases zero (suc b) = inr (inr (inl (refl, omega arith, ground arith)))
role_of-cases (suc a) (suc b) = elim (Bool-cases (ltb (suc b) (suc a))) [
  | inl h ↦ inr (inr (inr (inr (omega arith, omega arith, rw h (ground arith)))))
  | inr h ↦ inr (inr (inr (inl (omega arith, omega arith, rw h (ground arith)))))
]

-- The depths of an identifier that the walk knows, against the trails.
abbrev Placed : (ℤ → ℤ → Type 0) → ℤ → ℤ → Depths → Type 0
Placed edge seed j v =
    (0 < v.up_depth → Trail edge Direction.upward seed j v.up_depth)
    × (0 < v.down_depth → Trail edge Direction.downward seed j v.down_depth)
    × (v.up_depth ≡ 0 → ¬ Found edge seed j Direction.upward)
    × (v.down_depth ≡ 0 → ¬ Found edge seed j Direction.downward)
    × ¬ ((v.up_depth ≡ 0) × (v.down_depth ≡ 0))

place-Says :
    (edge : ℤ → ℤ → Type 0) (seed j : ℤ) (v : Depths)
    → Placed edge seed j v
    → Says edge seed j (role_of false v)
unfolding Says Found
place-Says edge seed j v h = elim (role_of-cases v.up_depth v.down_depth) [
  | inl zeros ↦ absurd (h.4 zeros)
  | inr (inl c) ↦ rw c.2 (h.0 c.0, h.3 c.1)
  | inr (inr (inl c)) ↦ rw c.2 (h.1 c.1, h.2 c.0)
  | inr (inr (inr (inl c))) ↦ rw c.2 (inl (h.0 c.0), (v.up_depth, h.0 c.0), (v.down_depth, h.1 c.1))
  | inr (inr (inr (inr c))) ↦ rw c.2 (inr (h.1 c.1), (v.up_depth, h.0 c.0), (v.down_depth, h.1 c.1))
]

module _ (go : Go) (db : Db (Go.fl go)) (edge : ℤ → ℤ → Type 0) (answers : Answers go db edge)
    (max_depth limit : ℕ) (seed : ℤ) (t : Walk) (reached : Bool) (inv : Inv edge seed limit t)
    (closed : Closed go db edge answers max_depth limit seed t) where
  trail_at :
      (way : Direction) (j : ℤ)
      → same seed j ≡ false
      → 0 < level way j t.info
      → Trail edge way seed j (level way j t.info)
  trail_at way j n h = inv.sound way j (ground (arith, inv.marked way j))

  no_trail :
      (way : Direction) (j : ℤ)
      → same seed j ≡ false
      → level way j t.info ≡ 0
      → ¬ Found edge seed j way
  unfolding Found
  no_trail way j n h found =
      let m =
        (seen_iff go db edge answers max_depth limit seed t reached way j inv closed).1 found in
      ground (arith, inv.marked way j)

  known-Placed :
      (j : ℤ)
      → same seed j ≡ false
      → has j (keys t.info) ≡ true
      → Placed edge seed j (depths_at (find j t.info))
  unfolding level
  known-Placed j n h = (
    trail_at Direction.upward j n,
    trail_at Direction.downward j n,
    no_trail Direction.upward j n,
    no_trail Direction.downward j n,
    λ zeros.
        ground (arith, inv.known j, inv.marked Direction.upward j, inv.marked Direction.downward j),
  )

  pub known-Says :
      (j : ℤ)
      → has j (keys t.info) ≡ true
      → Says edge seed j (role_of (same j seed) (depths_at (find j t.info)))
  unfolding Says role_of
  known-Says j h = elim (Bool-cases (same j seed)) [
    | inl e ↦ rw e ((same_iff j seed).0 e, refl)
    | inr n ↦ rw n (
        place-Says edge seed j (depths_at (find j t.info))
          (known-Placed j (ground (arith, same_iff j seed, same_iff seed j)) h))
  ]

  pub known_iff :
      (j : ℤ)
      → (has j (keys t.info) ≡ true)
        ↔ (Found edge seed j Direction.upward ⊎ Found edge seed j Direction.downward)
  unfolding Found
  known_iff j = (from_known, to_known)
    where
      seen :
          (way : Direction) → (has j (side way t).seen ≡ true) ↔ ((n : ℕ) × Trail edge way seed j n)
      seen way = seen_iff go db edge answers max_depth limit seed t reached way j inv closed

      from_known :
          has j (keys t.info) ≡ true
          → ((n : ℕ) × Trail edge Direction.upward seed j n)
            ⊎ ((n : ℕ) × Trail edge Direction.downward seed j n)
      from_known h = elim (Bool-cases (has j t.up.seen)) [
        | inl u ↦ inl ((seen Direction.upward).0 u)
        | inr n ↦ inr ((seen Direction.downward).0 (ground (arith, inv.known j)))
      ]

      to_known :
          ((n : ℕ) × Trail edge Direction.upward seed j n)
            ⊎ ((n : ℕ) × Trail edge Direction.downward seed j n)
          → has j (keys t.info) ≡ true
      to_known (inl found) = let m = (seen Direction.upward).1 found in rw (inv.known j, m) refl
      to_known (inr found) =
          let m = (seen Direction.downward).1 found in ground (arith, inv.known j)

-- What a complete reply stands for: the seed is the first row that answers for the address, the nodes
-- are those of the identifiers `info` names, and those are the seed and what trails reach from it in
-- either direction; the role and the depth of each say which trails there are.
pub record Exact (go : Go) (db : Db (Go.fl go)) (edge : ℤ → ℤ → Type 0) (addr : Bytes)
    (g : IpRouteGraph (Go.fl go)) : Type 0 where
  pub seed_row : Row (Go.fl go)
  pub more : List (Row (Go.fl go))
  pub info : Info
  pub rows : List (Row (Go.fl go))
  pub seeded : Db.seed_rows db addr ≡ inr (seed_row ∷ more)
  pub loaded : Db.node_rows db (keys info) ≡ inr rows
  pub noted : g.nodes ≡ map (node go (row_id go seed_row) info) rows
  pub whole :
      (j : ℤ)
      → (has j (keys info) ≡ true) ↔ (
          Found edge (row_id go seed_row) j Direction.upward
          ⊎ Found edge (row_id go seed_row) j Direction.downward)
  pub placed :
      (j : ℤ)
      → has j (keys info) ≡ true
      → Says edge
          (row_id go seed_row)
          j
          (role_of (same j (row_id go seed_row)) (depths_at (find j info)))
