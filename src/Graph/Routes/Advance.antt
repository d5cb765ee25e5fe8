-- ===== src/Graph/Routes/Advance.antt =====
-- A round of the walk keeps what holds between rounds.
use ripestream.Base.{
  ℕ, suc, ◌+◌, ◌<◌, ◌≡◌, refl, sym, ap, true, ◌||◌, List, [], ◌∷◌, map, Bytes, arith, length, ltb,
  All, ◌⊎◌, inl, inr,
}
use mathlib.Core.Path.{subst}
use ripestream.Base.Int.{ℤ}
use ripestream.Graph.Values.{Go, Row}
use ripestream.Graph.Routes.{
  same, has, keys, Walk, Direction, Db, row_id, ids_of, neighbor_ids, emptied,
}
use ripestream.Graph.Routes.Members.{All_has, length-keys, Distinct, Distinct-length}
use ripestream.Graph.Routes.Trails.{Trail, Along, Answers}
use ripestream.Graph.Routes.Visits.{side, level}
use ripestream.Graph.Routes.Rounds.{Inv, Front}

results : Bytes ⊎ List ℤ → List ℤ
results (inl e) = []
results (inr ids) = ids

module _ (go : Go) (db : Db (Go.fl go)) (limit : ℕ) (way : Direction) where
  pub Asked : List ℤ → List ℤ → Type 0
  Asked frontier ids =
      ((frontier ≡ []) × (ids ≡ []))
      ⊎ ((rows : List (Row (Go.fl go))) × (Db.neighbors db way frontier (limit + 1) ≡ inr rows)
          × (ids ≡ map (row_id go) rows))

  pub neighbor_ids-Asked :
      (frontier ids : List ℤ) → neighbor_ids go db limit way frontier ≡ inr ids → Asked frontier ids
  unfolding Asked neighbor_ids results ids_of
  neighbor_ids-Asked [] ids h = inl (refl, sym (ap results h))
  neighbor_ids-Asked (x ∷ xs) ids h =
      inr (with_rows (Db.neighbors db way (x ∷ xs) (limit + 1)) refl h)
    where
      with_rows :
          (answer : Bytes ⊎ List (Row (Go.fl go)))
          → Db.neighbors db way (x ∷ xs) (limit + 1) ≡ answer
          → ids_of go answer ≡ inr ids
          → (rows : List (Row (Go.fl go))) × (Db.neighbors db way (x ∷ xs) (limit + 1) ≡ inr rows)
            × (ids ≡ map (row_id go) rows)
      with_rows (inl e) a b = absurd (cc b)
      with_rows (inr rows) a b = (rows, a, sym (ap results b))

  module _ (edge : ℤ → ℤ → Type 0) (answers : Answers go db edge) (frontier ids : List ℤ) where
    pub Asked-sound :
        Asked frontier ids → All (λ id. (a : ℤ) × (has a frontier ≡ true) × Along edge way a id) ids
    unfolding Asked
    Asked-sound (inl h) = rw h.1 tt
    Asked-sound (inr (rows, e, h)) = rw h (answers.sound way frontier (limit + 1) rows e)

    pub Asked-Distinct : Asked frontier ids → Distinct ids
    unfolding Asked Distinct
    Asked-Distinct (inl h) = rw h.1 tt
    Asked-Distinct (inr (rows, e, h)) = rw h (answers.distinct way frontier (limit + 1) rows e)

    pub Asked-whole :
        Asked frontier ids
        → length ids < limit + 1
        → (a b : ℤ) → has a frontier ≡ true
        → Along edge way a b
        → has b ids ≡ true
    unfolding Asked has
    Asked-whole (inl h) few a b m e = absurd (no_member (subst (λ xs. has a xs ≡ true) h.0 m))
      where
        no_member : has a [] ≡ true → ⊥
        no_member n = ground arith
    Asked-whole (inr (rows, e, h)) few a b m along =
        rw h (answers.whole way frontier (limit + 1) rows e (rw (← h) few) a b m along)

-- What holds before the round of a depth.
module _ (edge : ℤ → ℤ → Type 0) (seed : ℤ) (limit : ℕ) where
  pub record Outer (depth : ℕ) (w : Walk) : Type 0 where
    pub inv : Inv edge seed limit w
    pub deep :
        (way : Direction) (j : ℤ)
        → has j (side way w).frontier ≡ true
        → suc (level way j w.info) ≡ depth
    pub inside :
        (way : Direction) (j : ℤ)
        → has j (side way w).frontier ≡ true
        → has j (side way w).seen ≡ true
    pub closed :
        (way : Direction) (a b : ℤ)
        → has a (side way w).seen ≡ true
        → Along edge way a b
        → (has a (side way w).frontier ≡ true) ⊎ (has b (side way w).seen ≡ true)

  pub trails :
      (way : Direction) (depth : ℕ) (w : Walk) (ids : List ℤ)
      → Outer depth w
      → All (λ id. (a : ℤ) × (has a (side way w).frontier ≡ true) × Along edge way a id) ids
      → All (λ id. Trail edge way seed id depth) ids
  trails way depth w [] h all = tt
  trails way depth w (id ∷ ids) h ((a, m, along), rest) = (
    rw (← h.deep way a m) (Trail.step (h.inv.sound way a (h.inside way a m)) along),
    trails way depth w ids h rest,
  )

  seen-known :
      (way : Direction) (w : Walk) (j : ℤ)
      → Inv edge seed limit w
      → has j (side way w).seen ≡ true
      → has j (keys w.info) ≡ true
  seen-known Direction.upward w j h m = ground (arith, h.known j)
  seen-known Direction.downward w j h m = ground (arith, h.known j)

  -- Answers that were all seen are fewer than were asked for.
  pub few :
      (way : Direction) (w : Walk) (ids : List ℤ)
      → Inv edge seed limit w
      → Distinct ids
      → All (λ id. has id (side way w).seen ≡ true) ids
      → length ids < limit + 1
  few way w ids h distinct all =
      let fits = Distinct-length ids (keys w.info) distinct (λ id m.
        seen-known way w id h (All_has (λ id. has id (side way w).seen ≡ true) ids id all m)) in
      omega (arith, fits, length-keys w.info, h.small)

  abbrev pub begun : Walk → Walk
  begun w = record w { up = emptied w.up; down = emptied w.down }

  abbrev pub before : Walk → Direction → List ℤ
  before w way = (side way w).seen

  pub Front-begun : (depth : ℕ) (w : Walk) → Front edge seed limit (before w) depth (begun w)
  unfolding has
  Front-begun depth w = record { deep = deep; inside = inside; fresh = fresh; base = base }
    where
      deep :
          (way : Direction) (j : ℤ)
          → has j (side way (begun w)).frontier ≡ true
          → level way j w.info ≡ depth
      deep Direction.upward j h = absurd (ground arith)
      deep Direction.downward j h = absurd (ground arith)

      inside :
          (way : Direction) (j : ℤ)
          → has j (side way (begun w)).frontier ≡ true
          → has j (side way (begun w)).seen ≡ true
      inside Direction.upward j h = absurd (ground arith)
      inside Direction.downward j h = absurd (ground arith)

      fresh :
          (way : Direction) (j : ℤ)
          → has j (side way (begun w)).seen ≡ true
          → (has j (side way (begun w)).frontier ≡ true) ⊎ (has j (before w way) ≡ true)
      fresh Direction.upward j h = inr h
      fresh Direction.downward j h = inr h

      base :
          (way : Direction) (j : ℤ)
          → has j (before w way) ≡ true
          → has j (side way (begun w)).seen ≡ true
      base Direction.upward j h = h
      base Direction.downward j h = h

  pub Inv-begun : (w : Walk) → Inv edge seed limit w → Inv edge seed limit (begun w)
  Inv-begun w h = record { known = h.known; sound = sound; marked = marked; small = h.small }
    where
      sound :
          (way : Direction) (j : ℤ)
          → has j (side way (begun w)).seen ≡ true
          → Trail edge way seed j (level way j w.info)
      sound Direction.upward = h.sound Direction.upward
      sound Direction.downward = h.sound Direction.downward

      marked :
          (way : Direction) (j : ℤ)
          → has j (side way (begun w)).seen ≡ (same seed j || ltb 0 (level way j w.info))
      marked Direction.upward = h.marked Direction.upward
      marked Direction.downward = h.marked Direction.downward
