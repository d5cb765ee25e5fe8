-- ===== src/Graph/Routes/Whole.antt =====
-- The walk against the trails of the observed graph: its depths are those of trails, and a walk that
-- met no limit has found all that trails reach.
use ripestream.Base.{
  ℕ, zero, suc, ◌≤◌, ◌<◌, ◌≡◌, refl, Bool, true, false, ◌||◌, ◌&&◌, ◌==◌, leb, List, [], ◌∷◌, Bytes,
  arith, Option, none, some, Bool-cases, ◌⊎◌, inl, inr,
}
use ripestream.Base.Int.{ℤ}
use ripestream.Graph.Values.{Go}
use ripestream.Graph.Routes.{
  has, Walk, Direction, Db, Outcome, Next, any_left, waits, neighbor_ids, goes_on, turn, answered,
  iterate, next, loop,
}
use ripestream.Graph.Routes.Trails.{Along, Answers}
use ripestream.Graph.Routes.Visits.{side}
use ripestream.Graph.Routes.Rounds.{Inv}
use ripestream.Graph.Routes.Advance.{Outer}
use ripestream.Graph.Routes.Turn.{after, advance}

none_left :
    (us ds : List ℤ) (j : ℤ) → any_left us ds ≡ false → (has j us ≡ false) × (has j ds ≡ false)
unfolding any_left has
none_left [] [] j h = (refl, refl)
none_left [] (d ∷ ds) j h = absurd (ground arith)
none_left (u ∷ us) ds j h = absurd (ground arith)

none_waits :
    (w : Walk) (way : Direction) (j : ℤ) → waits w ≡ false → has j (side way w).frontier ≡ false
none_waits w Direction.upward j h = (none_left w.up.frontier w.down.frontier j h).0
none_waits w Direction.downward j h = (none_left w.up.frontier w.down.frontier j h).1

module _ (go : Go) (db : Db (Go.fl go)) (edge : ℤ → ℤ → Type 0) (answers : Answers go db edge)
    (max_depth limit : ℕ) (seed : ℤ) where
  abbrev pub Closed : Walk → Type 0
  Closed w =
      (way : Direction) (a b : ℤ)
      → has a (side way w).seen ≡ true
      → Along edge way a b
      → has b (side way w).seen ≡ true

  abbrev pub Ended : Walk → Bool → Type 0
  Ended t reached = Inv edge seed limit t × (t.limited ≡ false → reached ≡ false → Closed t)

  Good : ℕ → Next → Type 0
  Good depth (Next.stop (Outcome.failed e)) = Unit
  Good depth (Next.stop (Outcome.finished t reached)) = Ended t reached
  Good depth (Next.stop Outcome.running) = Unit
  Good depth (Next.again reached w) =
      Outer edge seed limit (suc depth) w
      × (reached ≡ false → (suc depth ≤ max_depth) ⊎ (waits w ≡ false))

  Closed-of_Outer :
      (depth : ℕ) (w : Walk) → Outer edge seed limit depth w → waits w ≡ false → Closed w
  Closed-of_Outer depth w h idle way a b m along = elim (h.closed way a b m along) [
    | inl waiting ↦ absurd (ground (arith, none_waits w way a idle))
    | inr found ↦ found
  ]

  turn-Good :
      (depth : ℕ) (reached : Bool) (w : Walk) (limited : Bool)
      → w.limited ≡ limited
      → leb depth max_depth ≡ true
      → Inv edge seed limit w
      → (w.limited ≡ false → Outer edge seed limit (suc depth) w)
      → Good depth (turn go db max_depth limit depth reached w limited)
  unfolding Good turn
  turn-Good depth reached w true e h inv outer = (inv, λ room. absurd (ground arith))
  turn-Good depth reached w false e h inv outer = (outer e, λ r. budget (waits w) r)
    where
      budget :
          (waiting : Bool)
          → (reached || (depth == max_depth && waiting)) ≡ false
          → (suc depth ≤ max_depth) ⊎ (waiting ≡ false)
      budget true r = inl (ground arith)
      budget false r = inr refl

  answered-Good :
      (depth : ℕ) (reached : Bool) (w : Walk) (ups downs : Bytes ⊎ List ℤ)
      → leb depth max_depth ≡ true
      → 0 < depth
      → Outer edge seed limit depth w
      → neighbor_ids go db limit Direction.upward w.up.frontier ≡ ups
      → neighbor_ids go db limit Direction.downward w.down.frontier ≡ downs
      → Good depth (answered go db max_depth limit depth reached w ups downs)
  unfolding Good answered
  answered-Good depth reached w (inl e) downs h pos_depth outer eu ed = tt
  answered-Good depth reached w (inr us) (inl e) h pos_depth outer eu ed = tt
  answered-Good depth reached w (inr us) (inr ds) h pos_depth outer eu ed =
      let kept = advance go db edge answers limit seed depth w us ds pos_depth eu ed outer in
      let w' : Walk = after go db edge answers limit seed depth w us ds in
      turn-Good depth reached w' w'.limited refl h kept.0 kept.1

  iterate-Good :
      (depth : ℕ) (reached : Bool) (w : Walk) (error : Option Bytes)
      → leb depth max_depth ≡ true
      → 0 < depth
      → Outer edge seed limit depth w
      → Good depth (iterate go db max_depth limit depth reached w error)
  unfolding Good iterate
  iterate-Good depth reached w (some e) h pos_depth outer = tt
  iterate-Good depth reached w none h pos_depth outer =
      answered-Good depth reached w (neighbor_ids go db limit Direction.upward w.up.frontier)
        (neighbor_ids go db limit Direction.downward w.down.frontier) h pos_depth outer refl refl

  next-Good :
      (depth : ℕ) (reached : Bool) (w : Walk)
      → 0 < depth
      → Outer edge seed limit depth w
      → (reached ≡ false → (depth ≤ max_depth) ⊎ (waits w ≡ false))
      → Good depth (next go db max_depth limit depth reached w)
  unfolding Good next goes_on
  next-Good depth reached w pos_depth outer budget = elim (Bool-cases (leb depth max_depth)) [
    | inl h ↦ elim (Bool-cases (waits w)) [
      | inl busy ↦
          rw (h, busy) (iterate-Good depth reached w (Db.context_error db depth) h pos_depth outer)
      | inr idle ↦ rw (h, idle) (outer.inv, λ _ _. Closed-of_Outer depth w outer idle)
    ]
    | inr past ↦
        rw past (outer.inv, λ _ r. Closed-of_Outer depth w outer (must_be_idle past (budget r)))
  ]
    where
      must_be_idle :
          leb depth max_depth ≡ false → (depth ≤ max_depth) ⊎ (waits w ≡ false) → waits w ≡ false
      must_be_idle past (inl le) = absurd (ground arith)
      must_be_idle past (inr idle) = idle

  abbrev pub Kept : Outcome → Type 0
  Kept (Outcome.finished t reached) = Ended t reached
  Kept _ = Unit

  pub loop-Kept :
      (fuel depth : ℕ) (reached : Bool) (w : Walk)
      → 0 < depth
      → Outer edge seed limit depth w
      → (reached ≡ false → (depth ≤ max_depth) ⊎ (waits w ≡ false))
      → Kept (loop go db max_depth limit fuel depth reached w)
  unfolding loop Good
  loop-Kept zero depth reached w pos_depth outer budget = tt
  loop-Kept (suc fuel) depth reached w pos_depth outer budget =
      from_next (next go db max_depth limit depth reached w)
        (next-Good depth reached w pos_depth outer budget)
        (λ r v h. loop-Kept fuel (suc depth) r v (omega arith) h.0 h.1)
    where
      from_next :
          (n : Next)
          → Good depth n
          → ((r : Bool) (v : Walk)
              → Good depth (Next.again r v)
              → Kept (loop go db max_depth limit fuel (suc depth) r v))
          → Kept (elim n [
            | Next.stop o ↦ o
            | Next.again r v ↦ loop go db max_depth limit fuel (suc depth) r v
          ])
      from_next (Next.stop (Outcome.failed e)) g rest = tt
      from_next (Next.stop (Outcome.finished t r)) g rest = g
      from_next (Next.stop Outcome.running) g rest = tt
      from_next (Next.again r v) g rest = rest r v g
