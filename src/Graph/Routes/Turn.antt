-- ===== src/Graph/Routes/Turn.antt =====
-- From the round of one depth to the next: the frontier's neighbors are all seen.
use ripestream.Base.{ℕ, suc, ◌<◌, ◌≡◌, ap, true, false, List, All, ◌⊎◌, inl, inr}
use ripestream.Base.Int.{ℤ}
use ripestream.Graph.Values.{Go}
use ripestream.Graph.Routes.{has, Walk, Direction, Db, neighbor_ids, alternate}
use ripestream.Graph.Routes.Members.{All_has}
use ripestream.Graph.Routes.Trails.{Along, Answers}
use ripestream.Graph.Routes.Visits.{side}
use ripestream.Graph.Routes.Rounds.{Inv, Front}
use ripestream.Graph.Routes.Kept.{Both-alternate}
use ripestream.Graph.Routes.Covers.{alternate-sees}
use ripestream.Graph.Routes.Advance.{
  Asked, neighbor_ids-Asked, Asked-sound, Asked-Distinct, Asked-whole, Outer, trails, few, before,
  begun, Front-begun, Inv-begun,
}

module _ (go : Go) (db : Db (Go.fl go)) (edge : ℤ → ℤ → Type 0) (answers : Answers go db edge)
    (limit : ℕ) (seed : ℤ) (depth : ℕ) (w : Walk) where
  closed_at :
      (way : Direction) (ids : List ℤ) (w' : Walk)
      → Outer edge seed limit depth w
      → Asked go db limit way (side way w).frontier ids
      → Inv edge seed limit w'
      → Front edge seed limit (before edge seed limit w) depth w'
      → All (λ id. has id (side way w').seen ≡ true) ids
      → (a b : ℤ) → has a (side way w').seen ≡ true
      → Along edge way a b
      → (has a (side way w').frontier ≡ true) ⊎ (has b (side way w').seen ≡ true)
  closed_at way ids w' h asked inv front seen a b m along = elim (front.fresh way a m) [
    | inl waiting ↦ inl waiting
    | inr old ↦ elim (h.closed way a b old along) [
      | inl waited ↦ inr (
          All_has (λ id. has id (side way w').seen ≡ true) ids b seen
            (Asked-whole go db limit way edge answers (side way w).frontier ids asked
              (few edge seed limit way w' ids inv
                (Asked-Distinct go db limit way edge answers (side way w).frontier ids asked) seen)
              a b waited along))
      | inr found ↦ inr (front.base way b found)
    ]
  ]

  module _ (us ds : List ℤ) where
    abbrev pub after : Walk
    after = alternate limit depth (begun edge seed limit w) us ds

    pub advance :
        0 < depth
        → neighbor_ids go db limit Direction.upward w.up.frontier ≡ inr us
        → neighbor_ids go db limit Direction.downward w.down.frontier ≡ inr ds
        → Outer edge seed limit depth w
        → Inv edge seed limit after
          × (after.limited ≡ false → Outer edge seed limit (suc depth) after)
    advance pos_depth asked_up asked_down h = (kept.0, outer)
      where
        up : Asked go db limit Direction.upward w.up.frontier us
        up = neighbor_ids-Asked go db limit Direction.upward w.up.frontier us asked_up

        down : Asked go db limit Direction.downward w.down.frontier ds
        down = neighbor_ids-Asked go db limit Direction.downward w.down.frontier ds asked_down

        kept :
            Inv edge seed limit after × Front edge seed limit (before edge seed limit w) depth after
        kept =
            Both-alternate edge seed limit depth (before edge seed limit w)
              (begun edge seed limit w) us ds pos_depth
              (trails edge seed limit Direction.upward depth w us h
                (Asked-sound go db limit Direction.upward edge answers w.up.frontier us up))
              (trails edge seed limit Direction.downward depth w ds h
                (Asked-sound go db limit Direction.downward edge answers w.down.frontier ds down))
              (Inv-begun edge seed limit w h.inv, Front-begun edge seed limit depth w)

        closed :
            after.limited ≡ false
            → (way : Direction) (a b : ℤ) → has a (side way after).seen ≡ true
            → Along edge way a b
            → (has a (side way after).frontier ≡ true) ⊎ (has b (side way after).seen ≡ true)
        closed room Direction.upward =
            closed_at Direction.upward us after h up kept.0 kept.1
              (alternate-sees limit depth (begun edge seed limit w) us ds room).0
        closed room Direction.downward =
            closed_at Direction.downward ds after h down kept.0 kept.1
              (alternate-sees limit depth (begun edge seed limit w) us ds room).1

        outer : after.limited ≡ false → Outer edge seed limit (suc depth) after
        outer room = record {
          inv = kept.0;
          deep = λ way j m. ap suc (kept.1.deep way j m);
          inside = kept.1.inside;
          closed = closed room;
        }
