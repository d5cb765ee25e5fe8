-- ===== src/Graph/Routes/Kept.antt =====
-- A visit keeps the invariants of a round.
use ripestream.Base.{
  ℕ, ◌≤◌, ◌<◌, ◌≡◌, refl, true, not, ◌||◌, List, [], ◌∷◌, arith, leb, ltb, length, All, Bool-cases,
  ◌⊎◌, inl, inr,
}
use ripestream.Base.Int.{ℤ}
use ripestream.Base.Assoc.{is_some}
use ripestream.Graph.Routes.{same, has, find, Walk, Direction, alternate}
use ripestream.Graph.Routes.Members.{same_iff, has-append}
use ripestream.Graph.Routes.Trails.{Trail}
use ripestream.Graph.Routes.Visits.{
  side, level, visit_at, full, added, visit_at-rule, alternate-rule,
}
use ripestream.Graph.Routes.Rounds.{
  other, length-with_depth, Inv, Front, known-added, seen-added, seen-added-other, level-added,
  level-added-other,
}

by_direction {κ} :
    (P : Direction → Type κ) (way : Direction) → P way → P (other way) → (x : Direction) → P x
by_direction P Direction.upward a b Direction.upward = a
by_direction P Direction.upward a b Direction.downward = b
by_direction P Direction.downward a b Direction.upward = b
by_direction P Direction.downward a b Direction.downward = a

side-full : (way : Direction) (w : Walk) → side way (full w) ≡ side way w
side-full Direction.upward w = refl
side-full Direction.downward w = refl

frontier-added :
    (way : Direction) (depth : ℕ) (w : Walk) (id j : ℤ)
    → has j (side way (added way depth w id)).frontier ≡ (has j (side way w).frontier || same id j)
unfolding added has
frontier-added Direction.upward depth w id j = ground (arith, has-append j w.up.frontier (id ∷ []))
frontier-added Direction.downward depth w id j =
    ground (arith, has-append j w.down.frontier (id ∷ []))

frontier-added-other :
    (way : Direction) (depth : ℕ) (w : Walk) (id j : ℤ)
    → has j (side (other way) (added way depth w id)).frontier ≡ has j (side (other way) w).frontier
unfolding added
frontier-added-other Direction.upward depth w id j = refl
frontier-added-other Direction.downward depth w id j = refl

length-added :
    (way : Direction) (depth limit : ℕ) (w : Walk) (id : ℤ)
    → (is_some (find id w.info) || not (leb limit (length w.info))) ≡ true
    → length w.info ≤ limit
    → length (added way depth w id).info ≤ limit
unfolding added
length-added Direction.upward depth limit w id room h =
    length-with_depth Direction.upward depth limit id w.info room h
length-added Direction.downward depth limit w id room h =
    length-with_depth Direction.downward depth limit id w.info room h

module _ (edge : ℤ → ℤ → Type 0) (seed : ℤ) (limit depth : ℕ) (w : Walk) (id : ℤ) where
  Inv-added :
      (way : Direction)
      → 0 < depth
      → Trail edge way seed id depth
      → (is_some (find id w.info) || not (leb limit (length w.info))) ≡ true
      → Inv edge seed limit w
      → Inv edge seed limit (added way depth w id)
  Inv-added way pos_depth trail room h = record {
    known = known-added edge seed limit depth w id way h;
    sound =
        by_direction
          (λ x. (j : ℤ) → has j (side x w').seen ≡ true → Trail edge x seed j (level x j w'.info))
          way
          (λ j m. elim (Bool-cases (same id j)) [
            | inl e ↦
                rw (level-added edge seed limit depth w id way j, e)
                  (rw (← (same_iff id j).0 e) trail)
            | inr n ↦
                rw (level-added edge seed limit depth w id way j, n)
                  (h.sound way j (ground (arith, seen-added edge seed limit depth w id way j)))
          ])
          (λ j m. rw (level-added-other edge seed limit depth w id way j) (
            h.sound (other way) j
              (ground (arith, seen-added-other edge seed limit depth w id way j))));
    marked =
        by_direction
          (λ x. (j : ℤ) → has j (side x w').seen ≡ (same seed j || ltb 0 (level x j w'.info))) way
          (λ j. ground (
            arith,
            level-added edge seed limit depth w id way j,
            seen-added edge seed limit depth w id way j,
            h.marked way j,
          ))
          (λ j. ground (
            arith,
            level-added-other edge seed limit depth w id way j,
            seen-added-other edge seed limit depth w id way j,
            h.marked (other way) j,
          ));
    small = length-added way depth limit w id room h.small;
  }
    where
      w' : Walk
      w' = added way depth w id

  Front-added :
      (before : Direction → List ℤ) (way : Direction)
      → Front edge seed limit before depth w
      → Front edge seed limit before depth (added way depth w id)
  Front-added before way h = record {
    deep =
        by_direction (λ x. (j : ℤ) → has j (side x w').frontier ≡ true → level x j w'.info ≡ depth)
          way
          (λ j m. ground (
            arith,
            level-added edge seed limit depth w id way j,
            frontier-added way depth w id j,
            h.deep way j,
          ))
          (λ j m. ground (
            arith,
            level-added-other edge seed limit depth w id way j,
            frontier-added-other way depth w id j,
            h.deep (other way) j,
          ));
    inside =
        by_direction
          (λ x. (j : ℤ) → has j (side x w').frontier ≡ true → has j (side x w').seen ≡ true) way
          (λ j m. ground (
            arith,
            seen-added edge seed limit depth w id way j,
            frontier-added way depth w id j,
            h.inside way j,
          ))
          (λ j m. ground (
            arith,
            seen-added-other edge seed limit depth w id way j,
            frontier-added-other way depth w id j,
            h.inside (other way) j,
          ));
    fresh =
        by_direction
          (λ x.
            (j : ℤ)
            → has j (side x w').seen ≡ true
            → (has j (side x w').frontier ≡ true) ⊎ (has j (before x) ≡ true))
          way
          (λ j m. ground (
            arith,
            seen-added edge seed limit depth w id way j,
            frontier-added way depth w id j,
            h.fresh way j,
          ))
          (λ j m. ground (
            arith,
            seen-added-other edge seed limit depth w id way j,
            frontier-added-other way depth w id j,
            h.fresh (other way) j,
          ));
    base =
        by_direction (λ x. (j : ℤ) → has j (before x) ≡ true → has j (side x w').seen ≡ true) way
          (λ j m. ground (arith, seen-added edge seed limit depth w id way j, h.base way j))
          (λ j m.
            ground
              (arith, seen-added-other edge seed limit depth w id way j, h.base (other way) j));
  }
    where
      w' : Walk
      w' = added way depth w id

module _ (edge : ℤ → ℤ → Type 0) (seed : ℤ) (limit depth : ℕ) (before : Direction → List ℤ) where
  abbrev pub Both : Walk → Type 0
  Both w = Inv edge seed limit w × Front edge seed limit before depth w

  Both-full : (w : Walk) → Both w → Both (full w)
  Both-full w h = (
    record {
      known = h.0.known;
      sound = λ way j. rw (side-full way w) (h.0.sound way j);
      marked = λ way j. rw (side-full way w) (h.0.marked way j);
      small = h.0.small;
    },
    record {
      deep = λ way j. rw (side-full way w) (h.1.deep way j);
      inside = λ way j. rw (side-full way w) (h.1.inside way j);
      fresh = λ way j. rw (side-full way w) (h.1.fresh way j);
      base = λ way j. rw (side-full way w) (h.1.base way j);
    },
  )

  Both-visit_at :
      (way : Direction) (w : Walk) (id : ℤ)
      → 0 < depth
      → Trail edge way seed id depth
      → Both w
      → Both (visit_at way limit depth w id)
  Both-visit_at way w id pos_depth trail h =
      visit_at-rule Both way limit depth w id (λ _. h) (Both-full w h)
        (λ _ room. (
          Inv-added edge seed limit depth w id way pos_depth trail room h.0,
          Front-added edge seed limit depth w id before way h.1,
        ))

  pub Both-alternate :
      (w : Walk) (us ds : List ℤ)
      → 0 < depth
      → All (λ id. Trail edge Direction.upward seed id depth) us
      → All (λ id. Trail edge Direction.downward seed id depth) ds
      → Both w
      → Both (alternate limit depth w us ds)
  Both-alternate w us ds pos_depth =
      alternate-rule Both (λ id. Trail edge Direction.upward seed id depth)
        (λ id. Trail edge Direction.downward seed id depth) limit depth
        (λ v id t h. Both-visit_at Direction.upward v id pos_depth t h)
        (λ v id t h. Both-visit_at Direction.downward v id pos_depth t h) w us ds
