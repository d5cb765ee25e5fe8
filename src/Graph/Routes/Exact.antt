-- ===== src/Graph/Routes/Exact.antt =====
-- A traversal from its start to its end.
use ripestream.Base.{ℕ, suc, ◌≤◌, ◌<◌, ◌≡◌, refl, Bool, true, false, arith, length, inl, ◌↔◌}
use mathlib.Core.Path.{subst}
use ripestream.Base.Int.{ℤ}
use ripestream.Graph.Values.{Go}
use ripestream.Graph.Routes.{same, has, find, Walk, Direction, Db, Outcome, start, traverse}
use ripestream.Graph.Routes.Members.{same_iff, same_refl}
use ripestream.Graph.Routes.Trails.{Trail, Answers}
use ripestream.Graph.Routes.Visits.{side, level}
use ripestream.Graph.Routes.Rounds.{Inv}
use ripestream.Graph.Routes.Advance.{Outer}
use ripestream.Graph.Routes.Whole.{Closed, Ended, Kept, loop-Kept}

module _ (edge : ℤ → ℤ → Type 0) (seed : ℤ) where
  at_start :
      (way : Direction) (j : ℤ)
      → (has j (side way (start seed)).seen ≡ same seed j)
        × (has j (side way (start seed)).frontier ≡ same seed j)
        × (level way j (start seed).info ≡ 0)
  unfolding has level find
  at_start Direction.upward j = (ground arith, ground arith, ground arith)
  at_start Direction.downward j = (ground arith, ground arith, ground arith)

  start-Inv : (limit : ℕ) → 0 < limit → Inv edge seed limit (start seed)
  start-Inv limit h = record {
    known = λ j. ground arith;
    sound = λ way j m. rw (at_start way j).2 (
        subst (λ x. Trail edge way seed x 0) ((same_iff seed j).0 (rw (← (at_start way j).0) m))
          Trail.here);
    marked = λ way j. rw ((at_start way j).2, (at_start way j).0) (ground arith);
    small = omega arith;
  }

  start-Outer : (limit : ℕ) → 0 < limit → Outer edge seed limit 1 (start seed)
  start-Outer limit h = record {
    inv = start-Inv limit h;
    deep = λ way j m. rw (at_start way j).2 refl;
    inside = λ way j m. ground (arith, at_start way j);
    closed = λ way a b m along. inl (ground (arith, at_start way a));
  }

module _ (go : Go) (db : Db (Go.fl go)) (edge : ℤ → ℤ → Type 0) (answers : Answers go db edge)
    (max_depth limit : ℕ) (seed : ℤ) (t : Walk) (reached : Bool) where
  pub traverse-Ended :
      0 < max_depth
      → 0 < limit
      → traverse go db max_depth limit seed ≡ Outcome.finished t reached
      → Ended go db edge answers max_depth limit seed t reached
  unfolding traverse
  traverse-Ended d h e = subst (Kept go db edge answers max_depth limit seed) e (
      loop-Kept go db edge answers max_depth limit seed (suc max_depth) 1 false (start seed)
        (omega arith) (start-Outer edge seed limit h) (λ _. inl d))

  seed-seen : (way : Direction) → Inv edge seed limit t → has seed (side way t).seen ≡ true
  seed-seen way h = rw (h.marked way seed, same_refl seed) refl

  reached-seen :
      (way : Direction) (j : ℤ) (n : ℕ)
      → Inv edge seed limit t
      → Closed go db edge answers max_depth limit seed t
      → Trail edge way seed j n
      → has j (side way t).seen ≡ true
  reached-seen way j n h closed Trail.here = seed-seen way h
  reached-seen way j n h closed (Trail.step {b} {n = m} trail along) =
      closed way b j (reached-seen way b m h closed trail) along

  pub seen_iff :
      (way : Direction) (j : ℤ)
      → Inv edge seed limit t
      → Closed go db edge answers max_depth limit seed t
      → (has j (side way t).seen ≡ true) ↔ ((n : ℕ) × Trail edge way seed j n)
  seen_iff way j h closed = (
    λ m. (level way j t.info, h.sound way j m),
    λ found. reached-seen way j found.0 h closed found.1,
  )

-- A traversal that ends has walked trails only: an identifier that a direction has seen has, in the
-- direction, a trail of the depth noted for it, and there are no more identifiers than the limit.
-- This holds too of a traversal that the limits cut short.
pub traverse_sound :
    (go : Go) (db : Db (Go.fl go)) (edge : ℤ → ℤ → Type 0) (max_depth limit : ℕ) (seed : ℤ)
    (t : Walk) (reached : Bool)
    → Answers go db edge
    → 0 < max_depth
    → 0 < limit
    → traverse go db max_depth limit seed ≡ Outcome.finished t reached
    → (length t.info ≤ limit)
      × ((way : Direction) (j : ℤ)
          → has j (side way t).seen ≡ true
          → Trail edge way seed j (level way j t.info))
traverse_sound go db edge max_depth limit seed t reached answers d h e =
    let ended = traverse-Ended go db edge answers max_depth limit seed t reached d h e in
    (ended.0.small, ended.0.sound)
