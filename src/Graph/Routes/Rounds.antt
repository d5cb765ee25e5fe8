-- ===== src/Graph/Routes/Rounds.antt =====
-- What the walk keeps while it visits the answers of one depth.
use ripestream.Base.{
  ℕ, suc, ◌≤◌, ◌≡◌, refl, true, not, ◌||◌, List, Option, arith, leb, ltb, length, Option-cases,
  if◌then◌else◌, ◌⊎◌, inl, inr,
}
use ripestream.Base.Int.{ℤ}
use mathlib.Core.Path.{subst}
use ripestream.Base.Assoc.{is_some}
use ripestream.Graph.Routes.{
  same, has, Depths, Info, depths_at, keys, find, Walk, Direction, set_depth,
}
use ripestream.Graph.Routes.Members.{
  same_iff, has-keys, find-store, length-store_new, length-store_old,
}
use ripestream.Graph.Routes.Trails.{Trail}
use ripestream.Graph.Routes.Visits.{side, level, with_depth, added}

level-with_depth :
    (way : Direction) (depth : ℕ) (id j : ℤ) (info : Info)
    → level way j (with_depth way depth id info) ≡ (if same id j then depth else level way j info)
unfolding level
level-with_depth Direction.upward depth id j info =
    let v = set_depth Direction.upward depth (depths_at (find id info)) in
    rw (find-store info id j v) (ground arith)
level-with_depth Direction.downward depth id j info =
    let v = set_depth Direction.downward depth (depths_at (find id info)) in
    rw (find-store info id j v) (ground arith)

abbrev pub other : Direction → Direction
other Direction.upward = Direction.downward
other Direction.downward = Direction.upward

level-with_depth-other :
    (way : Direction) (depth : ℕ) (id j : ℤ) (info : Info)
    → level (other way) j (with_depth way depth id info) ≡ level (other way) j info
unfolding level
level-with_depth-other Direction.upward depth id j info =
    let v = set_depth Direction.upward depth (depths_at (find id info)) in
    rw (find-store info id j v) (ground (arith, same_iff id j))
level-with_depth-other Direction.downward depth id j info =
    let v = set_depth Direction.downward depth (depths_at (find id info)) in
    rw (find-store info id j v) (ground (arith, same_iff id j))

pub length-with_depth :
    (way : Direction) (depth limit : ℕ) (id : ℤ) (info : Info)
    → (is_some (find id info) || not (leb limit (length info))) ≡ true
    → length info ≤ limit
    → length (with_depth way depth id info) ≤ limit
length-with_depth way depth limit id info room h = elim (Option-cases (find id info)) [
  | inl e ↦ rw (length-store_new info id (set_depth way depth (depths_at (find id info))) e) (
      fits
        (subst (λ (o : Option Depths). (is_some o || not (leb limit (length info))) ≡ true) e room))
  | inr (d, e) ↦
      rw (length-store_old info id (set_depth way depth (depths_at (find id info))) d e) h
]
  where
    fits : not (leb limit (length info)) ≡ true → suc (length info) ≤ limit
    fits r = ground arith

module _ (edge : ℤ → ℤ → Type 0) (seed : ℤ) (limit : ℕ) where
  pub record Inv (w : Walk) : Type 0 where
    pub known : (j : ℤ) → has j (keys w.info) ≡ (has j w.up.seen || has j w.down.seen)
    pub sound :
        (way : Direction) (j : ℤ)
        → has j (side way w).seen ≡ true
        → Trail edge way seed j (level way j w.info)
    pub marked :
        (way : Direction) (j : ℤ)
        → has j (side way w).seen ≡ (same seed j || ltb 0 (level way j w.info))
    pub small : length w.info ≤ limit

  -- Within the round of a depth: the frontiers hold what this round added to the sets before it.
  pub record Front (before : Direction → List ℤ) (depth : ℕ) (w : Walk) : Type 0 where
    pub deep :
        (way : Direction) (j : ℤ) → has j (side way w).frontier ≡ true → level way j w.info ≡ depth
    pub inside :
        (way : Direction) (j : ℤ)
        → has j (side way w).frontier ≡ true
        → has j (side way w).seen ≡ true
    pub fresh :
        (way : Direction) (j : ℤ)
        → has j (side way w).seen ≡ true
        → (has j (side way w).frontier ≡ true) ⊎ (has j (before way) ≡ true)
    pub base :
        (way : Direction) (j : ℤ) → has j (before way) ≡ true → has j (side way w).seen ≡ true

  module _ (depth : ℕ) (w : Walk) (id : ℤ) where
    pub known-added :
        (way : Direction)
        → Inv w
        → (j : ℤ)
        → has j (keys (added way depth w id).info)
          ≡ (has j (added way depth w id).up.seen || has j (added way depth w id).down.seen)
    unfolding added has
    known-added Direction.upward h j =
        let i' = with_depth Direction.upward depth id w.info in
        let v = set_depth Direction.upward depth (depths_at (find id w.info)) in
        ground (arith, has-keys i' j, find-store w.info id j v, has-keys w.info j, h.known j)
    known-added Direction.downward h j =
        let i' = with_depth Direction.downward depth id w.info in
        let v = set_depth Direction.downward depth (depths_at (find id w.info)) in
        ground (arith, has-keys i' j, find-store w.info id j v, has-keys w.info j, h.known j)

    pub seen-added :
        (way : Direction) (j : ℤ)
        → has j (side way (added way depth w id)).seen ≡ (same id j || has j (side way w).seen)
    unfolding added has
    seen-added Direction.upward j = refl
    seen-added Direction.downward j = refl

    pub seen-added-other :
        (way : Direction) (j : ℤ)
        → has j (side (other way) (added way depth w id)).seen ≡ has j (side (other way) w).seen
    unfolding added
    seen-added-other Direction.upward j = refl
    seen-added-other Direction.downward j = refl

    pub level-added :
        (way : Direction) (j : ℤ)
        → level way j (added way depth w id).info
          ≡ (if same id j then depth else level way j w.info)
    unfolding added
    level-added Direction.upward j = level-with_depth Direction.upward depth id j w.info
    level-added Direction.downward j = level-with_depth Direction.downward depth id j w.info

    pub level-added-other :
        (way : Direction) (j : ℤ)
        → level (other way) j (added way depth w id).info ≡ level (other way) j w.info
    unfolding added
    level-added-other Direction.upward j = level-with_depth-other Direction.upward depth id j w.info
    level-added-other Direction.downward j =
        level-with_depth-other Direction.downward depth id j w.info
