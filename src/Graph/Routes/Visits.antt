-- ===== src/Graph/Routes/Visits.antt =====
-- One visit of an identifier, as one of three changes to the walk, and what holds through the
-- alternation of visits.
use ripestream.Base.{
  ℕ, ◌≡◌, refl, true, false, not, ◌||◌, List, [], ◌∷◌, ◌++◌, leb, length, All, Bool-cases,
  Option-cases, ◌⊎◌, inl, inr,
}
use ripestream.Base.Int.{ℤ}
use ripestream.Base.Assoc.{is_some}
use ripestream.Graph.Routes.{
  has, Depths, Info, depths_at, find, store, Side, Walk, Visit, Direction, set_depth, admit, visit,
  visit_up, visit_down, alternate,
}

abbrev pub side : Direction → Walk → Side
side Direction.upward w = w.up
side Direction.downward w = w.down

abbrev pub depth_of : Direction → Depths → ℕ
depth_of Direction.upward d = d.up_depth
depth_of Direction.downward d = d.down_depth

-- The depth at which a direction reached an identifier; 0 for the seed, and for those it did not.
unfoldable pub level : Direction → ℤ → Info → ℕ
level way id info = depth_of way (depths_at (find id info))

abbrev pub visit_at : Direction → ℕ → ℕ → Walk → ℤ → Walk
visit_at Direction.upward limit depth w id = visit_up limit depth w id
visit_at Direction.downward limit depth w id = visit_down limit depth w id

abbrev pub joined : Side → ℤ → Side
joined s id = record { seen = id ∷ s.seen; frontier = s.frontier ++ id ∷ [] }

abbrev pub full : Walk → Walk
full w = record w { limited = true }

abbrev pub with_depth : Direction → ℕ → ℤ → Info → Info
with_depth way depth id info = store info id (set_depth way depth (depths_at (find id info)))

abbrev pub enlarged : Direction → ℕ → Visit → ℤ → Visit
enlarged way depth v id = record v {
  info = with_depth way depth id v.info;
  side = joined v.side id;
}

-- The walk with an identifier that a direction had not seen.
unfoldable pub added : Direction → ℕ → Walk → ℤ → Walk
added Direction.upward depth w id = record w {
  info = with_depth Direction.upward depth id w.info;
  up = joined w.up id;
}
added Direction.downward depth w id = record w {
  info = with_depth Direction.downward depth id w.info;
  down = joined w.down id;
}

visit-changes :
    (way : Direction) (limit depth : ℕ) (v : Visit) (id : ℤ)
    → ((has id v.side.seen ≡ true) × (visit way limit depth v id ≡ v))
      ⊎ ((visit way limit depth v id ≡ record v { limited = true })
          ⊎ ((has id v.side.seen ≡ false)
              × ((is_some (find id v.info) || not (leb limit (length v.info))) ≡ true)
              × (visit way limit depth v id ≡ enlarged way depth v id)))
unfolding visit admit
visit-changes way limit depth v id = elim (Bool-cases (has id v.side.seen)) [
  | inl s ↦ inl (s, rw s refl)
  | inr n ↦ elim (Option-cases (find id v.info)) [
    | inr (d, e) ↦ inr (inr (n, rw e refl, rw (n, e) refl))
    | inl e ↦ elim (Bool-cases (leb limit (length v.info))) [
      | inl over ↦ inr (inl (rw (n, e, over) refl))
      | inr room ↦ inr (inr (n, rw (e, room) refl, rw (n, e, room) refl))
    ]
  ]
]

-- What holds of the walk, and of it with the limit met or the identifier added, holds behind a visit.
pub visit_at-rule {κ} :
    (P : Walk → Type κ) (way : Direction) (limit depth : ℕ) (w : Walk) (id : ℤ)
    → (has id (side way w).seen ≡ true → P w)
    → P (full w)
    → (has id (side way w).seen ≡ false
        → (is_some (find id w.info) || not (leb limit (length w.info))) ≡ true
        → P (added way depth w id))
    → P (visit_at way limit depth w id)
unfolding visit_up visit_down added
visit_at-rule P Direction.upward limit depth w id known turned fresh =
    elim (visit-changes Direction.upward limit depth
      (record { info = w.info; side = w.up; limited = w.limited }) id) [
        | inl h ↦ rw h.1 (known h.0)
        | inr (inl h) ↦ rw h turned
        | inr (inr h) ↦ rw h.2 (fresh h.0 h.1)
      ]
visit_at-rule P Direction.downward limit depth w id known turned fresh =
    elim (visit-changes Direction.downward limit depth
      (record { info = w.info; side = w.down; limited = w.limited }) id) [
        | inl h ↦ rw h.1 (known h.0)
        | inr (inl h) ↦ rw h turned
        | inr (inr h) ↦ rw h.2 (fresh h.0 h.1)
      ]

module _ {κ} (P : Walk → Type κ) (U D : ℤ → Type κ) (limit depth : ℕ) where
  -- What every visit keeps holds behind the alternation.
  pub alternate-rule :
      ((w : Walk) (id : ℤ) → U id → P w → P (visit_up limit depth w id))
      → ((w : Walk) (id : ℤ) → D id → P w → P (visit_down limit depth w id))
      → (w : Walk) (us ds : List ℤ) → All U us
      → All D ds
      → P w
      → P (alternate limit depth w us ds)
  unfolding alternate
  alternate-rule hu hd w [] [] au ad p = p
  alternate-rule hu hd w (u ∷ us) [] au ad p =
      alternate-rule hu hd (visit_up limit depth w u) us [] au.1 ad (hu w u au.0 p)
  alternate-rule hu hd w [] (d ∷ ds) au ad p =
      alternate-rule hu hd (visit_down limit depth w d) [] ds au ad.1 (hd w d ad.0 p)
  alternate-rule hu hd w (u ∷ us) (d ∷ ds) au ad p =
      let v : Walk = visit_up limit depth w u in
      alternate-rule hu hd (visit_down limit depth v d) us ds au.1 ad.1
        (hd v d ad.0 (hu w u au.0 p))
