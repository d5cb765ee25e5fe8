-- ===== src/Graph/Routes/Covers.antt =====
-- A walk that the node limit did not stop has seen every answer of the round.
use ripestream.Base.{ℕ, ◌≡◌, refl, true, false, List, [], ◌∷◌, arith, All, Bool-cases, inl, inr}
use ripestream.Base.Int.{ℤ}
use ripestream.Graph.Routes.{has, Walk, Direction, visit_up, visit_down, alternate}
use ripestream.Graph.Routes.Members.{same_refl}
use ripestream.Graph.Routes.Visits.{side, visit_at, full, added, visit_at-rule, alternate-rule}

anything : (us : List ℤ) → All {0, 0} (λ _. Unit) us
anything [] = tt
anything (u ∷ us) = (tt, anything us)

module _ (limit depth : ℕ) where
  limited-visit_at :
      (way : Direction) (w : Walk) (id : ℤ)
      → w.limited ≡ true
      → (visit_at way limit depth w id).limited ≡ true
  unfolding added
  limited-visit_at Direction.upward w id h =
      visit_at-rule (λ v. v.limited ≡ true) Direction.upward limit depth w id (λ _. h) refl
        (λ _ _. h)
  limited-visit_at Direction.downward w id h =
      visit_at-rule (λ v. v.limited ≡ true) Direction.downward limit depth w id (λ _. h) refl
        (λ _ _. h)

  limited-alternate :
      (w : Walk) (us ds : List ℤ)
      → w.limited ≡ true
      → (alternate limit depth w us ds).limited ≡ true
  limited-alternate w us ds =
      alternate-rule (λ v. v.limited ≡ true) (λ _. Unit) (λ _. Unit) limit depth
        (λ v id _ h. limited-visit_at Direction.upward v id h)
        (λ v id _ h. limited-visit_at Direction.downward v id h) w us ds (anything us) (anything ds)

  seen-full :
      (x : Direction) (w : Walk) (j : ℤ)
      → has j (side x w).seen ≡ true
      → has j (side x (full w)).seen ≡ true
  seen-full Direction.upward w j h = h
  seen-full Direction.downward w j h = h

  seen-added_before :
      (x way : Direction) (w : Walk) (id j : ℤ)
      → has j (side x w).seen ≡ true
      → has j (side x (added way depth w id)).seen ≡ true
  unfolding added has
  seen-added_before Direction.upward Direction.upward w id j h = ground (arith, h)
  seen-added_before Direction.upward Direction.downward w id j h = h
  seen-added_before Direction.downward Direction.upward w id j h = h
  seen-added_before Direction.downward Direction.downward w id j h = ground (arith, h)

  seen-added_self :
      (way : Direction) (w : Walk) (id : ℤ) → has id (side way (added way depth w id)).seen ≡ true
  unfolding added has
  seen-added_self Direction.upward w id = ground (arith, same_refl id)
  seen-added_self Direction.downward w id = ground (arith, same_refl id)

  seen-visit_at :
      (x way : Direction) (w : Walk) (id j : ℤ)
      → has j (side x w).seen ≡ true
      → has j (side x (visit_at way limit depth w id)).seen ≡ true
  seen-visit_at x way w id j h =
      visit_at-rule (λ v. has j (side x v).seen ≡ true) way limit depth w id (λ _. h)
        (seen-full x w j h) (λ _ _. seen-added_before x way w id j h)

  seen-alternate :
      (x : Direction) (w : Walk) (us ds : List ℤ) (j : ℤ)
      → has j (side x w).seen ≡ true
      → has j (side x (alternate limit depth w us ds)).seen ≡ true
  seen-alternate x w us ds j =
      alternate-rule (λ v. has j (side x v).seen ≡ true) (λ _. Unit) (λ _. Unit) limit depth
        (λ v id _ h. seen-visit_at x Direction.upward v id j h)
        (λ v id _ h. seen-visit_at x Direction.downward v id j h) w us ds (anything us)
        (anything ds)

  -- A visit that does not meet the limit leaves its identifier seen.
  visit_at-sees :
      (way : Direction) (w : Walk) (id : ℤ)
      → (visit_at way limit depth w id).limited ≡ false
      → has id (side way (visit_at way limit depth w id)).seen ≡ true
  visit_at-sees way w id =
      visit_at-rule (λ v. v.limited ≡ false → has id (side way v).seen ≡ true) way limit depth w id
        (λ s _. s) (λ h. absurd (ground arith)) (λ _ _ _. seen-added_self way w id)

  before_limit :
      (v v' : Walk)
      → (v.limited ≡ true → v'.limited ≡ true)
      → v'.limited ≡ false
      → v.limited ≡ false
  before_limit v v' keeps h = elim (Bool-cases v.limited) [
    | inl over ↦ absurd (ground (arith, keeps over))
    | inr room ↦ room
  ]

  -- The head of the answers of one direction: seen by its visit, and still at the end.
  visited :
      (way : Direction) (w : Walk) (id : ℤ) (us ds : List ℤ)
      → (alternate limit depth (visit_at way limit depth w id) us ds).limited ≡ false
      → has id (side way (alternate limit depth (visit_at way limit depth w id) us ds)).seen ≡ true
  visited way w id us ds h =
      let v : Walk = visit_at way limit depth w id in
      seen-alternate way v us ds id (
        visit_at-sees way w id
          (before_limit v (alternate limit depth v us ds) (limited-alternate v us ds) h))

  visited_first :
      (w : Walk) (u d : ℤ) (us ds : List ℤ)
      → (alternate limit depth (visit_down limit depth (visit_up limit depth w u) d) us ds).limited
        ≡ false
      → has u
          (alternate limit depth
            (visit_down limit depth (visit_up limit depth w u) d)
            us
            ds).up.seen
        ≡ true
  visited_first w u d us ds h =
      let v : Walk = visit_up limit depth w u in
      let v' : Walk = visit_down limit depth v d in
      let room = before_limit v' (alternate limit depth v' us ds) (limited-alternate v' us ds) h in
      seen-alternate Direction.upward v' us ds u (
        seen-visit_at Direction.upward Direction.downward v d u (
          visit_at-sees Direction.upward w u
            (before_limit v v' (limited-visit_at Direction.downward v d) room)))

  -- When the limit is not met, every answer has been seen by its direction.
  pub alternate-sees :
      (w : Walk) (us ds : List ℤ)
      → (alternate limit depth w us ds).limited ≡ false
      → All (λ id. has id (alternate limit depth w us ds).up.seen ≡ true) us
        × All (λ id. has id (alternate limit depth w us ds).down.seen ≡ true) ds
  unfolding alternate
  alternate-sees w [] [] h = (tt, tt)
  alternate-sees w (u ∷ us) [] h =
      let rest = alternate-sees (visit_up limit depth w u) us [] h in
      ((visited Direction.upward w u us [] h, rest.0), tt)
  alternate-sees w [] (d ∷ ds) h =
      let rest = alternate-sees (visit_down limit depth w d) [] ds h in
      (tt, (visited Direction.downward w d [] ds h, rest.1))
  alternate-sees w (u ∷ us) (d ∷ ds) h =
      let v : Walk = visit_up limit depth w u in
      let rest = alternate-sees (visit_down limit depth v d) us ds h in
      ((visited_first w u d us ds h, rest.0), (visited Direction.downward v d us ds h, rest.1))
