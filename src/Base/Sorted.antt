-- ===== src/Base/Sorted.antt =====
-- A stable sort by insertion, as `sort.SliceStable` gives it for an order whose ties are transitive.
use Prim.Native.Nat.{suc}
use mathlib.Core.Path.{◌≡◌, refl, ap, ◌∙◌}
use mathlib.Core.Logic.{inl, inr}
use mathlib.Core.Bool.{Bool, true, false}
use mathlib.Core.List.{List, [], ◌∷◌}
use ripestream.Base.Tests.{if◌then◌else◌, Bool-cases}
use ripestream.Base.Lists.{length, All}

module _ {ℓ} {A : Type ℓ} (less : A → A → Bool) where
  -- An entry goes in front of the first that is not less than it.
  unfoldable pub insert_by : A → List A → List A
  insert_by a [] = a ∷ []
  insert_by a (b ∷ bs) = let rest = insert_by a bs in if less b a then b ∷ rest else a ∷ b ∷ bs

  unfoldable pub sort_by : List A → List A
  sort_by [] = []
  sort_by (a ∷ rest) = insert_by a (sort_by rest)

  -- No entry stands behind one that it is less than.
  abbrev pub IsSorted : List A → Type 0
  IsSorted [] = Unit {0}
  IsSorted (a ∷ rest) = All (λ b. less b a ≡ false) rest × IsSorted rest

  pub All-insert_by {κ} :
      (P : A → Type κ) (a : A) (bs : List A) → P a → All P bs → All P (insert_by a bs)
  unfolding insert_by
  All-insert_by P a [] p h = (p, tt)
  All-insert_by P a (b ∷ bs) p h = elim (Bool-cases (less b a)) [
    | inl e ↦ rw e (h.0, All-insert_by P a bs p h.1)
    | inr e ↦ rw e (p, h)
  ]

  pub All-sort_by {κ} : (P : A → Type κ) (xs : List A) → All P xs → All P (sort_by xs)
  unfolding sort_by
  All-sort_by P [] h = tt
  All-sort_by P (a ∷ rest) h = All-insert_by P a (sort_by rest) h.0 (All-sort_by P rest h.1)

  length-insert_by : (a : A) (bs : List A) → length (insert_by a bs) ≡ suc (length bs)
  unfolding insert_by
  length-insert_by a [] = refl
  length-insert_by a (b ∷ bs) = elim (Bool-cases (less b a)) [
    | inl e ↦ rw e (ap suc (length-insert_by a bs))
    | inr e ↦ rw e refl
  ]

  pub length-sort_by : (xs : List A) → length (sort_by xs) ≡ length xs
  unfolding sort_by
  length-sort_by [] = refl
  length-sort_by (a ∷ rest) = length-insert_by a (sort_by rest) ∙ ap suc (length-sort_by rest)

  module _ (asym : (a b : A) → less a b ≡ true → less b a ≡ false)
      (negtrans : (a b c : A) → less b a ≡ false → less c b ≡ false → less c a ≡ false) where
    behind :
        (a b : A) (bs : List A)
        → less b a ≡ false
        → All (λ c. less c b ≡ false) bs
        → All (λ c. less c a ≡ false) bs
    behind a b [] e h = tt
    behind a b (c ∷ cs) e h = (negtrans a b c e h.0, behind a b cs e h.1)

    insert_by-IsSorted : (a : A) (bs : List A) → IsSorted bs → IsSorted (insert_by a bs)
    unfolding insert_by
    insert_by-IsSorted a [] h = (tt, tt)
    insert_by-IsSorted a (b ∷ bs) h = elim (Bool-cases (less b a)) [
      | inl e ↦ rw e (All-insert_by _ a bs (asym b a e) h.0, insert_by-IsSorted a bs h.1)
      | inr e ↦ rw e ((e, behind a b bs e h.0), h)
    ]

    pub sort_by-IsSorted : (xs : List A) → IsSorted (sort_by xs)
    unfolding sort_by
    sort_by-IsSorted [] = tt
    sort_by-IsSorted (a ∷ rest) = insert_by-IsSorted a (sort_by rest) (sort_by-IsSorted rest)
