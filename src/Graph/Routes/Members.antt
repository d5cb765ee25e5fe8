-- ===== src/Graph/Routes/Members.antt =====
-- Sets of identifiers and the map of depths: membership, distinct lists and their lengths.
use ripestream.Base.{
  suc, ◌≤◌, ◌≡◌, refl, ap, ◌↔◌, true, false, ◌||◌, List, [], ◌∷◌, ◌++◌, none, some, arith, length,
  All, Bool-cases, if◌then◌else◌, inl, inr,
}
use ripestream.Base.Int.{ℤ, eq_of_parts}
use ripestream.Base.Assoc.{is_some}
use ripestream.Graph.Routes.{same, has, Depths, Info, keys, find, store}

pub same_iff : (a b : ℤ) → (same a b ≡ true) ↔ (a ≡ b)
unfolding same
same_iff a b = ground (arith, eq_of_parts a b)

pub same_refl : (a : ℤ) → same a a ≡ true
same_refl a = (same_iff a a).1 refl

pub has-append : (id : ℤ) (xs ys : List ℤ) → has id (xs ++ ys) ≡ (has id xs || has id ys)
unfolding has
has-append id [] ys = refl
has-append id (x ∷ xs) ys = ground (arith, has-append id xs ys)

pub All_has {κ} : (P : ℤ → Type κ) (xs : List ℤ) (id : ℤ) → All P xs → has id xs ≡ true → P id
unfolding has
All_has P [] id h m = absurd (ground arith)
All_has P (x ∷ xs) id h m = elim (Bool-cases (same x id)) [
  | inl e ↦ rw (← (same_iff x id).0 e) h.0
  | inr e ↦ All_has P xs id h.1 (ground arith)
]

pub length-keys : (info : Info) → length (keys info) ≡ length info
length-keys [] = refl
length-keys (e ∷ es) = ap suc (length-keys es)

pub has-keys : (info : Info) (id : ℤ) → has id (keys info) ≡ is_some (find id info)
unfolding has find
has-keys [] id = refl
has-keys (e ∷ es) id = ground (arith, has-keys es id)

pub find-store :
    (info : Info) (k j : ℤ) (v : Depths)
    → find j (store info k v) ≡ (if same k j then some v else find j info)
unfolding find store
find-store [] k j v = refl
find-store (e ∷ es) k j v = elim (Bool-cases (same e.0 k)) [
  | inl h ↦ rw (h, (same_iff e.0 k).0 h) (ground arith)
  | inr h ↦ ground (arith, find-store es k j v, same_iff e.0 k, same_iff e.0 j, same_iff k j)
]

pub length-store_new :
    (info : Info) (k : ℤ) (v : Depths)
    → find k info ≡ none
    → length (store info k v) ≡ suc (length info)
unfolding find store
length-store_new [] k v h = refl
length-store_new (e ∷ es) k v h = ground (arith, length-store_new es k v)

pub length-store_old :
    (info : Info) (k : ℤ) (v d : Depths)
    → find k info ≡ some d
    → length (store info k v) ≡ length info
unfolding find store
length-store_old [] k v d h = absurd (ground arith)
length-store_old (e ∷ es) k v d h = ground (arith, length-store_old es k v d)

-- A list that names no identifier twice.
unfoldable pub Distinct : List ℤ → Type 0
Distinct [] = Unit
Distinct (x ∷ xs) = (has x xs ≡ false) × Distinct xs

without : ℤ → List ℤ → List ℤ
without id [] = []
without id (x ∷ xs) = if same x id then xs else x ∷ without id xs

length-without :
    (id : ℤ) (xs : List ℤ) → has id xs ≡ true → length xs ≡ suc (length (without id xs))
unfolding has without
length-without id [] h = absurd (ground arith)
length-without id (x ∷ xs) h = ground (arith, length-without id xs)

has-without :
    (id j : ℤ) (xs : List ℤ) → same id j ≡ false → has j xs ≡ true → has j (without id xs) ≡ true
unfolding has without
has-without id j [] n h = h
has-without id j (x ∷ xs) n h =
    ground (arith, has-without id j xs n, same_iff x id, same_iff x j, same_iff id j)

pub Distinct-length :
    (xs ys : List ℤ)
    → Distinct xs
    → ((id : ℤ) → has id xs ≡ true → has id ys ≡ true)
    → length xs ≤ length ys
unfolding Distinct has
Distinct-length [] ys d h = omega arith
Distinct-length (x ∷ xs) ys d h =
    let shorter =
      Distinct-length xs (without x ys) d.1
        (λ id m. has-without x id ys (other id m) (h id (ground arith))) in
    omega (arith, shorter, length-without x ys (h x (rw (same_refl x) refl)))
  where
    other : (id : ℤ) → has id xs ≡ true → same x id ≡ false
    other id m = elim (Bool-cases (same x id)) [
      | inl e ↦ absurd (ground (arith, same_iff x id, d.0))
      | inr e ↦ e
    ]
