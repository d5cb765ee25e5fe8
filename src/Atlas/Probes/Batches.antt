-- ===== src/Atlas/Probes/Batches.antt =====
-- The batches that `Fetch` asks for.
use ripestream.Base.{
  ℕ, zero, suc, ◌≤◌, ◌<◌, ◌≡◌, refl, ap, ◌∙◌, Bool, false, ◌&&◌, ◌||◌, List, [], ◌∷◌, ◌++◌, map,
  Bytes, ◌⊎◌, inl, inr, arith, length, take, All, Bool-cases, length-take,
}
use ripestream.Base.Int.{ℤ, pos, ◌<ℤ◌, ltb_ℤ, eqb_ℤ, eq_of_parts}
use ripestream.Base.Float.{Float}
use ripestream.Atlas.Probes.{
  ProbeMetadata, ProbeApiRecord, drop, insert_id, ordered_ids, fetch_probe_batch, append_batch,
  fetch_batches, fetch,
}

unfoldable pub among : ℤ → List ℤ → Bool
among id [] = false
among id (x ∷ xs) = eqb_ℤ x id || among id xs

abbrev pub IsAscending : List ℤ → Type 0
IsAscending [] = Unit {0}
IsAscending (x ∷ xs) = All (λ y. x <ℤ y) xs × IsAscending xs

unfoldable pub concat : List (List ℤ) → List ℤ
concat [] = []
concat (b ∷ bs) = b ++ concat bs

among-insert_id : (id j : ℤ) (xs : List ℤ) → among j (insert_id id xs) ≡ (eqb_ℤ id j || among j xs)
unfolding among insert_id
among-insert_id id j [] = refl
among-insert_id id j (x ∷ xs) = elim (Bool-cases (eqb_ℤ x id)) [
  | inl e ↦ rw (eq_of_parts x id (ground arith)) (ground arith)
  | inr n ↦ rw n (ground (arith, among-insert_id id j xs))
]

All-insert_id :
    (y id : ℤ) (xs : List ℤ) → y <ℤ id → All (λ x. y <ℤ x) xs → All (λ x. y <ℤ x) (insert_id id xs)
unfolding insert_id
All-insert_id y id [] h a = (h, tt)
All-insert_id y id (x ∷ xs) h a = elim (Bool-cases (eqb_ℤ x id)) [
  | inl e ↦ rw e a
  | inr n ↦ elim (Bool-cases (ltb_ℤ x id)) [
    | inl l ↦ rw (n, l) (a.0, All-insert_id y id xs h a.1)
    | inr g ↦ rw (n, g) (h, a)
  ]
]

All-below : (id x : ℤ) (xs : List ℤ) → id <ℤ x → All (λ y. x <ℤ y) xs → All (λ y. id <ℤ y) xs
All-below id x [] h a = tt
All-below id x (y ∷ ys) h a = (omega (arith, h, a.0), All-below id x ys h a.1)

insert_id-IsAscending : (id : ℤ) (xs : List ℤ) → IsAscending xs → IsAscending (insert_id id xs)
unfolding insert_id
insert_id-IsAscending id [] h = (tt, tt)
insert_id-IsAscending id (x ∷ xs) h = elim (Bool-cases (eqb_ℤ x id)) [
  | inl e ↦ rw e h
  | inr n ↦ elim (Bool-cases (ltb_ℤ x id)) [
    | inl l ↦ rw (n, l) (All-insert_id x id xs (ground arith) h.0, insert_id-IsAscending id xs h.1)
    | inr g ↦
        let lower : id <ℤ x = ground arith in rw (n, g) ((lower, All-below id x xs lower h.0), h)
  ]
]

ordered_ids-IsAscending : (ids : List ℤ) → IsAscending (ordered_ids ids)
unfolding ordered_ids
ordered_ids-IsAscending [] = tt
ordered_ids-IsAscending (id ∷ ids) = elim (Bool-cases (ltb_ℤ (pos 0) id)) [
  | inl p ↦ rw p (insert_id-IsAscending id (ordered_ids ids) (ordered_ids-IsAscending ids))
  | inr n ↦ rw n (ordered_ids-IsAscending ids)
]

among-ordered_ids :
    (ids : List ℤ) (j : ℤ) → among j (ordered_ids ids) ≡ (among j ids && ltb_ℤ (pos 0) j)
unfolding ordered_ids among
among-ordered_ids [] j = refl
among-ordered_ids (id ∷ ids) j = elim (Bool-cases (ltb_ℤ (pos 0) id)) [
  | inl p ↦ rw (p, among-insert_id id j (ordered_ids ids), among-ordered_ids ids j) (ground arith)
  | inr n ↦ rw (n, among-ordered_ids ids j) (ground arith)
]

module _ {ℓ} {A : Type ℓ} where
  take-drop : (n : ℕ) (xs : List A) → take n xs ++ drop n xs ≡ xs
  take-drop zero xs = refl
  take-drop (suc n) [] = refl
  take-drop (suc n) (x ∷ xs) = ap (◌∷◌ x) (take-drop n xs)

  length-drop-le : (n : ℕ) (xs : List A) → length (drop n xs) ≤ length xs
  length-drop-le zero xs = omega arith
  length-drop-le (suc n) [] = omega arith
  length-drop-le (suc n) (x ∷ xs) = omega (arith, length-drop-le n xs)

-- The requests of the loop: 500 identifiers each, as long as there are so many.
unfoldable pub batches : ℕ → List ℤ → List (List ℤ)
batches fuel [] = []
batches zero (id ∷ ids) = []
batches (suc fuel) (id ∷ ids) = take 500 (id ∷ ids) ∷ batches fuel (drop 500 (id ∷ ids))

abbrev pub IsBatch : List ℤ → Type 0
IsBatch b = (0 < length b) × (length b ≤ 500)

shorter :
    (n fuel : ℕ) (id : ℤ) (ids : List ℤ)
    → length (id ∷ ids) ≤ suc fuel
    → length (drop (suc n) (id ∷ ids)) ≤ fuel
shorter n fuel id ids h = omega (arith, length-drop-le n ids)

concat-batches : (fuel : ℕ) (ids : List ℤ) → length ids ≤ fuel → concat (batches fuel ids) ≡ ids
unfolding concat batches
concat-batches fuel [] h = refl
concat-batches zero (id ∷ ids) h = absurd (omega (arith, h))
concat-batches (suc fuel) (id ∷ ids) h =
    ap (λ rest. take 500 (id ∷ ids) ++ rest)
      (concat-batches fuel (drop 500 (id ∷ ids)) (shorter 499 fuel id ids h))
    ∙ take-drop 500 (id ∷ ids)

taken-IsBatch :
    (n : ℕ) (id : ℤ) (ids : List ℤ)
    → (0 < length (take (suc n) (id ∷ ids))) × (length (take (suc n) (id ∷ ids)) ≤ suc n)
taken-IsBatch n id ids = (omega arith, omega (arith, length-take n ids))

batches-AreBatches : (fuel : ℕ) (ids : List ℤ) → All IsBatch (batches fuel ids)
unfolding batches
batches-AreBatches fuel [] = tt
batches-AreBatches zero (id ∷ ids) = tt
batches-AreBatches (suc fuel) (id ∷ ids) =
    (taken-IsBatch 499 id ids, batches-AreBatches fuel (drop 500 (id ∷ ids)))

module _ {fl : Float} where
  unfoldable pub prepend :
      List (ProbeMetadata fl) → Bytes ⊎ List (ProbeMetadata fl) → Bytes ⊎ List (ProbeMetadata fl)
  prepend b (inl e) = inl e
  prepend b (inr rest) = inr (b ++ rest)

  -- The first error of a list of answers, or all that they hold, in order.
  unfoldable pub gather : List (Bytes ⊎ List (ProbeMetadata fl)) → Bytes ⊎ List (ProbeMetadata fl)
  gather [] = inr []
  gather (inl e ∷ rest) = inl e
  gather (inr b ∷ rest) = prepend b (gather rest)

module _ {fl : Float} (request : List ℤ → Bytes ⊎ List (ProbeApiRecord fl)) where
  gather-append_batch :
      (r rest : Bytes ⊎ List (ProbeMetadata fl)) (rs : List (Bytes ⊎ List (ProbeMetadata fl)))
      → rest ≡ gather rs
      → append_batch request r rest ≡ gather (r ∷ rs)
  unfolding gather prepend append_batch
  gather-append_batch (inl e) rest rs h = refl
  gather-append_batch (inr b) (inl e) rs h = rw (← h) refl
  gather-append_batch (inr b) (inr more) rs h = rw (← h) refl

  fetch_batches-gather :
      (fuel : ℕ) (ids : List ℤ)
      → length ids ≤ fuel
      → fetch_batches request fuel ids
        ≡ gather (map (λ b. fetch_probe_batch (request b)) (batches fuel ids))
  unfolding gather batches fetch_batches
  fetch_batches-gather fuel [] h = refl
  fetch_batches-gather zero (id ∷ ids) h = absurd (omega (arith, h))
  fetch_batches-gather (suc fuel) (id ∷ ids) h =
      gather-append_batch _ _ _
        (fetch_batches-gather fuel (drop 500 (id ∷ ids)) (shorter 499 fuel id ids h))

-- `Fetch` asks for the positive identifiers of its argument, each once and in ascending order, in
-- batches of one to 500, and returns what the answers hold in that order, or the error of the first
-- batch that fails.
pub fetch-gather :
    (fl : Float) (request : List ℤ → Bytes ⊎ List (ProbeApiRecord fl)) (ids : List ℤ)
    → (asked : List (List ℤ)) × (concat asked ≡ ordered_ids ids)
      × All IsBatch asked
      × (fetch request ids ≡ gather (map (λ b. fetch_probe_batch (request b)) asked))
      × IsAscending (ordered_ids ids)
      × ((j : ℤ) → among j (ordered_ids ids) ≡ (among j ids && ltb_ℤ (pos 0) j))
unfolding fetch
fetch-gather fl request ids =
    let ordered : List ℤ = ordered_ids ids in
    let n : ℕ = length ordered in
    (
      batches n ordered,
      concat-batches n ordered (omega arith),
      batches-AreBatches n ordered,
      fetch_batches-gather request n ordered (omega arith),
      ordered_ids-IsAscending ids,
      among-ordered_ids ids,
    )
