-- ===== src/Graph/Search/Keys.antt =====
-- The keys of the hits that `dedupeSearch` keeps.
use ripestream.Base.{
  ◌≡◌, refl, true, false, ◌||◌, List, [], ◌∷◌, map, Bytes, All, arith, Bool-cases, inl, inr,
}
use mathlib.Core.Path.{subst}
use ripestream.Base.Text.{bytes_eq, bytes_eq_refl}
use ripestream.Base.Assoc.{member}
use ripestream.Graph.Search.{SearchResult, key_of, dedupe_loop}

-- No two results have the same key.
abbrev pub AreDistinct : List SearchResult → Type 0
AreDistinct [] = Unit {0}
AreDistinct (h ∷ hs) = All (λ x. bytes_eq (key_of h) (key_of x) ≡ false) hs × AreDistinct hs

abbrev pub Listed : List SearchResult → SearchResult → Type 0
Listed out h = member (key_of h) (map key_of out) ≡ true

pub All-imp {ℓ κ μ} :
    {A : Type ℓ} (P : A → Type κ) (Q : A → Type μ) (xs : List A)
    → ((x : A) → P x → Q x)
    → All P xs
    → All Q xs
All-imp P Q [] f h = tt
All-imp P Q (x ∷ xs) f h = (f x h.0, All-imp P Q xs f h.1)

abbrev Unseen : List Bytes → SearchResult → Type 0
Unseen seen h = member (key_of h) seen ≡ false

dedupe_loop-Unseen :
    (seen : List Bytes) (hs : List SearchResult) → All (Unseen seen) (dedupe_loop seen hs)
unfolding dedupe_loop
dedupe_loop-Unseen seen [] = tt
dedupe_loop-Unseen seen (h ∷ hs) = elim (Bool-cases (member (key_of h) seen)) [
  | inl e ↦ rw e (dedupe_loop-Unseen seen hs)
  | inr n ↦ rw n (
    n,
    All-imp (Unseen (key_of h ∷ seen)) (Unseen seen) (dedupe_loop (key_of h ∷ seen) hs)
        (λ x u. ground (arith, u)) (dedupe_loop-Unseen (key_of h ∷ seen) hs),
  )
]

pub dedupe_loop-AreDistinct :
    (seen : List Bytes) (hs : List SearchResult) → AreDistinct (dedupe_loop seen hs)
unfolding dedupe_loop
dedupe_loop-AreDistinct seen [] = tt
dedupe_loop-AreDistinct seen (h ∷ hs) = elim (Bool-cases (member (key_of h) seen)) [
  | inl e ↦ rw e (dedupe_loop-AreDistinct seen hs)
  | inr n ↦ rw n (
    All-imp (Unseen (key_of h ∷ seen)) (λ x. bytes_eq (key_of h) (key_of x) ≡ false)
        (dedupe_loop (key_of h ∷ seen) hs) (λ x u. ground (arith, u))
        (dedupe_loop-Unseen (key_of h ∷ seen) hs),
    dedupe_loop-AreDistinct (key_of h ∷ seen) hs,
  )
]

pub All-dedupe_loop {κ} :
    (P : SearchResult → Type κ) (seen : List Bytes) (hs : List SearchResult)
    → All P hs
    → All P (dedupe_loop seen hs)
unfolding dedupe_loop
All-dedupe_loop P seen [] h = tt
All-dedupe_loop P seen (x ∷ xs) h = elim (Bool-cases (member (key_of x) seen)) [
  | inl e ↦ rw e (All-dedupe_loop P seen xs h.1)
  | inr n ↦ rw n (h.0, All-dedupe_loop P (key_of x ∷ seen) xs h.1)
]

abbrev pub Known : List Bytes → List SearchResult → SearchResult → Type 0
Known seen out h = (member (key_of h) seen || member (key_of h) (map key_of out)) ≡ true

pub dedupe_loop-Known :
    (seen : List Bytes) (hs : List SearchResult) → All (Known seen (dedupe_loop seen hs)) hs
unfolding dedupe_loop
dedupe_loop-Known seen [] = tt
dedupe_loop-Known seen (h ∷ hs) = elim (Bool-cases (member (key_of h) seen)) [
  | inl e ↦
      let skips : dedupe_loop seen hs ≡ dedupe_loop seen (h ∷ hs) = rw e refl in
      subst (λ out. All (Known seen out) (h ∷ hs)) skips (rw e refl, dedupe_loop-Known seen hs)
  | inr n ↦
      let rest : List SearchResult = dedupe_loop (key_of h ∷ seen) hs in
      let keeps : h ∷ rest ≡ dedupe_loop seen (h ∷ hs) = rw n refl in
      subst (λ out. All (Known seen out) (h ∷ hs)) keeps
        (
          rw (n, bytes_eq_refl (key_of h)) refl,
          All-imp (Known (key_of h ∷ seen) rest) (Known seen (h ∷ rest)) hs
              (λ x k. ground (arith, k)) (dedupe_loop-Known (key_of h ∷ seen) hs),
        )
]
