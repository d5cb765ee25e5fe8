-- ===== src/Api/Page/Whole.antt =====
-- The pages of a list of rows, when the store is asked for one row more than a page shows.
use ripestream.Base.{
  ℕ, zero, suc, ◌<◌, ◌≤◌, ◌≡◌, refl, ◌↔◌, true, List, [], ◌∷◌, Option, ltb, length, take, arith,
  Bool-cases, inl, inr, length-take, ap, sym, ◌∙◌, ltb→lt,
}
use ripestream.Base.Int.{ℤ, pos, ◌≤ℤ◌}
use ripestream.Api.Page.{page_params, respond_page}

-- Whatever the query says, if the default limit is at least 1, the page has 1 to 100 rows and does not
-- start before the first.
pub page_params_bounds :
    (limit_param offset_param : Option ℤ) (default_limit : ℤ)
    → pos 1 ≤ℤ default_limit
    → let p = page_params limit_param offset_param default_limit in
      (pos 1 ≤ℤ p.limit) × (p.limit ≤ℤ pos 100) × (pos 0 ≤ℤ p.offset)
unfolding page_params
page_params_bounds limit_param offset_param default_limit h = ground arith

module _ {ℓ} {A : Type ℓ} where
  take-take : (n : ℕ) (xs : List A) → take n (take (suc n) xs) ≡ take n xs
  take-take zero xs = refl
  take-take (suc n) [] = refl
  take-take (suc n) (x ∷ xs) = ap (◌∷◌ x) (take-take n xs)

  take-short : (n : ℕ) (xs : List A) → length xs ≤ n → take n xs ≡ xs
  take-short zero [] h = refl
  take-short zero (x ∷ xs) h = absurd (omega arith)
  take-short (suc n) [] h = refl
  take-short (suc n) (x ∷ xs) h = ap (◌∷◌ x) (take-short n xs (omega arith))

  -- The store returns the first `limit + 1` of all rows: the page shows the first `limit` of them
  -- and says that there are more exactly when there are.
  pub respond_page-lookahead :
      (limit : ℕ) (all : List A)
      → ((respond_page (take (suc limit) all) limit).rows ≡ take limit all)
        × (((respond_page (take (suc limit) all) limit).has_more ≡ true) ↔ (limit < length all))
  unfolding respond_page
  respond_page-lookahead limit all = elim (Bool-cases (ltb limit (length (take (suc limit) all)))) [
    | inl e ↦ rw e (
      take-take limit all,
      ((λ _. omega (arith, ltb→lt _ _ e, length-take (suc limit) all)), λ _. refl),
    )
    | inr e ↦
        let short : length (take (suc limit) all) ≤ limit = ground arith in
        let few : length all ≤ limit = omega (arith, short, length-take (suc limit) all) in
        rw e (
          take-short (suc limit) all (omega (arith, few)) ∙ sym (take-short limit all few),
          ((λ h. cc), λ h. absurd (omega (arith, few))),
        )
  ]
