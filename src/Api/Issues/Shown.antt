-- ===== src/Api/Issues/Shown.antt =====
-- The issues that the handler `issues` shows.
use ripestream.Base.{
  ℕ, zero, suc, Bool, true, false, not, ◌&&◌, ◌||◌, List, [], ◌∷◌, ◌++◌, ◌≡◌, refl, ap, sym, ◌∙◌,
  ◌⊎◌, inl, inr, String, str_eq, ltb, ◌≤◌, ◌<◌, if◌then◌else◌, arith, Bool-cases, All, length, take,
  keep, length-take, append-nil,
}
use mathlib.Core.List.{Perm}
use mathlib.Core.List.Perm
use ripestream.Base.Int.{ℤ}
use ripestream.Base.Float.{Float}
use ripestream.Base.Text.{bytes_eq}
use ripestream.Api.Issues.{
  Issue, is_alert, issue_less, insert_issue, sort_issues, page_limit, rank_issues,
}
use ripestream.Api.Issues.Rank.{IsSeverity}
use ripestream.Api.Issues.Sorted.{AreSeverities, sort_issues-IsRanked}
use ripestream.Api.Issues.Dedupe.{upsert, upsert_all, dedupe_issues-upsert_all}
use ripestream.Api.Issues.Order.{Precedes, Ordered, IsRanked-Ordered}

module _ {fl : Float} where
  All-keep {κ} :
      (P : Issue fl → Type κ) (p : Issue fl → Bool) (issues : List (Issue fl))
      → All P issues
      → All P (keep p issues)
  All-keep P p [] h = tt
  All-keep P p (a ∷ rest) h = elim (Bool-cases (p a)) [
    | inl e ↦ rw e (h.0, All-keep P p rest h.1)
    | inr e ↦ rw e (All-keep P p rest h.1)
  ]

  Ordered-keep :
      (p : Issue fl → Bool) (issues : List (Issue fl)) → Ordered issues → Ordered (keep p issues)
  Ordered-keep p [] h = tt
  Ordered-keep p (a ∷ rest) h = elim (Bool-cases (p a)) [
    | inl e ↦ rw e (All-keep (λ b. ¬ Precedes b a) p rest h.0, Ordered-keep p rest h.1)
    | inr e ↦ rw e (Ordered-keep p rest h.1)
  ]

  insert_issue-perm :
      (p : Issue fl → Bool) (a : Issue fl) (bs : List (Issue fl))
      → Perm (keep p (insert_issue a bs)) (keep p (a ∷ bs))
  unfolding insert_issue
  insert_issue-perm p a [] = Perm.refl (keep p (a ∷ []))
  insert_issue-perm p a (b ∷ bs) = elim (Bool-cases (issue_less b a)) [
    | inr e ↦ rw e (Perm.refl (keep p (a ∷ b ∷ bs)))
    | inl e ↦ rw e (moved (Bool-cases (p a)) (Bool-cases (p b)) (insert_issue-perm p a bs))
  ]
    where
      moved :
          (p a ≡ true) ⊎ (p a ≡ false)
          → (p b ≡ true) ⊎ (p b ≡ false)
          → Perm (keep p (insert_issue a bs)) (keep p (a ∷ bs))
          → Perm (keep p (b ∷ insert_issue a bs)) (keep p (a ∷ b ∷ bs))
      moved (inl x) (inl y) h =
          rw (x, y) (Perm.trans (Perm.cons b (rw x at h)) (Perm.swap a b (keep p bs)))
      moved (inl x) (inr y) h = rw (x, y) (rw x at h)
      moved (inr x) (inl y) h = rw (x, y) (Perm.cons b (rw x at h))
      moved (inr x) (inr y) h = rw (x, y) (rw x at h)

  keep-Perm :
      (p : Issue fl → Bool) (a : Issue fl) (bs cs : List (Issue fl))
      → Perm (keep p bs) (keep p cs)
      → Perm (keep p (a ∷ bs)) (keep p (a ∷ cs))
  keep-Perm p a bs cs h = elim (Bool-cases (p a)) [ inl e ↦ rw e (Perm.cons a h) | inr e ↦ rw e h ]

  sort_issues-perm :
      (p : Issue fl → Bool) (issues : List (Issue fl))
      → Perm (keep p (sort_issues issues)) (keep p issues)
  unfolding sort_issues
  sort_issues-perm p [] = Perm.refl []
  sort_issues-perm p (a ∷ rest) =
      Perm.trans (insert_issue-perm p a (sort_issues rest))
        (keep-Perm p a (sort_issues rest) rest (sort_issues-perm p rest))

  upsert-AreSeverities :
      (out : List (Issue fl)) (new : Issue fl)
      → AreSeverities out
      → IsSeverity new.severity
      → AreSeverities (upsert out new)
  unfolding upsert
  upsert-AreSeverities [] new h n = (n, tt)
  upsert-AreSeverities (old ∷ out) new h n = elim (Bool-cases (bytes_eq old.id new.id)) [
    | inr e ↦ rw e (h.0, upsert-AreSeverities out new h.1 n)
    | inl e ↦ rw e (elim (Bool-cases (is_alert new && not (is_alert old))) [
      | inl j ↦ rw j (n, h.1)
      | inr j ↦ rw j (h.0, h.1)
    ])
  ]

  upsert_all-AreSeverities :
      (out issues : List (Issue fl))
      → AreSeverities out
      → AreSeverities issues
      → AreSeverities (upsert_all out issues)
  unfolding upsert_all
  upsert_all-AreSeverities out [] h n = h
  upsert_all-AreSeverities out (new ∷ rest) h n =
      upsert_all-AreSeverities (upsert out new) rest (upsert-AreSeverities out new h n.0) n.1

  -- The issues behind the first `n`.
  abbrev pub rest_of : ℕ → List (Issue fl) → List (Issue fl)
  rest_of zero issues = issues
  rest_of (suc n) [] = []
  rest_of (suc n) (a ∷ issues) = rest_of n issues

  take-rest_of : (n : ℕ) (issues : List (Issue fl)) → take n issues ++ rest_of n issues ≡ issues
  take-rest_of zero issues = refl
  take-rest_of (suc n) [] = refl
  take-rest_of (suc n) (a ∷ issues) = ap (◌∷◌ a) (take-rest_of n issues)

  -- A page of at most `n` of some issues: with the issues that it leaves out behind it, it is those
  -- issues in their order, and it leaves out none while there is room.
  pub record Shows (n : ℕ) (issues page : List (Issue fl)) : Type 0 where
    pub hidden : List (Issue fl)
    pub all_of : Perm (page ++ hidden) issues
    pub in_order : Ordered (page ++ hidden)
    pub bounded : length page ≤ n
    pub filled : 0 < length hidden → length page ≡ n

  abbrev cut : ℕ → List (Issue fl) → List (Issue fl)
  cut n issues = if ltb n (length issues) then take n issues else issues

  cut-Shows :
      (n : ℕ) (issues sorted : List (Issue fl))
      → Perm sorted issues
      → Ordered sorted
      → Shows n issues (cut n sorted)
  cut-Shows n issues sorted p o = elim (Bool-cases (ltb n (length sorted))) [
    | inl e ↦ rw e (record {
      hidden = rest_of n sorted;
      all_of = rw (take-rest_of n sorted) p;
      in_order = rw (take-rest_of n sorted) o;
      bounded = omega (arith, length-take n sorted);
      filled = λ h. ground (arith, length-take n sorted);
    })
    | inr e ↦ rw e (record {
      hidden = [];
      all_of = rw append-nil p;
      in_order = rw append-nil o;
      bounded = ground arith;
      filled = λ h. absurd (omega arith);
    })
  ]

  -- The issues with a wanted severity; none stands for every one.
  abbrev pub wanted : String → Issue fl → Bool
  wanted severity i = str_eq severity "" || str_eq i.severity severity

  keep_all :
      (p : Issue fl → Bool) (issues : List (Issue fl))
      → ((i : Issue fl) → p i ≡ true)
      → keep p issues ≡ issues
  keep_all p [] h = refl
  keep_all p (a ∷ rest) h = rw (h a) (ap (◌∷◌ a) (keep_all p rest h))

  keep_same :
      (p q : Issue fl → Bool) (issues : List (Issue fl))
      → ((i : Issue fl) → p i ≡ q i)
      → keep p issues ≡ keep q issues
  keep_same p q [] h = refl
  keep_same p q (a ∷ rest) h = rw (h a, keep_same p q rest h) refl

  filtered : String → List (Issue fl) → List (Issue fl)
  filtered severity issues =
      if str_eq severity "" then issues else keep (λ i. str_eq i.severity severity) issues

  filtered-wanted :
      (severity : String) (issues : List (Issue fl))
      → filtered severity issues ≡ keep (wanted severity) issues
  unfolding filtered
  filtered-wanted severity issues = elim (Bool-cases (str_eq severity "")) [
    | inl e ↦ rw e (sym (keep_all (wanted severity) issues (λ i. rw e refl)))
    | inr e ↦
        rw e (keep_same (λ i. str_eq i.severity severity) (wanted severity) issues (λ i. rw e refl))
  ]

  rank_issues-cut :
      (limit : ℤ) (severity : String) (detected alerts : List (Issue fl))
      → rank_issues limit severity detected alerts
        ≡ cut
            (page_limit limit)
            (keep (wanted severity) (sort_issues (upsert_all [] (detected ++ alerts))))
  unfolding rank_issues filtered
  rank_issues-cut limit severity detected alerts =
      ap (λ issues. cut (page_limit limit) (filtered severity (sort_issues issues)))
        (dedupe_issues-upsert_all (detected ++ alerts))
      ∙ ap (cut (page_limit limit))
          (filtered-wanted severity (sort_issues (upsert_all [] (detected ++ alerts))))

  -- For detected issues and alerts with known severities, the handler `issues` joins those with one
  -- identifier as `upsert_all` does, and shows the first of those with the severity asked for in the order
  -- of `Precedes`: no more than the limit, which is between 1 and 50, as many as that while some are left
  -- out, and none that is left out precedes one that is shown.
  pub rank_issues-Shows :
      (limit : ℤ) (severity : String) (detected alerts : List (Issue fl))
      → AreSeverities (detected ++ alerts)
      → Shows
          (page_limit limit)
          (keep (wanted severity) (upsert_all [] (detected ++ alerts)))
          (rank_issues limit severity detected alerts)
        × (1 ≤ page_limit limit)
        × (page_limit limit ≤ 50)
  rank_issues-Shows limit severity detected alerts s =
      let unique : List (Issue fl) = upsert_all [] (detected ++ alerts) in
      let known : AreSeverities unique = upsert_all-AreSeverities [] (detected ++ alerts) tt s in
      (
        rw (rank_issues-cut limit severity detected alerts) (
            cut-Shows (page_limit limit) (keep (wanted severity) unique)
              (keep (wanted severity) (sort_issues unique))
              (sort_issues-perm (wanted severity) unique)
              (Ordered-keep (wanted severity) (sort_issues unique)
                (IsRanked-Ordered (sort_issues unique) (sort_issues-IsRanked unique known)))),
        (unfold page_limit in ground arith),
        (unfold page_limit in ground arith),
      )
