-- ===== src/Api/Issues/Sorted.antt =====
-- The sorted list of issues.
use ripestream.Base.{true, false, List, [], ◌∷◌, ◌≡◌, inl, inr, Bool-cases, All}
use ripestream.Base.Float.{Float}
use ripestream.Api.Issues.{Issue, issue_less, insert_issue, sort_issues}
use ripestream.Api.Issues.Rank.{IsSeverity, key, issue_less-key, key_less_negtrans, key_less_asym}

module _ {fl : Float} where
  abbrev pub AreSeverities : List (Issue fl) → Type 0
  AreSeverities = All (λ i. IsSeverity i.severity)

  -- No issue stands behind one that it should precede.
  abbrev pub IsRanked : List (Issue fl) → Type 0
  IsRanked [] = Unit {0}
  IsRanked (a ∷ rest) = All (λ b. issue_less b a ≡ false) rest × IsRanked rest

  pub All-insert_issue {κ} :
      (P : Issue fl → Type κ) (a : Issue fl) (bs : List (Issue fl))
      → P a
      → All P bs
      → All P (insert_issue a bs)
  unfolding insert_issue
  All-insert_issue P a [] p h = (p, tt)
  All-insert_issue P a (b ∷ bs) p h = elim (Bool-cases (issue_less b a)) [
    | inl e ↦ rw e (h.0, All-insert_issue P a bs p h.1)
    | inr e ↦ rw e (p, h)
  ]

  behind_one :
      (a b c : Issue fl)
      → IsSeverity a.severity
      → IsSeverity b.severity
      → IsSeverity c.severity
      → issue_less b a ≡ false
      → issue_less c b ≡ false
      → issue_less c a ≡ false
  behind_one a b c ha hb hc h k = rw (issue_less-key c a hc ha) (
      key_less_negtrans (key a) (key b) (key c) (rw (issue_less-key b a hb ha) at h)
        (rw (issue_less-key c b hc hb) at k))

  behind :
      (a b : Issue fl) (bs : List (Issue fl))
      → AreSeverities (a ∷ b ∷ bs)
      → issue_less b a ≡ false
      → All (λ c. issue_less c b ≡ false) bs
      → All (λ c. issue_less c a ≡ false) bs
  behind a b [] s e h = tt
  behind a b (c ∷ cs) s e h =
      (behind_one a b c s.0 s.1.0 s.1.1.0 e h.0, behind a b cs (s.0, (s.1.0, s.1.1.1)) e h.1)

  asym :
      (a b : Issue fl)
      → IsSeverity a.severity
      → IsSeverity b.severity
      → issue_less a b ≡ true
      → issue_less b a ≡ false
  asym a b ha hb h =
      rw (issue_less-key b a hb ha)
        (key_less_asym (key a) (key b) (rw (issue_less-key a b ha hb) at h))

  insert_issue-IsRanked :
      (a : Issue fl) (bs : List (Issue fl))
      → AreSeverities (a ∷ bs)
      → IsRanked bs
      → IsRanked (insert_issue a bs)
  unfolding insert_issue
  insert_issue-IsRanked a [] s r = (tt, tt)
  insert_issue-IsRanked a (b ∷ bs) s r = elim (Bool-cases (issue_less b a)) [
    | inl e ↦ rw e (
      All-insert_issue _ a bs (asym b a s.1.0 s.0 e) r.0,
      insert_issue-IsRanked a bs (s.0, s.1.1) r.1,
    )
    | inr e ↦ rw e ((e, behind a b bs s e r.0), r)
  ]

  pub sort_issues-AreSeverities :
      (issues : List (Issue fl)) → AreSeverities issues → AreSeverities (sort_issues issues)
  unfolding sort_issues
  sort_issues-AreSeverities [] s = tt
  sort_issues-AreSeverities (a ∷ rest) s =
      All-insert_issue _ a (sort_issues rest) s.0 (sort_issues-AreSeverities rest s.1)

  pub sort_issues-IsRanked :
      (issues : List (Issue fl)) → AreSeverities issues → IsRanked (sort_issues issues)
  unfolding sort_issues
  sort_issues-IsRanked [] s = tt
  sort_issues-IsRanked (a ∷ rest) s =
      insert_issue-IsRanked a (sort_issues rest) (s.0, sort_issues-AreSeverities rest s.1)
        (sort_issues-IsRanked rest s.1)
