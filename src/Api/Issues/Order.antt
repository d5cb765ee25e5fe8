-- ===== src/Api/Issues/Order.antt =====
-- The order in which the handler `issues` shows issues.
use ripestream.Base.{
  Bool, true, false, not, ◌&&◌, List, [], ◌∷◌, ◌≡◌, refl, sym, ◌∙◌, ◌⊎◌, inl, inr, String, str_eq,
  eq_iff, if◌then◌else◌, arith, All,
}
use mathlib.Core.Bool.{false≢true}
use ripestream.Base.Int.{◌<ℤ◌}
use ripestream.Base.Float.{Float}
use ripestream.Base.Text.{ltb_bytes}
use ripestream.Api.Issues.{Issue, issue_less, sev_rank}
use ripestream.Api.Issues.Sorted.{IsRanked}

abbrev pub MoreUrgent : String → String → Type 0
MoreUrgent s t =
    ((s ≡ "critical") × ((t ≡ "high") ⊎ (t ≡ "watch"))) ⊎ ((s ≡ "high") × (t ≡ "watch"))

same_text : {s t : String} → s ≡ t → str_eq s t ≡ true
same_text {s} {t} e = (eq_iff s t).1 e

same_source :
    (x y r : Bool)
    → x ≡ y
    → {q : Bool} → q ≡ r
    → (if x && not y then true else if not x && y then false else q) ≡ r
same_source true true r e h = h
same_source true false r e h = ground arith
same_source false true r e h = ground arith
same_source false false r e h = h

module _ {fl : Float} where
  -- Both are alerts, or neither is.
  abbrev pub SameSource : Issue fl → Issue fl → Type 0
  SameSource a b = str_eq a.source "alert" ≡ str_eq b.source "alert"

  -- The order in which issues are shown: alerts first, then by severity, by samples, by the time last
  -- seen, and by identifier.
  pub data Precedes (a b : Issue fl) : Type 0 where
    as_alert : str_eq a.source "alert" ≡ true → str_eq b.source "alert" ≡ false → Precedes a b
    by_severity : SameSource a b → MoreUrgent a.severity b.severity → Precedes a b
    by_samples :
        SameSource a b → a.severity ≡ b.severity → b.sample_count <ℤ a.sample_count → Precedes a b
    by_time :
        SameSource a b
        → a.severity ≡ b.severity
        → a.sample_count ≡ b.sample_count
        → b.last_seen <ℤ a.last_seen
        → Precedes a b
    by_id :
        SameSource a b
        → a.severity ≡ b.severity
        → a.sample_count ≡ b.sample_count
        → a.last_seen ≡ b.last_seen
        → ltb_bytes a.id b.id ≡ true
        → Precedes a b

  issue_less-Precedes : (a b : Issue fl) → Precedes a b → issue_less a b ≡ true
  unfolding issue_less sev_rank
  issue_less-Precedes a b (as_alert x y) = rw (x, y) refl
  issue_less-Precedes a b (by_severity x (inl (s, inl t))) = same_source _ _ true x (rw (s, t) refl)
  issue_less-Precedes a b (by_severity x (inl (s, inr t))) = same_source _ _ true x (rw (s, t) refl)
  issue_less-Precedes a b (by_severity x (inr (s, t))) = same_source _ _ true x (rw (s, t) refl)
  issue_less-Precedes a b (by_samples x s n) =
      same_source _ _ true x (rw (same_text s) (ground arith))
  issue_less-Precedes a b (by_time x s n t) =
      same_source _ _ true x (rw (same_text s) (ground arith))
  issue_less-Precedes a b (by_id x s n t i) =
      same_source _ _ true x (rw (same_text s) (ground arith))

  -- No issue stands behind one that it precedes.
  abbrev pub Ordered : List (Issue fl) → Type 0
  Ordered [] = Unit
  Ordered (a ∷ rest) = All (λ b. ¬ Precedes b a) rest × Ordered rest

  IsRanked-first :
      (a : Issue fl) (bs : List (Issue fl))
      → All (λ b. issue_less b a ≡ false) bs
      → All (λ b. ¬ Precedes b a) bs
  IsRanked-first a [] h = tt
  IsRanked-first a (b ∷ bs) h =
      (λ p. false≢true (sym h.0 ∙ issue_less-Precedes b a p), IsRanked-first a bs h.1)

  pub IsRanked-Ordered : (issues : List (Issue fl)) → IsRanked issues → Ordered issues
  IsRanked-Ordered [] h = tt
  IsRanked-Ordered (a ∷ rest) h = (IsRanked-first a rest h.0, IsRanked-Ordered rest h.1)
