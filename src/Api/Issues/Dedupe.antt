-- ===== src/Api/Issues/Dedupe.antt =====
-- `dedupeIssues` against a plain description: the issues by identifier, in order of appearance.
use ripestream.Base.{
  ℕ, suc, true, not, ◌&&◌, List, [], ◌∷◌, ◌++◌, ◌≡◌, refl, inl, inr, Option, none, some, Bytes,
  if◌then◌else◌, arith, Bool-cases, sym, ◌∙◌, length, ap, Option-cases,
}
use mathlib.Core.Option
use ripestream.Base.Float.{Float}
use ripestream.Base.Text.{bytes_eq, bytes_eq_iff}
use ripestream.Api.Issues.{Issue, is_alert, find_index, prefer_alert, dedupe_loop, dedupe_issues}

module _ {fl : Float} where
  -- The reference: each issue joins the one with its identifier, or the end of the list.
  abbrev pub join : Issue fl → Issue fl → Issue fl
  join old new = if is_alert new && not (is_alert old) then new else old

  unfoldable pub upsert : List (Issue fl) → Issue fl → List (Issue fl)
  upsert [] new = new ∷ []
  upsert (old ∷ out) new =
      if bytes_eq old.id new.id then join old new ∷ out else old ∷ upsert out new

  unfoldable pub upsert_all : List (Issue fl) → List (Issue fl) → List (Issue fl)
  unfolding upsert
  upsert_all out [] = out
  upsert_all out (iss ∷ rest) = upsert_all (upsert out iss) rest

  -- Where an identifier stands in a list.
  abbrev position : Bytes → List (Issue fl) → Option ℕ
  position k [] = none
  position k (o ∷ out) = if bytes_eq o.id k then some 0 else Option.map suc (position k out)

  -- The map of the code knows the identifiers of the list.
  abbrev Knows : List (Bytes × ℕ) → List (Issue fl) → Type 0
  Knows seen out = (k : Bytes) → find_index k seen ≡ position k out

  -- What one issue does to the list, when its position is known.
  abbrev place : Option ℕ → List (Issue fl) → Issue fl → List (Issue fl)
  place none out iss = out ++ iss ∷ []
  place (some i) out iss = prefer_alert out i iss

  prefer_alert-suc :
      (o : Issue fl) (out : List (Issue fl)) (i : ℕ) (iss : Issue fl)
      → prefer_alert (o ∷ out) (suc i) iss ≡ o ∷ prefer_alert out i iss
  unfolding prefer_alert
  prefer_alert-suc o out i iss = ground arith

  place-suc :
      (o : Issue fl) (out : List (Issue fl)) (p : Option ℕ) (iss : Issue fl)
      → place (Option.map suc p) (o ∷ out) iss ≡ o ∷ place p out iss
  place-suc o out none iss = refl
  place-suc o out (some i) iss = prefer_alert-suc o out i iss

  place-upsert :
      (out : List (Issue fl)) (iss : Issue fl)
      → place (position iss.id out) out iss ≡ upsert out iss
  unfolding upsert
  place-upsert [] iss = refl
  place-upsert (o ∷ out) iss = elim (Bool-cases (bytes_eq o.id iss.id)) [
    | inl e ↦ rw e (unfold prefer_alert in ground arith)
    | inr e ↦ rw e (place-suc o out (position iss.id out) iss ∙ ap (◌∷◌ o) (place-upsert out iss))
  ]

  id-join : (o iss : Issue fl) → bytes_eq o.id iss.id ≡ true → (join o iss).id ≡ o.id
  id-join o iss h = ground (arith, bytes_eq_iff o.id iss.id)

  -- The positions after an upsert.
  position-upsert_old :
      (out : List (Issue fl)) (iss : Issue fl) (k : Bytes) (i : ℕ)
      → position iss.id out ≡ some i
      → position k (upsert out iss) ≡ position k out
  unfolding upsert
  position-upsert_old [] iss k i h = cc
  position-upsert_old (o ∷ out) iss k i h = elim (Bool-cases (bytes_eq o.id iss.id)) [
    | inl e ↦ rw (e, id-join o iss e)
    | inr e ↦ elim (Option-cases (position iss.id out)) [
      | inl absent ↦ ground arith
      | inr (j, found) ↦ rw (e, position-upsert_old out iss k j found)
    ]
  ]

  position-upsert_new :
      (out : List (Issue fl)) (iss : Issue fl) (k : Bytes)
      → position iss.id out ≡ none
      → position k (upsert out iss)
        ≡ (if bytes_eq iss.id k then some (length out) else position k out)
  unfolding upsert
  position-upsert_new [] iss k h = refl
  position-upsert_new (o ∷ out) iss k h = elim (Option-cases (position iss.id out)) [
    | inl absent ↦ ground (
      arith,
      position-upsert_new out iss k absent,
      bytes_eq_iff o.id iss.id,
      bytes_eq_iff o.id k,
      bytes_eq_iff iss.id k,
    )
    | inr (j, found) ↦ ground arith
  ]

  Knows-old :
      (seen : List (Bytes × ℕ)) (out : List (Issue fl)) (iss : Issue fl) (i : ℕ)
      → Knows seen out
      → find_index iss.id seen ≡ some i
      → Knows seen (upsert out iss)
  Knows-old seen out iss i h e k = h k ∙ sym (position-upsert_old out iss k i (sym (h iss.id) ∙ e))

  Knows-new :
      (seen : List (Bytes × ℕ)) (out : List (Issue fl)) (iss : Issue fl)
      → Knows seen out
      → find_index iss.id seen ≡ none
      → Knows ((iss.id, length out) ∷ seen) (upsert out iss)
  Knows-new seen out iss h e k = rw (h k, position-upsert_new out iss k (sym (h iss.id) ∙ e))

  dedupe_loop-upsert_all :
      (seen : List (Bytes × ℕ)) (out issues : List (Issue fl))
      → Knows seen out
      → dedupe_loop seen out issues ≡ upsert_all out issues
  unfolding dedupe_loop upsert_all
  dedupe_loop-upsert_all seen out [] h = refl
  dedupe_loop-upsert_all seen out (iss ∷ rest) h = elim (Option-cases (find_index iss.id seen)) [
    | inl e ↦
        rw (e, dedupe_loop)
          (let step : out ++ iss ∷ [] ≡ upsert out iss =
              rw (← place-upsert out iss) (rw (← h iss.id, e)) in
            rw step (
              dedupe_loop-upsert_all ((iss.id, length out) ∷ seen) (upsert out iss) rest
                (Knows-new seen out iss h e)))
    | inr (i, e) ↦
        rw (e, dedupe_loop)
          (let step : prefer_alert out i iss ≡ upsert out iss =
              rw (← place-upsert out iss) (rw (← h iss.id, e)) in
            rw step
              (dedupe_loop-upsert_all seen (upsert out iss) rest (Knows-old seen out iss i h e)))
  ]

  -- Deduplicating with the map from identifiers to places gives what joining each issue to the
  -- one of its identifier, or to the end of the list, gives: issues keep the order in which
  -- their identifiers first appear, and an alert takes the place of an issue that is none.
  pub dedupe_issues-upsert_all :
      (issues : List (Issue fl)) → dedupe_issues issues ≡ upsert_all [] issues
  unfolding dedupe_issues
  dedupe_issues-upsert_all issues = dedupe_loop-upsert_all [] [] issues (λ k. refl)
