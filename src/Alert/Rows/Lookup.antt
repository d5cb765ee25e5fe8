-- ===== src/Alert/Rows/Lookup.antt =====
-- What is found among the rows of rules after an INSERT, an UPDATE or a DELETE, and what is read from it.
use ripestream.Base.{
  sym, ◌∙◌, ℕ, suc, if◌then◌else◌, Bool, true, false, not, List, [], ◌∷◌, ◌++◌, none, some, ◌≡◌,
  refl, inl, inr, Bytes, keep, ap, arith, All, Bool-cases,
}
use ripestream.Base.Int.{ℤ, pos, eqb_ℤ, ◌<ℤ◌}
use ripestream.Base.Float.{Float}
use ripestream.Alert.Rule.{Rule}
use ripestream.Alert.Rows.{
  Json, RuleRow, bool_to_int, find_rule, scan_rule, inserted, updated, update_rows,
}

same_id : (x id : ℤ) → eqb_ℤ x id ≡ true → x ≡ id
same_id x id e = grind arith

bool_to_int-not : (b : Bool) → not (eqb_ℤ (bool_to_int b) (pos 0)) ≡ b
bool_to_int-not true = refl
bool_to_int-not false = refl

module _ {fl : Float} where
  pub find_rule-append :
      (rs : List (RuleRow fl)) (r : RuleRow fl) (id : ℤ)
      → All (λ old. eqb_ℤ old.id id ≡ false) rs
      → eqb_ℤ r.id id ≡ true
      → find_rule id (rs ++ r ∷ []) ≡ some r
  find_rule-append [] r id h e = rw e refl
  find_rule-append (old ∷ rs) r id h e = rw h.0 (find_rule-append rs r id h.1 e)

  pub find_rule-append_other :
      (rs : List (RuleRow fl)) (r : RuleRow fl) (id : ℤ)
      → eqb_ℤ r.id id ≡ false
      → find_rule id (rs ++ r ∷ []) ≡ find_rule id rs
  find_rule-append_other [] r id e = rw e refl
  find_rule-append_other (old ∷ rs) r id e =
      ap (λ o. if eqb_ℤ old.id id then some old else o) (find_rule-append_other rs r id e)

  module _ (json : Json fl) where
    -- A rule whose filters come back from their JSON comes back from its row.
    pub scan_rule-inserted :
        (r : Rule fl) (id : ℕ) (now : Bytes)
        → Json.unmarshal json (Json.marshal json r.filters) ≡ r.filters
        → scan_rule json (inserted json r id now)
          ≡ record r { id = pos id; created_at = now; updated_at = now }
    unfolding scan_rule inserted
    scan_rule-inserted r id now e = rw (e, bool_to_int-not r.enabled) refl

    pub inserted-id :
        (r : Rule fl) (id : ℕ) (now : Bytes) → eqb_ℤ (inserted json r id now).id (pos id) ≡ true
    unfolding inserted
    inserted-id r id now = ground arith

    pub inserted-other :
        (r : Rule fl) (id : ℕ) (now : Bytes) (j : ℤ)
        → eqb_ℤ j (pos id) ≡ false
        → eqb_ℤ (inserted json r id now).id j ≡ false
    unfolding inserted
    inserted-other r id now j n = ground arith

    pub inserted-below :
        (r : Rule fl) (id : ℕ) (now : Bytes) → (inserted json r id now).id <ℤ pos (suc id)
    unfolding inserted
    inserted-below r id now = ground arith

    pub scan_rule-updated :
        (r : Rule fl) (old : RuleRow fl) (now : Bytes)
        → Json.unmarshal json (Json.marshal json r.filters) ≡ r.filters
        → scan_rule json (updated json old r now)
          ≡ record r { id = old.id; created_at = old.created_at; updated_at = now }
    unfolding scan_rule updated
    scan_rule-updated r old now e = rw (e, bool_to_int-not r.enabled) refl

    pub find_rule-update_rows :
        (rs : List (RuleRow fl)) (id : ℤ) (r : Rule fl) (now : Bytes) (old : RuleRow fl)
        → find_rule id rs ≡ some old
        → find_rule id (update_rows json rs id r now) ≡ some (updated json old r now)
    unfolding update_rows updated
    find_rule-update_rows [] id r now old h = ground arith
    find_rule-update_rows (x ∷ rs) id r now old h = elim (Bool-cases (eqb_ℤ x.id id)) [
      | inl e ↦
          let same : x ≡ old = ground arith in
          rw (e, e) (ap (λ o. some (updated json o r now)) same)
      | inr e ↦ rw (e, e) (find_rule-update_rows rs id r now old (rw e at h))
    ]

    pub find_rule-update_other :
        (rs : List (RuleRow fl)) (id j : ℤ) (r : Rule fl) (now : Bytes)
        → eqb_ℤ j id ≡ false
        → find_rule j (update_rows json rs id r now) ≡ find_rule j rs
    unfolding update_rows updated
    find_rule-update_other [] id j r now n = refl
    find_rule-update_other (x ∷ rs) id j r now n = elim (Bool-cases (eqb_ℤ x.id id)) [
      | inl e ↦
          let other : eqb_ℤ x.id j ≡ false = ground arith in
          rw (e, other) (find_rule-update_other rs id j r now n)
      | inr e ↦
          rw e
            (ap (λ o. if eqb_ℤ x.id j then some x else o) (find_rule-update_other rs id j r now n))
    ]

  pub find_rule-keep :
      (rs : List (RuleRow fl)) (id j : ℤ)
      → eqb_ℤ j id ≡ false
      → find_rule j (keep (λ r. not (eqb_ℤ r.id id)) rs) ≡ find_rule j rs
  find_rule-keep [] id j n = refl
  find_rule-keep (r ∷ rs) id j n = ground (arith, find_rule-keep rs id j n)

  pub find_rule-none :
      (rs : List (RuleRow fl)) (id : ℤ)
      → All (λ r. eqb_ℤ r.id id ≡ false) rs
      → find_rule id rs ≡ none
  find_rule-none [] id h = refl
  find_rule-none (r ∷ rs) id h = rw h.0 (find_rule-none rs id h.1)

  pub below-next :
      (n : ℕ) (rs : List (RuleRow fl))
      → All (λ r. r.id <ℤ pos n) rs
      → All (λ r. eqb_ℤ r.id (pos n) ≡ false) rs
  below-next n [] h = tt
  below-next n (r ∷ rs) h = (ground arith, below-next n rs h.1)

  pub below-suc :
      (n : ℕ) (rs : List (RuleRow fl))
      → All (λ r. r.id <ℤ pos n) rs
      → All (λ r. r.id <ℤ pos (suc n)) rs
  below-suc n [] h = tt
  below-suc n (r ∷ rs) h = (ground arith, below-suc n rs h.1)

  pub find_rule-id :
      (rs : List (RuleRow fl)) (id : ℤ) (old : RuleRow fl)
      → find_rule id rs ≡ some old
      → old.id ≡ id
  find_rule-id [] id old h = ground arith
  find_rule-id (x ∷ rs) id old h = elim (Bool-cases (eqb_ℤ x.id id)) [
    | inl e ↦ let same : x ≡ old = ground arith in ap (λ r. r.id) (sym same) ∙ same_id x.id id e
    | inr e ↦ find_rule-id rs id old (rw e at h)
  ]
