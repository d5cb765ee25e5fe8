-- ===== src/Alert/Database/Rules.antt =====
-- Creating, reading back, updating and deleting rules.
use ripestream.Base.{
  suc, true, false, not, List, [], ◌∷◌, none, some, ◌≡◌, refl, inl, inr, Bytes, keep, arith, All,
  Bool-cases, All-append,
}
use ripestream.Base.Int.{ℤ, pos, eqb_ℤ, ◌<ℤ◌}
use ripestream.Base.Float.{Float}
use ripestream.Alert.Rule.{Rule, validate}
use ripestream.Alert.Database.{
  rule_not_found, State, Event, Database, find_state, create_rule, get_rule, update_rule,
  delete_rule,
}
use ripestream.Alert.Rows.{Json, RuleRow, find_rule, inserted, created}
use ripestream.Alert.Rows.Lookup.{
  find_rule-append, find_rule-append_other, scan_rule-inserted, inserted-id, inserted-other,
  inserted-below, scan_rule-updated, find_rule-update_rows, find_rule-update_other, find_rule-keep,
  find_rule-none, below-next, below-suc, find_rule-id,
}

keep-forgets :
    (A : Type 0) (f : A → ℤ) (id : ℤ) (xs : List A)
    → All (λ x. eqb_ℤ (f x) id ≡ false) (keep (λ x. not (eqb_ℤ (f x) id)) xs)
keep-forgets A f id [] = tt
keep-forgets A f id (x ∷ xs) = elim (Bool-cases (eqb_ℤ (f x) id)) [
  | inl e ↦ rw e (keep-forgets A f id xs)
  | inr e ↦ rw e (e, keep-forgets A f id xs)
]

-- The invariant of AUTOINCREMENT: every identifier is below the next one.
abbrev pub IsFresh : {fl : Float} {C : Type 0} → Database fl C → Type 0
IsFresh db = All (λ r. r.id <ℤ pos db.next_rule) db.rules

module _ {fl : Float} {C : Type 0} (json : Json fl) where
  -- If every identifier is below the next one, and JSON gives the filters of a valid rule back, then
  -- `CreateRule`, when the database carries it out, returns the rule with the next identifier and the
  -- time in both its time fields, reading it by that identifier gives the same, the rules with other
  -- identifiers are as they were, and every identifier is below the next one again.
  pub get_rule-create_rule :
      (db : Database fl C) (r : Rule fl) (now : Bytes)
      → IsFresh db
      → validate r ≡ none
      → Json.unmarshal json (Json.marshal json r.filters) ≡ r.filters
      → let id = pos db.next_rule in
        let stored = record r { id = id; created_at = now; updated_at = now } in
        let done = create_rule json true db r now in
        (done.1 ≡ inr stored)
        × (get_rule json true done.0 id ≡ inr stored)
        × ((j : ℤ) → eqb_ℤ j id ≡ false → get_rule json true done.0 j ≡ get_rule json true db j)
        × IsFresh done.0
  unfolding create_rule get_rule created
  get_rule-create_rule db r now f v e =
      let row : RuleRow fl = inserted json r db.next_rule now in
      rw v (
        refl,
        rw
            (
              find_rule-append db.rules row (pos db.next_rule) (below-next db.next_rule db.rules f)
                  (inserted-id json r db.next_rule now),
              scan_rule-inserted json r db.next_rule now e,
            )
            refl,
        λ j n.
            rw (find_rule-append_other db.rules row j (inserted-other json r db.next_rule now j n))
              refl,
        All-append (λ x. x.id <ℤ pos (suc db.next_rule)) db.rules _
            (below-suc db.next_rule db.rules f) (inserted-below json r db.next_rule now, tt),
      )

  -- If JSON gives the filters of a valid rule back, then `UpdateRule` of a rule that is stored, when the
  -- database carries the statements out, returns the new rule with the identifier and the creation time
  -- of the old one and the time of the update, reading it gives the same, and the rules with other
  -- identifiers are as they were.
  pub update_rule-get_rule :
      (db : Database fl C) (id : ℤ) (r : Rule fl) (old : RuleRow fl) (now : Bytes)
      → find_rule id db.rules ≡ some old
      → validate r ≡ none
      → Json.unmarshal json (Json.marshal json r.filters) ≡ r.filters
      → let stored = record r { id = id; created_at = old.created_at; updated_at = now } in
        let done = update_rule json true true db id r now in
        (done.1 ≡ inr stored)
        × (get_rule json true done.0 id ≡ inr stored)
        × ((j : ℤ) → eqb_ℤ j id ≡ false → get_rule json true done.0 j ≡ get_rule json true db j)
  unfolding update_rule get_rule
  update_rule-get_rule db id r old now h v e =
      rw
        (
          v,
          find_rule-update_rows json db.rules id r now old h,
          scan_rule-updated json r old now e,
          find_rule-id db.rules id old h,
        )
        (refl, refl, λ j n. rw (find_rule-update_other json db.rules id j r now n) refl)

  find_state-keep :
      (sts : List (State fl C)) (id j : ℤ) (key : Bytes)
      → eqb_ℤ j id ≡ false
      → find_state j key (keep (λ st. not (eqb_ℤ st.rule_id id)) sts) ≡ find_state j key sts
  unfolding find_state
  find_state-keep [] id j key n = refl
  find_state-keep (st ∷ sts) id j key n = ground (arith, find_state-keep sts id j key n)

  delete_rule-forgets :
      (db : Database fl C) (id : ℤ)
      → let after = delete_rule true db id in
        (get_rule json true after id ≡ inl rule_not_found)
        × All (λ st. eqb_ℤ st.rule_id id ≡ false) after.states
        × All (λ e. eqb_ℤ e.rule_id id ≡ false) after.events
  unfolding delete_rule get_rule
  delete_rule-forgets db id = (
    rw (find_rule-none _ id (keep-forgets (RuleRow fl) (λ r. r.id) id db.rules)) refl,
    keep-forgets (State fl C) (λ st. st.rule_id) id db.states,
    keep-forgets (Event fl C) (λ e. e.rule_id) id db.events,
  )

  delete_rule-keeps :
      (db : Database fl C) (id j : ℤ) (key : Bytes)
      → eqb_ℤ j id ≡ false
      → (get_rule json true (delete_rule true db id) j ≡ get_rule json true db j)
        × (find_state j key (delete_rule true db id).states ≡ find_state j key db.states)
  unfolding delete_rule get_rule
  delete_rule-keeps db id j key n =
      (rw (find_rule-keep db.rules id j n) refl, find_state-keep db.states id j key n)

  -- After a `DeleteRule` that the database carries out, the rule is not found and no state or event of it
  -- is left, while every rule with another identifier and its states are as they were.
  pub delete_rule-deletes :
      (db : Database fl C) (id : ℤ)
      → let after = delete_rule true db id in
        (get_rule json true after id ≡ inl rule_not_found)
        × All (λ st. eqb_ℤ st.rule_id id ≡ false) after.states
        × All (λ e. eqb_ℤ e.rule_id id ≡ false) after.events
        × ((j : ℤ) (key : Bytes)
            → eqb_ℤ j id ≡ false
            → (get_rule json true after j ≡ get_rule json true db j)
              × (find_state j key after.states ≡ find_state j key db.states))
  delete_rule-deletes db id =
      let gone = delete_rule-forgets db id in
      (gone.0, gone.1, gone.2, λ j key n. delete_rule-keeps db id j key n)
