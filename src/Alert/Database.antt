-- ===== src/Alert/Database.antt =====
-- internal/alert/store.go: the three tables and the statements of the source on them. A statement
-- that the database refuses changes nothing; SQLite itself is not modelled. The JSON of filters is
-- that of Alert/Rows; a column that holds the JSON of a context is the value that it encodes.
pub mod Rules
use ripestream.Base.{
  ℕ, ◌+◌, suc, Bool, true, false, not, ◌&&◌, List, [], ◌∷◌, ◌++◌, Option, none, some, String,
  str_eq, Bytes, if◌then◌else◌, keep, ◌⊎◌, inl, inr,
}
use ripestream.Base.Int.{ℤ, pos, eqb_ℤ}
use ripestream.Base.Float.{Float}
use ripestream.Base.Text.{bytes_eq}
use ripestream.Alert.Rule.{Rule, RuleError, validate}
use ripestream.Alert.Rows.{
  Json, RuleRow, find_rule, is_rule, scan_rule, inserted, created, update_rows, echoed,
}

-- A row of `alert_states`; `context` is nil or a value of the type `C` of cause contexts.
pub record State (fl : Float) (C : Type 0) : Type 0 where
  pub rule_id : ℤ
  pub status : String
  pub current_val : Float.F fl
  pub scope_key : Bytes
  pub last_eval_at : Bytes
  pub fired_at : Bytes
  pub context : Option C

-- A row of `alert_events` as `addEvent` writes it; `kind` is the column `type`.
pub record Event (fl : Float) (C : Type 0) : Type 0 where
  pub rule_id : ℤ
  pub kind : String
  pub scope_key : Bytes
  pub value : Float.F fl
  pub context : Option C
  pub ts : Bytes

-- The tables; `next_rule` is the identifier that AUTOINCREMENT gives next.
pub record Database (fl : Float) (C : Type 0) : Type 0 where
  pub rules : List (RuleRow fl)
  pub states : List (State fl C)
  pub events : List (Event fl C)
  pub next_rule : ℕ

pub data StoreError : Type 0 where
  refused : RuleError → StoreError
  rule_not_found : StoreError
  database : StoreError

module _ {fl : Float} {C : Type 0} where
  -- The row of a primary key.
  abbrev pub same_row : State fl C → ℤ → Bytes → Bool
  same_row st id key = eqb_ℤ st.rule_id id && bytes_eq st.scope_key key

  unfoldable pub find_state : ℤ → Bytes → List (State fl C) → Option (State fl C)
  find_state id key [] = none
  find_state id key (st ∷ sts) = if same_row st id key then some st else find_state id key sts

  unfoldable pub replace_row : List (State fl C) → State fl C → List (State fl C)
  replace_row [] st = st ∷ []
  replace_row (old ∷ sts) st =
      let rest = replace_row sts st in
      if same_row old st.rule_id st.scope_key then st ∷ sts else old ∷ rest

  -- `upsertState` and `addEvent`: the test says whether the database carries the statement out.
  abbrev pub upsert_state : Bool → Database fl C → State fl C → Database fl C
  upsert_state false db st = db
  upsert_state true db st = record {
    rules = db.rules;
    states = replace_row db.states st;
    events = db.events;
    next_rule = db.next_rule;
  }

  abbrev pub add_event : Bool → Database fl C → Event fl C → Database fl C
  add_event false db e = db
  add_event true db e = record {
    rules = db.rules;
    states = db.states;
    events = db.events ++ e ∷ [];
    next_rule = db.next_rule;
  }

  -- `ListStates`: the states of the rules that there are, in the order of ORDER BY, and
  -- `statesForRule`, whose error the caller drops.
  unfoldable pub states_for_rule :
      (List (State fl C) → List (State fl C)) → Bool → Database fl C → ℤ → List (State fl C)
  states_for_rule order_by false db id = []
  states_for_rule order_by true db id =
      keep (λ st. eqb_ℤ st.rule_id id)
        (order_by (keep (λ st. is_rule db.rules st.rule_id) db.states))

  abbrev with_rules : Database fl C → List (RuleRow fl) → ℕ → Database fl C
  with_rules db rules next = record {
    rules = rules;
    states = db.states;
    events = db.events;
    next_rule = next;
  }

  -- `CreateRule` at the time `now`.
  unfoldable pub create_rule :
      Json fl → Bool → Database fl C → Rule fl → Bytes → Database fl C × (StoreError ⊎ Rule fl)
  create_rule json works db r now = checked (validate r) works
    where
      checked : Option RuleError → Bool → Database fl C × (StoreError ⊎ Rule fl)
      checked (some e) works = (db, inl (refused e))
      checked none false = (db, inl database)
      checked none true = (
        with_rules db (db.rules ++ inserted json r db.next_rule now ∷ []) (suc db.next_rule),
        inr (created r db.next_rule now),
      )

  -- `GetRule`.
  unfoldable pub get_rule : Json fl → Bool → Database fl C → ℤ → StoreError ⊎ Rule fl
  get_rule json false db id = inl database
  get_rule json true db id = found (find_rule id db.rules)
    where
      found : Option (RuleRow fl) → StoreError ⊎ Rule fl
      found none = inl rule_not_found
      found (some row) = inr (scan_rule json row)

  -- `UpdateRule`: whether the UPDATE is carried out, and whether the SELECT after it is.
  unfoldable pub update_rule :
      Json fl
      → Bool
      → Bool
      → Database fl C
      → ℤ
      → Rule fl
      → Bytes
      → Database fl C × (StoreError ⊎ Rule fl)
  unfolding get_rule
  update_rule json works reads db id r now = checked (validate r) works
    where
      read_back : StoreError ⊎ Rule fl → Rule fl
      read_back (inl e) = echoed r id now
      read_back (inr found) = found

      checked : Option RuleError → Bool → Database fl C × (StoreError ⊎ Rule fl)
      checked (some e) works = (db, inl (refused e))
      checked none false = (db, inl database)
      checked none true =
          let next = with_rules db (update_rows json db.rules id r now) db.next_rule in
          (next, inr (read_back (get_rule json reads next id)))

  -- `DeleteRule`: three deletions in one transaction, so an error leaves the tables as they were.
  unfoldable pub delete_rule : Bool → Database fl C → ℤ → Database fl C
  delete_rule false db id = db
  delete_rule true db id = record {
    rules = keep (λ r. not (eqb_ℤ r.id id)) db.rules;
    states = keep (λ st. not (eqb_ℤ st.rule_id id)) db.states;
    events = keep (λ e. not (eqb_ℤ e.rule_id id)) db.events;
    next_rule = db.next_rule;
  }
