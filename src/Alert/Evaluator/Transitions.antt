-- ===== src/Alert/Evaluator/Transitions.antt =====
-- What one evaluation of a rule leaves in the table of states and adds to the events.
use ripestream.Base.{
  Bool, true, false, not, ◌&&◌, List, [], ◌∷◌, Option, none, some, String, Bytes, if◌then◌else◌,
  ◌≡◌, refl, ◌∙◌, inl, inr, Bool-cases,
}
use ripestream.Base.Assoc.{Dict, lookup, keys, is_some, member-keys}
use ripestream.Base.Float.{Float}
use ripestream.Base.Text.{bytes_eq, bytes_eq_iff, bytes_eq_refl}
use ripestream.Alert.Rule.{Rule}
use ripestream.Alert.Database.{State, Database, find_state, add_event}
use ripestream.Alert.Evaluator.{
  ScopeRow, Reading, is_firing, firing_map, prior_map, firing_state, carried_fired_at, value_of,
  fired_event, ok_state, resolved_event, fire, fire_key, resolve_key, resolves, each, evaluate_rows,
}
use ripestream.Alert.Evaluator.Scopes.{
  or_else, was_some, or_else_right, get_or, get_or_if, if-get_or, Visits, latest, status_before,
  lookup-firing_map, lookup-prior_map, find_state-each, states-add_event, find_state-upsert_state,
}

module _ {fl : Float} {C : Type 0} where
  -- What the two loops write for a scope.
  abbrev fired_target :
      Rule fl → Reading fl C → Bool → Bytes → Option (ScopeRow fl C) → Option (State fl C)
  fired_target r e was k none = none
  fired_target r e was k (some row) =
      if e.state_ok k then some (firing_state r e was row k) else none

  abbrev ok_target : Rule fl → Reading fl C → Bool → Bytes → Option (State fl C)
  ok_target r e false k = none
  ok_target r e true k = if e.state_ok k then some (ok_state r e k) else none

  states-fire :
      (r : Rule fl) (e : Reading fl C) (was : Bool) (db : Database fl C) (j k : Bytes)
      (row : ScopeRow fl C)
      → find_state r.id k (fire r e was db j row).states ≡ (
          if bytes_eq j k
          then or_else (fired_target r e was j (some row)) (find_state r.id k db.states)
          else find_state r.id k db.states)
  unfolding fire
  states-fire r e true db j k row =
      find_state-upsert_state (e.state_ok j) db (firing_state r e true row j) k
  states-fire r e false db j k row =
      find_state-upsert_state (e.state_ok j) (add_event (e.event_ok j) db (fired_event r e row j))
        (firing_state r e false row j) k
      ∙ rw (states-add_event (e.event_ok j) db (fired_event r e row j)) refl

  -- A round of the first loop.
  states-fire_key :
      (r : Rule fl) (e : Reading fl C) (firing : Dict (ScopeRow fl C)) (prior : Dict String)
      (db : Database fl C) (j k : Bytes)
      → find_state r.id k (fire_key r e firing prior db j).states ≡ (
          if bytes_eq j k
          then or_else
              (fired_target r e (is_firing (lookup k prior)) k (lookup k firing))
              (find_state r.id k db.states)
          else find_state r.id k db.states)
  unfolding fire_key
  states-fire_key r e firing prior db j k = elim (Bool-cases (bytes_eq j k)) [
    | inl h ↦ rw h (rw (← (bytes_eq_iff j k).0 h) (same (lookup j firing) refl))
    | inr h ↦ rw h (other (lookup j firing) refl h)
  ]
    where
      same :
          (o : Option (ScopeRow fl C))
          → lookup j firing ≡ o
          → find_state r.id j (fire_key r e firing prior db j).states
            ≡ or_else
                (fired_target r e (is_firing (lookup j prior)) j (lookup j firing))
                (find_state r.id j db.states)
      same none p = rw p refl
      same (some row) p =
          rw (p, states-fire r e (is_firing (lookup j prior)) db j j row, bytes_eq_refl j) refl

      other :
          (o : Option (ScopeRow fl C))
          → lookup j firing ≡ o
          → bytes_eq j k ≡ false
          → find_state r.id k (fire_key r e firing prior db j).states ≡ find_state r.id k db.states
      other none p h = rw p refl
      other (some row) p h = rw (p, states-fire r e (is_firing (lookup j prior)) db j k row, h) refl

  -- A round of the second loop.
  states-resolve_key :
      (r : Rule fl) (e : Reading fl C) (firing : Dict (ScopeRow fl C)) (prior : Dict String)
      (db : Database fl C) (j k : Bytes)
      → find_state r.id k (resolve_key r e firing prior db j).states ≡ (
          if bytes_eq j k
          then or_else (ok_target r e (resolves firing prior k) k) (find_state r.id k db.states)
          else find_state r.id k db.states)
  unfolding resolve_key
  states-resolve_key r e firing prior db j k = elim (Bool-cases (bytes_eq j k)) [
    | inl h ↦ rw h (rw (← (bytes_eq_iff j k).0 h) (same (resolves firing prior j) refl))
    | inr h ↦ rw h (other (resolves firing prior j) refl h)
  ]
    where
      after : Database fl C
      after = add_event (e.event_ok j) db (resolved_event r e j)

      kept : after.states ≡ db.states
      kept = states-add_event (e.event_ok j) db (resolved_event r e j)

      same :
          (b : Bool)
          → resolves firing prior j ≡ b
          → find_state r.id j (resolve_key r e firing prior db j).states
            ≡ or_else (ok_target r e (resolves firing prior j) j) (find_state r.id j db.states)
      same true p =
          rw
            (
              p,
              find_state-upsert_state (e.state_ok j) after (ok_state r e j) j,
              bytes_eq_refl j,
              kept,
            )
            refl
      same false p = rw p refl

      other :
          (b : Bool)
          → resolves firing prior j ≡ b
          → bytes_eq j k ≡ false
          → find_state r.id k (resolve_key r e firing prior db j).states
            ≡ find_state r.id k db.states
      other true p h =
          rw (p, find_state-upsert_state (e.state_ok j) after (ok_state r e j) k, h, kept) refl
      other false p h = rw p refl

  -- The time at which the last stored state of a scope fired.
  abbrev pub fired_before : Bytes → List (State fl C) → Option Bytes
  fired_before key [] = none
  fired_before key (st ∷ sts) =
      or_else (fired_before key sts) (if bytes_eq st.scope_key key then some st.fired_at else none)

  -- The value of the first row of a scope.
  abbrev pub first_value : Bytes → List (ScopeRow fl C) → Option (Float.F fl)
  first_value key [] = none
  first_value key (row ∷ rows) =
      or_else (if bytes_eq row.scope_key key then some row.value else none) (first_value key rows)

  carried_fired_at-fired_before :
      (key at : Bytes) (sts : List (State fl C))
      → carried_fired_at key at sts ≡ get_or at (fired_before key sts)
  unfolding carried_fired_at
  carried_fired_at-fired_before key at [] = refl
  carried_fired_at-fired_before key at (st ∷ sts) =
      carried_fired_at-fired_before key (if bytes_eq st.scope_key key then st.fired_at else at) sts
      ∙ get_or_if at st.fired_at (bytes_eq st.scope_key key) (fired_before key sts)

  value_of-first_value :
      (key : Bytes) (rows : List (ScopeRow fl C))
      → value_of key rows ≡ get_or (Float.of_nat fl 0) (first_value key rows)
  unfolding value_of
  value_of-first_value key [] = refl
  value_of-first_value key (row ∷ rows) =
      rw (value_of-first_value key rows) (
        if-get_or (Float.of_nat fl 0) row.value (bytes_eq row.scope_key key) (first_value key rows))

  -- The state that a scope is left with, from its latest row that fires, whether it fired before,
  -- and the stored state.
  abbrev pub outcome :
      Rule fl
      → Reading fl C
      → Bytes
      → Option (ScopeRow fl C)
      → Bool
      → Option (State fl C)
      → Option (State fl C)
  outcome r e key (some row) was old = some (record {
    rule_id = r.id;
    status = "firing";
    current_val = row.value;
    scope_key = key;
    last_eval_at = e.now;
    fired_at = if was then get_or [] (fired_before key e.existing) else e.now;
    context = row.context;
  })
  outcome r e key none true old = some (record {
    rule_id = r.id;
    status = "ok";
    current_val = get_or (Float.of_nat fl 0) (first_value key e.rows);
    scope_key = key;
    last_eval_at = e.now;
    fired_at = [];
    context = none;
  })
  outcome r e key none false old = old

  outcome_lem :
      (r : Rule fl) (e : Reading fl C) (k : Bytes) (row : Option (ScopeRow fl C)) (was p : Bool)
      (old : Option (State fl C))
      → e.state_ok k ≡ true
      → (was ≡ true → p ≡ true)
      → (if p
          then or_else
              (ok_target r e (was && not (is_some row)) k)
              (if is_some row then or_else (fired_target r e was k row) old else old)
          else (if is_some row then or_else (fired_target r e was k row) old else old))
        ≡ outcome r e k row was old
  outcome_lem r e k none true p old ok h = rw (h refl, ok, value_of-first_value k e.rows) refl
  outcome_lem r e k none false true old ok h = refl
  outcome_lem r e k none false false old ok h = refl
  outcome_lem r e k (some row) true true old ok h =
      rw (ok, carried_fired_at-fired_before k [] e.existing) refl
  outcome_lem r e k (some row) true false old ok h =
      rw (ok, carried_fired_at-fired_before k [] e.existing) refl
  outcome_lem r e k (some row) false true old ok h = rw ok refl
  outcome_lem r e k (some row) false false old ok h = rw ok refl

  -- If the order in which a map is visited reaches exactly its keys, and the database stores the state of
  -- a scope, the evaluation of a rule leaves the scope with: a firing state with the value and the context
  -- of its latest row that meets the threshold, if there is one, and with the time at which its last stored
  -- state fired, when it fired before, or else the time now; else, if it fired before, an `ok` state with
  -- the value of its first row, or 0 without one, and no time of firing; else the state that it had.
  pub evaluate_rows-outcome :
      (r : Rule fl) (e : Reading fl C) (db : Database fl C) (k : Bytes)
      → Visits e.visit
      → e.state_ok k ≡ true
      → find_state r.id k (evaluate_rows r e db).0.states
        ≡ outcome r e k
            (latest r k e.rows)
            (is_firing (status_before k e.existing))
            (find_state r.id k db.states)
  unfolding evaluate_rows lookup
  evaluate_rows-outcome r e db k v ok =
      find_state-each r.id (λ j. ok_target r e (resolves firing prior j) j)
        (resolve_key r e firing prior) (states-resolve_key r e firing prior)
        (each (fire_key r e firing prior) db (e.visit (keys firing))) (e.visit (keys prior)) k
      ∙ rw
          (find_state-each r.id
            (λ j. fired_target r e (is_firing (lookup j prior)) j (lookup j firing))
            (fire_key r e firing prior) (states-fire_key r e firing prior) db
            (e.visit (keys firing)) k)
          (rw (v (keys firing) k, v (keys prior) k, member-keys firing k, member-keys prior k)
            (outcome_lem r e k (lookup k firing) (is_firing (lookup k prior))
                (is_some (lookup k prior)) (find_state r.id k db.states) ok
                (was_some (lookup k prior))
              ∙ rw
                  (
                    lookup-firing_map r k [] e.rows,
                    lookup-prior_map k [] e.existing,
                    or_else_right (latest r k e.rows),
                    or_else_right (status_before k e.existing),
                  )
                  refl))
    where
      firing : Dict (ScopeRow fl C)
      firing = firing_map [] r e.rows

      prior : Dict String
      prior = prior_map [] e.existing
