-- ===== src/Alert/Evaluator.antt =====
-- internal/alert/evaluator.go: `evaluateRule`, which compares what the graph returns for a rule
-- with its threshold and records the transitions, and `tick`, which does so for every rule.
-- The graph query, the clock and the order in which a map is visited are arguments.
pub mod Scopes
pub mod Transitions
use ripestream.Base.{
  ℕ, ◌+◌, Bool, false, not, ◌&&◌, List, [], ◌∷◌, Option, none, some, String, str_eq, Bytes,
  if◌then◌else◌, length, keep,
}
use ripestream.Base.Assoc.{Dict, lookup, put, keys, is_some}
use ripestream.Base.Float.{Float}
use ripestream.Base.Text.{bytes_eq}
use ripestream.Alert.Rule.{Rule, compare}
use ripestream.Alert.Database.{State, Event, Database, upsert_state, add_event, states_for_rule}

-- `scopeRow`.
pub record ScopeRow (fl : Float) (C : Type 0) : Type 0 where
  pub scope_key : Bytes
  pub value : Float.F fl
  pub context : Option C

-- What one evaluation reads from outside: the time, the rows that the graph returned, the stored
-- states of the rule, which statements the database carries out, and the order of a map's keys.
pub record Reading (fl : Float) (C : Type 0) : Type 0 where
  pub now : Bytes
  pub rows : List (ScopeRow fl C)
  pub existing : List (State fl C)
  pub event_ok : Bytes → Bool
  pub state_ok : Bytes → Bool
  pub visit : List Bytes → List Bytes

abbrev pub is_firing : Option String → Bool
is_firing none = false
is_firing (some s) = str_eq s "firing"

module _ {fl : Float} {C : Type 0} where
  -- The map `firing`: the last row of each key that meets the threshold.
  unfoldable pub firing_map :
      Dict (ScopeRow fl C) → Rule fl → List (ScopeRow fl C) → Dict (ScopeRow fl C)
  firing_map m r [] = m
  firing_map m r (row ∷ rows) =
      let meets = compare fl r.comparison row.value r.threshold in
      firing_map (if meets then put m row.scope_key row else m) r rows

  -- The map `prior`: the status of each stored state.
  unfoldable pub prior_map : Dict String → List (State fl C) → Dict String
  prior_map m [] = m
  prior_map m (st ∷ sts) = prior_map (put m st.scope_key st.status) sts

  -- The time at which a scope that still fires has fired first.
  unfoldable pub carried_fired_at : Bytes → Bytes → List (State fl C) → Bytes
  carried_fired_at key at [] = at
  carried_fired_at key at (p ∷ ps) =
      carried_fired_at key (if bytes_eq p.scope_key key then p.fired_at else at) ps

  -- The value of a scope that no longer fires: that of its first row, or 0.
  unfoldable pub value_of : Bytes → List (ScopeRow fl C) → Float.F fl
  value_of key [] = Float.of_nat fl 0
  value_of key (row ∷ rows) =
      let rest = value_of key rows in if bytes_eq row.scope_key key then row.value else rest

  abbrev pub firing_state : Rule fl → Reading fl C → Bool → ScopeRow fl C → Bytes → State fl C
  firing_state r e was row key = record {
    rule_id = r.id;
    status = "firing";
    current_val = row.value;
    scope_key = key;
    last_eval_at = e.now;
    fired_at = if was then carried_fired_at key [] e.existing else e.now;
    context = row.context;
  }

  abbrev pub fired_event : Rule fl → Reading fl C → ScopeRow fl C → Bytes → Event fl C
  fired_event r e row key = record {
    rule_id = r.id;
    kind = "fired";
    scope_key = key;
    value = row.value;
    context = row.context;
    ts = e.now;
  }

  abbrev pub ok_state : Rule fl → Reading fl C → Bytes → State fl C
  ok_state r e key = record {
    rule_id = r.id;
    status = "ok";
    current_val = value_of key e.rows;
    scope_key = key;
    last_eval_at = e.now;
    fired_at = [];
    context = none;
  }

  abbrev pub resolved_event : Rule fl → Reading fl C → Bytes → Event fl C
  resolved_event r e key = record {
    rule_id = r.id;
    kind = "resolved";
    scope_key = key;
    value = value_of key e.rows;
    context = none;
    ts = e.now;
  }

  -- One round of the first loop: a scope that fires now.
  unfoldable pub fire :
      Rule fl → Reading fl C → Bool → Database fl C → Bytes → ScopeRow fl C → Database fl C
  fire r e was db key row =
      let logged = if was then db else add_event (e.event_ok key) db (fired_event r e row key) in
      upsert_state (e.state_ok key) logged (firing_state r e was row key)

  unfoldable pub fire_key :
      Rule fl
      → Reading fl C
      → Dict (ScopeRow fl C)
      → Dict String
      → Database fl C
      → Bytes
      → Database fl C
  fire_key r e firing prior db key = found (lookup key firing)
    where
      found : Option (ScopeRow fl C) → Database fl C
      found none = db
      found (some row) = fire r e (is_firing (lookup key prior)) db key row

  -- One round of the second loop: a scope that fired before and does not now.
  unfoldable pub resolve_key :
      Rule fl
      → Reading fl C
      → Dict (ScopeRow fl C)
      → Dict String
      → Database fl C
      → Bytes
      → Database fl C
  resolve_key r e firing prior db key =
      if is_firing (lookup key prior) && not (is_some (lookup key firing))
      then upsert_state (e.state_ok key) (add_event (e.event_ok key) db (resolved_event r e key))
          (ok_state r e key)
      else db

  -- A loop over keys that changes the tables.
  abbrev pub each :
      (Database fl C → Bytes → Database fl C) → Database fl C → List Bytes → Database fl C
  each step db [] = db
  each step db (key ∷ ks) = each step (step db key) ks

  abbrev pub resolves : Dict (ScopeRow fl C) → Dict String → Bytes → Bool
  resolves firing prior key = is_firing (lookup key prior) && not (is_some (lookup key firing))

  -- `evaluateRule` after the query: the tables, and the number of scopes that it counts.
  unfoldable pub evaluate_rows : Rule fl → Reading fl C → Database fl C → Database fl C × ℕ
  evaluate_rows r e db =
      let firing = firing_map [] r e.rows in
      let prior = prior_map [] e.existing in
      (
        each (resolve_key r e firing prior)
            (each (fire_key r e firing prior) db (e.visit (keys firing))) (e.visit (keys prior)),
        length (e.visit (keys firing))
            + length (keep (resolves firing prior) (e.visit (keys prior))),
      )

-- What the outside gives one rule of a tick: whether the context is done, the rows of the graph or
-- its error, and what the database does.
pub record Round (fl : Float) (C : Type 0) : Type 0 where
  pub done : Bool
  pub now : Bytes
  pub answer : Option (List (ScopeRow fl C))
  pub listed : Bool
  pub order_by : List (State fl C) → List (State fl C)
  pub event_ok : Bytes → Bool
  pub state_ok : Bytes → Bool
  pub visit : List Bytes → List Bytes

module _ {fl : Float} {C : Type 0} where
  -- `evaluateRule`; an error of the graph leaves the tables and counts nothing.
  unfoldable pub evaluate_rule : Rule fl → Round fl C → Database fl C → Database fl C × ℕ
  evaluate_rule r i db = answered i.answer
    where
      answered : Option (List (ScopeRow fl C)) → Database fl C × ℕ
      answered none = (db, 0)
      answered (some rows) =
          evaluate_rows r
            (record {
              now = i.now;
              rows = rows;
              existing = states_for_rule i.order_by i.listed db r.id;
              event_ok = i.event_ok;
              state_ok = i.state_ok;
              visit = i.visit;
            })
            db

  -- `tick` over the rules that were listed: a done context ends it, a disabled rule is skipped.
  unfoldable pub tick : List (Rule fl × Round fl C) → Database fl C → ℕ → Database fl C × ℕ
  tick [] db n = (db, n)
  tick ((r, i) ∷ rest) db n =
      let out = evaluate_rule r i db in
      let skipped = tick rest db n in
      let evaluated = tick rest out.0 (n + out.1) in
      if i.done then (db, n) else if r.enabled then evaluated else skipped
