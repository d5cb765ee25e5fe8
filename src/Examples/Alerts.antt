-- ===== src/Examples/Alerts.antt =====
-- Alert rules, their store and their evaluation.
use ripestream.Base.{
  Bytes, ℕ, ◌≡◌, ◌↔◌, refl, true, false, String, [], ◌∷◌, All, arith, none, some, inl, inr,
}
use ripestream.Base.Int.{ℤ, pos, pos_part, eqb_ℤ}
use ripestream.Alert.Rule.{Rule, Filters, compare, validate, validate_threshold}
use ripestream.Store.Statements.{trim_space, trim_left, is_space}
use ripestream.Alert.Rows.{Json, RuleRow}
use ripestream.Alert.Rule.Valid.{IsValid, validate_iff}
use ripestream.Alert.Database.{
  State, Database, rule_not_found, create_rule, update_rule, get_rule, delete_rule, find_state,
  replace_row, replace_row,
}
use ripestream.Alert.Database.Rules.{
  IsFresh, get_rule-create_rule, update_rule-get_rule, delete_rule-deletes,
}
use ripestream.Base.Assoc.{lookup, put}
use ripestream.Base.Text.{bytes_eq}
use ripestream.Alert.Evaluator.{
  Reading, evaluate_rows, firing_map, prior_map, fire_key, fire, resolve_key, carried_fired_at,
  value_of,
}
use ripestream.Alert.Evaluator.Transitions.{evaluate_rows-outcome}
use ripestream.Alert.Manager.{
  rule_to_view, view_to_rule, filter_map, int_entry, float_entry, text_entry, filters_of,
  as_integer, as_number, as_text, entry,
}
use ripestream.Alert.Manager.Edit.{through_json, sent_back, view_to_rule-rule_to_view}
use ripestream.Examples.{whole, go}

abbrev no_filters : Filters whole
no_filters = record {
  min_sent = pos 0;
  min_loss = 0;
  src_asn = pos 0;
  dst_asn = pos 0;
  probe_id = pos 0;
  target_ip = [];
}

-- loss_ratio > 50 for each target
abbrev loss_rule : ℤ → Rule whole
loss_rule id = record {
  id = id;
  name = 108 ∷ [];
  metric = "loss_ratio";
  comparison = ">";
  threshold = 50;
  scope = "target";
  filters = no_filters;
  window_min = pos 0;
  enabled = true;
  created_at = [];
  updated_at = [];
}

loss_rule_valid : validate (loss_rule (pos 0)) ≡ none
unfolding validate validate_threshold trim_space trim_left is_space
loss_rule_valid = refl

validate_iff_example : (validate (loss_rule (pos 0)) ≡ none) ↔ IsValid (loss_rule (pos 0))
validate_iff_example = validate_iff (loss_rule (pos 0))

-- An encoding of the filters in place of JSON.
abbrev read_filters : Bytes → Filters whole
read_filters (sent ∷ loss ∷ src ∷ dst ∷ probe ∷ ip) = record {
  min_sent = pos sent;
  min_loss = loss;
  src_asn = pos src;
  dst_asn = pos dst;
  probe_id = pos probe;
  target_ip = ip;
}
read_filters _ = no_filters

abbrev json : Json whole
json = record {
  marshal = λ f.
      pos_part f.min_sent
      ∷ f.min_loss
      ∷ pos_part f.src_asn
      ∷ pos_part f.dst_asn
      ∷ pos_part f.probe_id
      ∷ f.target_ip;
  unmarshal = read_filters;
}

abbrev rule_row : ℕ → RuleRow whole
rule_row id = record {
  id = pos id;
  name = 108 ∷ [];
  metric = "loss_ratio";
  comparison = ">";
  threshold = 50;
  scope = "target";
  filters = Json.marshal json no_filters;
  window_min = pos 0;
  enabled = pos 1;
  created_at = 48 ∷ [];
  updated_at = 49 ∷ [];
}

-- Scopes 1 and 2 fire; the tables have states of rules 1 and 2.
abbrev stored : ℤ → ℕ → String → State whole ℕ
stored id key status = record {
  rule_id = id;
  status = status;
  current_val = 60;
  scope_key = key ∷ [];
  last_eval_at = 49 ∷ [];
  fired_at = 49 ∷ [];
  context = none;
}

abbrev tables : Database whole ℕ
tables = record {
  rules = rule_row 1 ∷ rule_row 2 ∷ [];
  states = stored (pos 1) 1 "firing" ∷ stored (pos 1) 3 "firing" ∷ stored (pos 2) 1 "ok" ∷ [];
  events = [];
  next_rule = 3;
}

tables-IsFresh : IsFresh tables
tables-IsFresh = (omega arith, (omega arith, tt))

-- The rule for lost packets, for one source network.
abbrev edited_rule : Rule whole
edited_rule = record (loss_rule (pos 7)) {
  filters = record no_filters { min_sent = pos 10; src_asn = pos 64500; target_ip = 9 ∷ [] };
}

edited_rule_valid : validate edited_rule ≡ none
unfolding validate validate_threshold trim_space trim_left is_space
edited_rule_valid = refl

get_rule-create_rule_example :
    let stored = record edited_rule { id = pos 3; created_at = 50 ∷ []; updated_at = 50 ∷ [] } in
    let done = create_rule json true tables edited_rule (50 ∷ []) in
    (done.1 ≡ inr stored)
    × (get_rule json true done.0 (pos 3) ≡ inr stored)
    × ((j : ℤ)
        → eqb_ℤ j (pos 3) ≡ false
        → get_rule json true done.0 j ≡ get_rule json true tables j)
    × IsFresh done.0
get_rule-create_rule_example =
    get_rule-create_rule json tables edited_rule (50 ∷ []) tables-IsFresh edited_rule_valid refl

update_rule-get_rule_example :
    let stored = record edited_rule { id = pos 2; created_at = 48 ∷ []; updated_at = 50 ∷ [] } in
    let done = update_rule json true true tables (pos 2) edited_rule (50 ∷ []) in
    (done.1 ≡ inr stored)
    × (get_rule json true done.0 (pos 2) ≡ inr stored)
    × ((j : ℤ)
        → eqb_ℤ j (pos 2) ≡ false
        → get_rule json true done.0 j ≡ get_rule json true tables j)
update_rule-get_rule_example =
    update_rule-get_rule json tables (pos 2) edited_rule (rule_row 2) (50 ∷ []) refl
      edited_rule_valid refl

delete_rule-deletes_example :
    let after = delete_rule true tables (pos 1) in
    (get_rule json true after (pos 1) ≡ inl rule_not_found)
    × All (λ st. eqb_ℤ st.rule_id (pos 1) ≡ false) after.states
    × All (λ e. eqb_ℤ e.rule_id (pos 1) ≡ false) after.events
    × ((j : ℤ) (key : Bytes)
        → eqb_ℤ j (pos 1) ≡ false
        → (get_rule json true after j ≡ get_rule json true tables j)
          × (find_state j key after.states ≡ find_state j key tables.states))
delete_rule-deletes_example = delete_rule-deletes json tables (pos 1)

sent_rule_test : view_to_rule go (pos 7) (sent_back go (rule_to_view edited_rule)) ≡ edited_rule
unfolding view_to_rule rule_to_view filter_map int_entry float_entry text_entry filters_of
    as_integer as_number as_text entry through_json
sent_rule_test = refl

view_to_rule-rule_to_view_example :
    view_to_rule go (pos 7) (sent_back go (rule_to_view edited_rule))
    ≡ record edited_rule { created_at = []; updated_at = [] }
view_to_rule-rule_to_view_example = view_to_rule-rule_to_view go edited_rule (record {
  min_sent = refl;
  min_loss = λ _. refl;
  src_asn = refl;
  dst_asn = refl;
  probe_id = refl;
})

abbrev reading : Reading whole ℕ
reading = record {
  now = 50 ∷ [];
  rows =
      record { scope_key = 1 ∷ []; value = 80; context = none }
      ∷ record { scope_key = 2 ∷ []; value = 70; context = none }
      ∷ record { scope_key = 3 ∷ []; value = 20; context = none }
      ∷ [];
  existing = stored (pos 1) 1 "firing" ∷ stored (pos 1) 3 "firing" ∷ [];
  event_ok = λ _. true;
  state_ok = λ _. true;
  visit = λ ks. ks;
}

-- A scope that still fires keeps the time of its first firing.
evaluate_rows-outcome_example :
    find_state (pos 1) (1 ∷ []) (evaluate_rows (loss_rule (pos 1)) reading tables).0.states
    ≡ some (record {
      rule_id = pos 1;
      status = "firing";
      current_val = 80;
      scope_key = 1 ∷ [];
      last_eval_at = 50 ∷ [];
      fired_at = 49 ∷ [];
      context = none;
    })
unfolding compare bytes_eq
evaluate_rows-outcome_example =
    evaluate_rows-outcome (loss_rule (pos 1)) reading tables (1 ∷ []) (λ ks k. refl) refl

resolved_test :
    find_state (pos 1) (3 ∷ []) (evaluate_rows (loss_rule (pos 1)) reading tables).0.states
    ≡ some (record {
      rule_id = pos 1;
      status = "ok";
      current_val = 20;
      scope_key = 3 ∷ [];
      last_eval_at = 50 ∷ [];
      fired_at = [];
      context = none;
    })
unfolding compare bytes_eq evaluate_rows firing_map prior_map fire_key fire resolve_key
    carried_fired_at value_of find_state replace_row lookup put
resolved_test = refl
