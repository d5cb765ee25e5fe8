-- ===== src/Alert/Manager.antt =====
-- internal/alert/manager.go: the views that the read API gives of rules, states and alerts, and the
-- rules that it takes; and the lists of internal/alert/store.go. The order of ORDER BY is an argument.
pub mod Edit
use ripestream.Base.{
  ℕ, ltb, Bool, true, false, not, List, [], ◌∷◌, ◌++◌, map, Option, none, some, String, str_eq,
  Bytes, if◌then◌else◌, keep, ◌⊎◌, inl, inr,
}
use ripestream.Base.Int.{ℤ, pos, pos_part, eqb_ℤ, leb_ℤ, ltb_ℤ}
use ripestream.Base.Float.{Float}
use ripestream.Graph.Values.{Go}
use ripestream.Alert.Rule.{Filters, Rule}
use ripestream.Alert.Rows.{Json, RuleRow, find_rule, is_rule, scan_rule}
use ripestream.Alert.Database.{
  State, Database, StoreError, database, create_rule, update_rule, get_rule, delete_rule,
}

-- A value of the map of filters: the Go types that the code puts in, and those that JSON decodes to.
pub data FilterValue (fl : Float) : Type 0 where
  int : ℤ → FilterValue fl
  float : Float.F fl → FilterValue fl
  text : Bytes → FilterValue fl

abbrev pub FilterMap : Float → Type 0
FilterMap fl = List (String × FilterValue fl)

-- `AlertRuleView`.
pub record AlertRuleView (fl : Float) : Type 0 where
  pub id : ℤ
  pub name : Bytes
  pub metric : String
  pub comparison : String
  pub threshold : Float.F fl
  pub scope : String
  pub filters : FilterMap fl
  pub window_min : ℤ
  pub enabled : Bool
  pub created_at : Bytes
  pub updated_at : Bytes

-- `AlertStateView`.
pub record AlertStateView (fl : Float) (C : Type 0) : Type 0 where
  pub rule_id : ℤ
  pub rule_name : Bytes
  pub status : String
  pub current_val : Float.F fl
  pub scope_key : Bytes
  pub last_eval_at : Bytes
  pub fired_at : Bytes
  pub context : Option C

-- `AlertView`.
pub record AlertView (fl : Float) : Type 0 where
  pub rule_id : ℤ
  pub rule_name : Bytes
  pub scope_key : Bytes
  pub value : Float.F fl
  pub fired_at : Bytes

module _ {fl : Float} where
  unfoldable pub entry : String → FilterMap fl → Option (FilterValue fl)
  entry name [] = none
  entry name (e ∷ es) = if str_eq e.0 name then some e.1 else entry name es

  -- The entries of `ruleToView`: one for each filter that is set.
  unfoldable pub int_entry : String → ℤ → FilterMap fl
  int_entry name n = if eqb_ℤ n (pos 0) then [] else (name, FilterValue.int n) ∷ []

  unfoldable pub float_entry : String → Float.F fl → FilterMap fl
  float_entry name x =
      if Float.eq fl x (Float.of_nat fl 0) then [] else (name, FilterValue.float x) ∷ []

  unfoldable pub text_entry : String → Bytes → FilterMap fl
  text_entry name [] = []
  text_entry name (c ∷ cs) = (name, FilterValue.text (c ∷ cs)) ∷ []

  unfoldable pub filter_map : Filters fl → FilterMap fl
  filter_map f =
      int_entry "min_sent" f.min_sent
      ++ (float_entry "min_loss" f.min_loss
          ++ (int_entry "src_asn" f.src_asn
              ++ (int_entry "dst_asn" f.dst_asn
                  ++ (int_entry "probe_id" f.probe_id ++ text_entry "target_ip" f.target_ip))))

  -- `ruleToView`.
  unfoldable pub rule_to_view : Rule fl → AlertRuleView fl
  rule_to_view r = record {
    id = r.id;
    name = r.name;
    metric = r.metric;
    comparison = r.comparison;
    threshold = r.threshold;
    scope = r.scope;
    filters = filter_map r.filters;
    window_min = r.window_min;
    enabled = r.enabled;
    created_at = r.created_at;
    updated_at = r.updated_at;
  }

  abbrev view_of : StoreError ⊎ Rule fl → StoreError ⊎ AlertRuleView fl
  view_of (inl e) = inl e
  view_of (inr r) = inr (rule_to_view r)

  unfoldable pub rule_name : Option (RuleRow fl) → Bytes
  rule_name none = []
  rule_name (some r) = r.name

  -- The type assertions of `viewToRule`.
  unfoldable pub as_number : Option (FilterValue fl) → Float.F fl
  as_number (some (FilterValue.float x)) = x
  as_number _ = Float.of_nat fl 0

  unfoldable pub as_text : Option (FilterValue fl) → Bytes
  as_text (some (FilterValue.text t)) = t
  as_text _ = []

module _ (go : Go) where
  unfoldable pub as_integer : Option (FilterValue (Go.fl go)) → ℤ
  as_integer (some (FilterValue.float x)) = Go.truncate go x
  as_integer _ = pos 0

  unfoldable pub filters_of : FilterMap (Go.fl go) → Filters (Go.fl go)
  filters_of m = record {
    min_sent = as_integer (entry "min_sent" m);
    min_loss = as_number (entry "min_loss" m);
    src_asn = as_integer (entry "src_asn" m);
    dst_asn = as_integer (entry "dst_asn" m);
    probe_id = as_integer (entry "probe_id" m);
    target_ip = as_text (entry "target_ip" m);
  }

  -- `viewToRule`.
  unfoldable pub view_to_rule : ℤ → AlertRuleView (Go.fl go) → Rule (Go.fl go)
  view_to_rule id v = record {
    id = id;
    name = v.name;
    metric = v.metric;
    comparison = v.comparison;
    threshold = v.threshold;
    scope = v.scope;
    filters = filters_of v.filters;
    window_min = v.window_min;
    enabled = v.enabled;
    created_at = [];
    updated_at = [];
  }

  module _ {C : Type 0} where
    -- `GetRule`, `CreateRule` and `UpdateRule` of the manager.
    unfoldable pub get_view :
        Json (Go.fl go) → Bool → Database (Go.fl go) C → ℤ → StoreError ⊎ AlertRuleView (Go.fl go)
    get_view json works db id = view_of (get_rule json works db id)

    unfoldable pub create_view :
        Json (Go.fl go)
        → Bool
        → Database (Go.fl go) C
        → AlertRuleView (Go.fl go)
        → Bytes
        → Database (Go.fl go) C × (StoreError ⊎ AlertRuleView (Go.fl go))
    create_view json works db v now =
        let done : Database (Go.fl go) C × (StoreError ⊎ Rule (Go.fl go)) =
          create_rule json works db (view_to_rule (pos 0) v) now in
        (done.0, view_of done.1)

    unfoldable pub update_view :
        Json (Go.fl go)
        → Bool
        → Bool
        → Database (Go.fl go) C
        → ℤ
        → AlertRuleView (Go.fl go)
        → Bytes
        → Database (Go.fl go) C × (StoreError ⊎ AlertRuleView (Go.fl go))
    update_view json works reads db id v now =
        let done : Database (Go.fl go) C × (StoreError ⊎ Rule (Go.fl go)) =
          update_rule json works reads db id (view_to_rule id v) now in
        (done.0, view_of done.1)

module _ {fl : Float} {C : Type 0} where
  -- The join of the states with their rules, which gives a state its rule's name.
  unfoldable pub state_view : Database fl C → State fl C → AlertStateView fl C
  state_view db st = record {
    rule_id = st.rule_id;
    rule_name = rule_name (find_rule st.rule_id db.rules);
    status = st.status;
    current_val = st.current_val;
    scope_key = st.scope_key;
    last_eval_at = st.last_eval_at;
    fired_at = st.fired_at;
    context = st.context;
  }

  abbrev pub joined_states : Database fl C → List (State fl C)
  joined_states db = keep (λ st. is_rule db.rules st.rule_id) db.states

  -- `Rules`, `AlertStates` and `ActiveAlerts`, on a database that answers.
  unfoldable pub rule_views : Json fl → Database fl C → List (AlertRuleView fl)
  rule_views json db = map (λ row. rule_to_view (scan_rule json row)) db.rules

  unfoldable pub alert_states :
      (List (State fl C) → List (State fl C)) → Database fl C → List (AlertStateView fl C)
  alert_states order_by db = map (state_view db) (order_by (joined_states db))

  unfoldable pub alert_view : Database fl C → State fl C → AlertView fl
  alert_view db st = record {
    rule_id = st.rule_id;
    rule_name = rule_name (find_rule st.rule_id db.rules);
    scope_key = st.scope_key;
    value = st.current_val;
    fired_at = st.fired_at;
  }

  unfoldable pub active_alerts :
      (List (State fl C) → List (State fl C)) → Database fl C → List (AlertView fl)
  active_alerts order_by db =
      map (alert_view db) (order_by (keep (λ st. str_eq st.status "firing") (joined_states db)))

-- The limit of `ListEvents`.
unfoldable pub events_limit : ℤ → ℕ
events_limit limit =
    if leb_ℤ limit (pos 0) then 100 else if ltb_ℤ (pos 1000) limit then 100 else pos_part limit
