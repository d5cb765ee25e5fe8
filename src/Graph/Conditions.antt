-- ===== src/Graph/Conditions.antt =====
-- internal/graph/alert.go: the conditions and the parameters of the query of a rule, and the rows that
-- it gives. The pattern and the columns of a query are a constant text for its scope, which is what
-- stands here for them.
pub mod Bound
use ripestream.Base.{
  Bool, List, [], ◌∷◌, ◌++◌, map, String, str_eq, Bytes, ◌⊎◌, inl, inr, if◌then◌else◌, ◌||◌,
}
use ripestream.Base.Int.{ℤ, pos, ltb_ℤ}
use ripestream.Base.Float.{Float}
use ripestream.Base.Ascii.{ascii}
use ripestream.Graph.Values.{Value, Row, Go, column, as_float, as_string}
use ripestream.Atlas.Probes.{is_blank}

-- `AlertRuleSpec`.
pub record AlertRuleSpec (fl : Float) : Type 0 where
  pub metric : String
  pub scope : String
  pub comparison : String
  pub threshold : Float.F fl
  pub min_sent : ℤ
  pub min_loss : Float.F fl
  pub src_asn : ℤ
  pub dst_asn : ℤ
  pub probe_id : ℤ
  pub target_ip : Bytes

-- `builtQuery`: its conditions, which AND joins after WHERE, the expression of its value, and its
-- parameters.
pub record BuiltQuery (fl : Float) : Type 0 where
  pub scope : String
  pub conditions : List Bytes
  pub value : Bytes
  pub params : Row fl

pub data AlertError : Type 0 where
  unsupported_scope : String → AlertError
  query_failed : Bytes → AlertError

-- `formatMetricReturn`.
unfoldable pub format_metric_return : String → Bytes
format_metric_return metric =
    if str_eq metric "loss_ratio"
    then ascii "round(100.0 * avg_loss)"
    else if str_eq metric "avg_rtt_ms"
    then ascii "round(avg_rtt)"
    else if str_eq metric "target_lost"
    then ascii "100.0"
    else ascii "0"

-- A condition of the scope with its parameter, each only when the filter is set.
pub record Filter (fl : Float) : Type 0 where
  pub conditions : List Bytes
  pub params : Row fl

module _ {fl : Float} where
  abbrev set_filter : Bool → Bytes → String → Value fl → Filter fl
  set_filter set condition name v =
      if set
      then record { conditions = condition ∷ []; params = (name, v) ∷ [] }
      else record { conditions = []; params = [] }

  abbrev positive_filter : Bytes → String → ℤ → Filter fl
  positive_filter condition name n = set_filter (ltb_ℤ (pos 0) n) condition name (Value.int n)

  abbrev target_filter : Bytes → Filter fl
  target_filter ip = if is_blank ip then record { conditions = []; params = [] } else record {
    conditions = ascii "t.addr = $target" ∷ [];
    params = ("target", Value.text ip) ∷ [];
  }

  abbrev both : Filter fl → Filter fl → Filter fl
  both f g = record { conditions = f.conditions ++ g.conditions; params = f.params ++ g.params }

  -- The filters that a scope looks at; a filter of another scope is ignored.
  unfoldable pub scope_filter : AlertRuleSpec fl → AlertError ⊎ Filter fl
  scope_filter rule =
      if str_eq rule.scope "probe_target"
      then inr (
          both (positive_filter (ascii "p.id = $probe") "probe" rule.probe_id)
            (target_filter rule.target_ip))
      else if str_eq rule.scope "asn_pair"
      then inr (
          both (positive_filter (ascii "srcAS.asn = $srcAsn") "srcAsn" rule.src_asn)
            (positive_filter (ascii "dstAS.asn = $dstAsn") "dstAsn" rule.dst_asn))
      else if str_eq rule.scope "target"
      then inr (target_filter rule.target_ip)
      else if str_eq rule.scope "asn_dst"
      then inr (positive_filter (ascii "dstAS.asn = $dstAsn") "dstAsn" rule.dst_asn)
      else inl (AlertError.unsupported_scope rule.scope)

  -- The conditions on traffic and loss. Healthy edges stay in a loss ratio unless the rule asks for a
  -- least loss.
  unfoldable pub traffic_condition : AlertRuleSpec fl → Bytes
  traffic_condition rule =
      if ltb_ℤ (pos 0) rule.min_sent then ascii "e.sent >= $minSent" else ascii "e.sent > 0"

  unfoldable pub loss_conditions : AlertRuleSpec fl → List Bytes
  loss_conditions rule =
      if str_eq rule.metric "target_lost"
      then ascii "e.rcvd = 0" ∷ []
      else if Float.lt fl (Float.of_nat fl 0) rule.min_loss
      then ascii "e.loss_ratio >= $minLoss" ∷ []
      else []

  unfoldable pub build_from : AlertRuleSpec fl → AlertError ⊎ Filter fl → AlertError ⊎ BuiltQuery fl
  build_from rule (inl e) = inl e
  build_from rule (inr f) = inr (record {
    scope = rule.scope;
    conditions =
        (traffic_condition rule ∷ ascii "e.last_seen >= $cutoff" ∷ loss_conditions rule)
        ++ f.conditions;
    value = format_metric_return rule.metric;
    params =
        ("minSent", Value.int rule.min_sent) ∷ ("minLoss", Value.float rule.min_loss) ∷ f.params;
  })

  -- `buildAlertCypher`.
  unfoldable pub build_alert_cypher : AlertRuleSpec fl → AlertError ⊎ BuiltQuery fl
  build_alert_cypher rule = build_from rule (scope_filter rule)

  -- The columns of a row that go into its context.
  unfoldable pub context_of : Row fl → Row fl
  context_of [] = []
  context_of (e ∷ es) =
      let rest = context_of es in
      if str_eq e.0 "scope_key" || str_eq e.0 "value" then rest else e ∷ rest

  -- `q.params["cutoff"] = s.activeCutoff()`.
  unfoldable pub with_cutoff : ℤ → BuiltQuery fl → BuiltQuery fl
  with_cutoff cutoff q = record q { params = ("cutoff", Value.int cutoff) ∷ q.params }

-- `AlertScopeRow`.
pub record AlertScopeRow (fl : Float) : Type 0 where
  pub scope_key : Bytes
  pub value : Float.F fl
  pub context : Row fl

module _ (go : Go) where
  unfoldable pub scope_row : Row (Go.fl go) → AlertScopeRow (Go.fl go)
  scope_row r = record {
    scope_key = as_string go (column "scope_key" r);
    value = as_float go (column "value" r);
    context = context_of r;
  }

  unfoldable pub scope_rows :
      Bytes ⊎ List (Row (Go.fl go)) → AlertError ⊎ List (AlertScopeRow (Go.fl go))
  scope_rows (inl e) = inl (AlertError.query_failed e)
  scope_rows (inr rows) = inr (map scope_row rows)

  unfoldable pub run_built :
      (BuiltQuery (Go.fl go) → Bytes ⊎ List (Row (Go.fl go)))
      → ℤ
      → AlertError ⊎ BuiltQuery (Go.fl go)
      → AlertError ⊎ List (AlertScopeRow (Go.fl go))
  run_built query cutoff (inl e) = inl e
  run_built query cutoff (inr q) = scope_rows (query (with_cutoff cutoff q))

  -- `EvaluateAlert`, on the answers of the database and the cutoff of stale edges.
  unfoldable pub evaluate_alert :
      (BuiltQuery (Go.fl go) → Bytes ⊎ List (Row (Go.fl go)))
      → ℤ
      → AlertRuleSpec (Go.fl go)
      → AlertError ⊎ List (AlertScopeRow (Go.fl go))
  evaluate_alert query cutoff rule = run_built query cutoff (build_alert_cypher rule)
