-- ===== src/Alert/Rows.antt =====
-- The rows of the table `alert_rules`, and what the statements of internal/alert/store.go write to one
-- and read from it. The JSON of the filters is an argument.
pub mod Lookup
use ripestream.Base.{
  ℕ, Bool, true, false, not, List, [], ◌∷◌, Option, none, some, String, Bytes, if◌then◌else◌,
}
use ripestream.Base.Int.{ℤ, pos, eqb_ℤ}
use ripestream.Base.Float.{Float}
use ripestream.Alert.Rule.{Rule, Filters}

-- `json.Marshal` of filters, and the filters that `json.Unmarshal` leaves where there were none, also
-- when it fails: the source drops both errors.
pub record Json (fl : Float) : Type 0 where
  pub marshal : Filters fl → Bytes
  pub unmarshal : Bytes → Filters fl

-- A row: its column `filters` holds JSON, and `enabled` is 0 or 1.
pub record RuleRow (fl : Float) : Type 0 where
  pub id : ℤ
  pub name : Bytes
  pub metric : String
  pub comparison : String
  pub threshold : Float.F fl
  pub scope : String
  pub filters : Bytes
  pub window_min : ℤ
  pub enabled : ℤ
  pub created_at : Bytes
  pub updated_at : Bytes

-- `boolToInt`.
abbrev pub bool_to_int : Bool → ℤ
bool_to_int true = pos 1
bool_to_int false = pos 0

module _ {fl : Float} where
  abbrev pub find_rule : ℤ → List (RuleRow fl) → Option (RuleRow fl)
  find_rule id [] = none
  find_rule id (r ∷ rs) = if eqb_ℤ r.id id then some r else find_rule id rs

  abbrev pub is_rule : List (RuleRow fl) → ℤ → Bool
  is_rule [] id = false
  is_rule (r ∷ rs) id = if eqb_ℤ r.id id then true else is_rule rs id

  -- `scanRule` on a row.
  unfoldable pub scan_rule : Json fl → RuleRow fl → Rule fl
  scan_rule json row = record {
    id = row.id;
    name = row.name;
    metric = row.metric;
    comparison = row.comparison;
    threshold = row.threshold;
    scope = row.scope;
    filters = Json.unmarshal json row.filters;
    window_min = row.window_min;
    enabled = not (eqb_ℤ row.enabled (pos 0));
    created_at = row.created_at;
    updated_at = row.updated_at;
  }

  -- The row of the INSERT of `CreateRule`, and the rule that it returns.
  unfoldable pub inserted : Json fl → Rule fl → ℕ → Bytes → RuleRow fl
  inserted json r id now = record {
    id = pos id;
    name = r.name;
    metric = r.metric;
    comparison = r.comparison;
    threshold = r.threshold;
    scope = r.scope;
    filters = Json.marshal json r.filters;
    window_min = r.window_min;
    enabled = bool_to_int r.enabled;
    created_at = now;
    updated_at = now;
  }

  unfoldable pub created : Rule fl → ℕ → Bytes → Rule fl
  created r id now = record r { id = pos id; created_at = now; updated_at = now }

  -- The row that the SET list of `UpdateRule` leaves.
  unfoldable pub updated : Json fl → RuleRow fl → Rule fl → Bytes → RuleRow fl
  updated json old r now = record old {
    name = r.name;
    metric = r.metric;
    comparison = r.comparison;
    threshold = r.threshold;
    scope = r.scope;
    filters = Json.marshal json r.filters;
    window_min = r.window_min;
    enabled = bool_to_int r.enabled;
    updated_at = now;
  }

  unfoldable pub update_rows : Json fl → List (RuleRow fl) → ℤ → Rule fl → Bytes → List (RuleRow fl)
  update_rows json [] id r now = []
  update_rows json (old ∷ rs) id r now =
      (if eqb_ℤ old.id id then updated json old r now else old) ∷ update_rows json rs id r now

  -- The rule that `UpdateRule` returns when it cannot read it back.
  unfoldable pub echoed : Rule fl → ℤ → Bytes → Rule fl
  echoed r id now = record r { id = id; updated_at = now }
