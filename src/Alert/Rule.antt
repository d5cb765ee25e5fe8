-- ===== src/Alert/Rule.antt =====
-- internal/alert/model.go: a rule and what makes it valid; `compare` of evaluator.go.
pub mod Valid
use ripestream.Base.{
  Bool, true, false, ◌||◌, List, [], ◌∷◌, Option, none, some, String, str_eq, Bytes, if◌then◌else◌,
}
use ripestream.Base.Int.{ℤ}
use ripestream.Base.Float.{Float}
use ripestream.Store.Statements.{trim_space}

pub record Filters (fl : Float) : Type 0 where
  pub min_sent : ℤ
  pub min_loss : Float.F fl
  pub src_asn : ℤ
  pub dst_asn : ℤ
  pub probe_id : ℤ
  pub target_ip : Bytes

-- `Rule`: metric, comparison and scope are any text, as a request may hold any.
pub record Rule (fl : Float) : Type 0 where
  pub id : ℤ
  pub name : Bytes
  pub metric : String
  pub comparison : String
  pub threshold : Float.F fl
  pub scope : String
  pub filters : Filters fl
  pub window_min : ℤ
  pub enabled : Bool
  pub created_at : Bytes
  pub updated_at : Bytes

abbrev pub one_of : String → List String → Bool
one_of s [] = false
one_of s (t ∷ ts) = str_eq s t || one_of s ts

abbrev pub metrics : List String
metrics = "loss_ratio" ∷ "avg_rtt_ms" ∷ "target_lost" ∷ []

abbrev pub scopes : List String
scopes = "probe_target" ∷ "asn_pair" ∷ "target" ∷ "asn_dst" ∷ []

abbrev pub comparisons : List String
comparisons = ">" ∷ ">=" ∷ "<" ∷ "<=" ∷ "==" ∷ []

-- The errors of `Validate`.
pub data RuleError : Type 0 where
  name_required : RuleError
  invalid_metric : RuleError
  invalid_scope : RuleError
  invalid_comparison : RuleError
  loss_threshold : RuleError
  rtt_threshold : RuleError

abbrev is_empty : Bytes → Bool
is_empty [] = true
is_empty (_ ∷ _) = false

-- `compare`: the threshold operator; an unknown one never holds.
unfoldable pub compare : (fl : Float) → String → Float.F fl → Float.F fl → Bool
compare fl cmp value threshold =
    if str_eq cmp ">"
    then Float.lt fl threshold value
    else if str_eq cmp ">="
    then Float.le fl threshold value
    else if str_eq cmp "<"
    then Float.lt fl value threshold
    else if str_eq cmp "<="
    then Float.le fl value threshold
    else if str_eq cmp "=="
    then Float.eq fl value threshold
    else false

module _ {fl : Float} where
  -- The last switch of `Validate`: the range of the threshold, by metric.
  unfoldable pub validate_threshold : Rule fl → Option RuleError
  validate_threshold r =
      if str_eq r.metric "loss_ratio" || str_eq r.metric "target_lost"
      then (if Float.lt fl r.threshold (Float.of_nat fl 0)
            || Float.lt fl (Float.of_nat fl 100) r.threshold
          then some loss_threshold
          else none)
      else if str_eq r.metric "avg_rtt_ms"
      then (if Float.lt fl r.threshold (Float.of_nat fl 0) then some rtt_threshold else none)
      else none

  -- `Validate`; no error is `none`. The model trims the ASCII spaces.
  unfoldable pub validate : Rule fl → Option RuleError
  validate r =
      if is_empty (trim_space r.name)
      then some name_required
      else if one_of r.metric metrics
      then (if one_of r.scope scopes
          then (if one_of r.comparison comparisons
              then validate_threshold r
              else some invalid_comparison)
          else some invalid_scope)
      else some invalid_metric
