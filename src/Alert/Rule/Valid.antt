-- ===== src/Alert/Rule/Valid.antt =====
-- Which rules `Validate` lets through.
use ripestream.Base.{
  Bool, true, false, [], ◌∷◌, Option, none, some, str_eq, eq_iff, Bytes, if◌then◌else◌, arith, ◌≡◌,
  ◌≢◌, ◌⊎◌, ◌↔◌, inl, inr, Bool-cases,
}
use ripestream.Base.Float.{Float}
use ripestream.Store.Statements.{trim_space}
use ripestream.Alert.Rule.{
  Rule, one_of, metrics, scopes, comparisons, is_empty, RuleError, validate, validate_threshold,
}

guards :
    (a b c d : Bool) (e : Option RuleError) (w x y z : RuleError)
    → ((if a
          then some w
          else if b
          then (if c then (if d then e else some x) else some y)
          else some z)
        ≡ none)
      ↔ ((a ≡ false) × (b ≡ true) × (c ≡ true) × (d ≡ true) × (e ≡ none))
guards a b c d e w x y z = ground arith

is_empty_iff : (s : Bytes) → (is_empty s ≡ false) ↔ (s ≢ [])
is_empty_iff [] = ground arith
is_empty_iff (_ ∷ _) = ground arith

-- A rule as it may be stored, over floats that any order relates.
module _ {fl : Float} where
  abbrev pub IsThreshold : Rule fl → Type 0
  IsThreshold r =
      ((r.metric ≡ "avg_rtt_ms") ⊎ (Float.lt fl (Float.of_nat fl 100) r.threshold ≡ false))
      × (Float.lt fl r.threshold (Float.of_nat fl 0) ≡ false)

  abbrev pub IsValid : Rule fl → Type 0
  IsValid r =
      (trim_space r.name ≢ [])
      × (one_of r.metric metrics ≡ true)
      × (one_of r.scope scopes ≡ true)
      × (one_of r.comparison comparisons ≡ true)
      × IsThreshold r

  validate_threshold_iff :
      (r : Rule fl) → one_of r.metric metrics ≡ true → (validate_threshold r ≡ none) ↔ IsThreshold r
  unfolding validate_threshold
  validate_threshold_iff r h = elim (Bool-cases (str_eq r.metric "avg_rtt_ms")) [
    | inl e ↦ rw ((eq_iff r.metric "avg_rtt_ms").0 e) (ground arith)
    | inr e ↦ ground (arith, eq_iff r.metric "avg_rtt_ms")
  ]

  validate-guards :
      (r : Rule fl)
      → (validate r ≡ none) ↔ (
          (is_empty (trim_space r.name) ≡ false)
          × (one_of r.metric metrics ≡ true)
          × (one_of r.scope scopes ≡ true)
          × (one_of r.comparison comparisons ≡ true)
          × (validate_threshold r ≡ none))
  unfolding validate
  validate-guards r = guards _ _ _ _ _ _ _ _ _

  -- `Validate` accepts exactly the rules with a name that is not all spaces, a known metric, scope
  -- and comparison, and a threshold that is not negative and, for a loss, at most 100.
  pub validate_iff : (r : Rule fl) → (validate r ≡ none) ↔ IsValid r
  validate_iff r = (
    (λ h.
        let g = (validate-guards r).0 h in
        ((is_empty_iff _).0 g.0, g.1, g.2, g.3, (validate_threshold_iff r g.1).0 g.4)),
    (λ v.
        (validate-guards r).1
          ((is_empty_iff _).1 v.0, v.1, v.2, v.3, (validate_threshold_iff r v.1).1 v.4)),
  )
