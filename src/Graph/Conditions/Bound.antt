-- ===== src/Graph/Conditions/Bound.antt =====
-- The parameters that the conditions of a rule's query name.
use ripestream.Base.{
  ◌≡◌, refl, Bool, true, false, ◌==◌, leb, ◌&&◌, ◌||◌, List, [], ◌∷◌, ◌++◌, str_eq, Bytes, ◌⊎◌, inl,
  inr, All, All-append, Bool-cases, if◌then◌else◌, ℕ,
}
use mathlib.Core.Path.{subst}
use mathlib.Core.List.{Memᴰ}
use ripestream.Base.Int.{ℤ, pos, ltb_ℤ}
use ripestream.Base.Float.{Float}
use ripestream.Base.Text.{bytes_eq}
use ripestream.Base.Ascii.{ascii}
use ripestream.Graph.Values.{Value, Row}
use ripestream.Graph.Conditions.{
  AlertRuleSpec, BuiltQuery, AlertError, Filter, set_filter, target_filter, both, scope_filter,
  traffic_condition, loss_conditions, build_from, build_alert_cypher, with_cutoff,
}

abbrev is_letter : ℕ → Bool
is_letter c = leb 65 c && leb c 90 || leb 97 c && leb c 122

-- The letters that a text begins with.
unfoldable pub name_at : Bytes → Bytes
name_at [] = []
name_at (c ∷ cs) = let rest = name_at cs in if is_letter c then c ∷ rest else []

-- The names behind the dollar signs of a text.
unfoldable pub placeholders : Bytes → List Bytes
placeholders [] = []
placeholders (c ∷ cs) = let rest = placeholders cs in if c == 36 then name_at cs ∷ rest else rest

module _ {fl : Float} where
  unfoldable pub is_bound : Row fl → Bytes → Bool
  is_bound [] name = false
  is_bound (p ∷ ps) name = bytes_eq (ascii p.0) name || is_bound ps name

  -- Every name in the texts is a parameter.
  unfoldable pub AreBound : Row fl → List Bytes → Type 0
  AreBound ps = All (λ text. All (λ name. is_bound ps name ≡ true) (placeholders text))

  abbrev fixed : ℤ → AlertRuleSpec fl → Row fl
  fixed cutoff rule =
      ("cutoff", Value.int cutoff)
      ∷ ("minSent", Value.int rule.min_sent)
      ∷ ("minLoss", Value.float rule.min_loss)
      ∷ []

  Fits : ℤ → AlertRuleSpec fl → AlertError ⊎ Filter fl → Type 0
  Fits cutoff rule (inl e) = Unit
  Fits cutoff rule (inr f) = AreBound (fixed cutoff rule ++ f.params) f.conditions

  module _ (cutoff : ℤ) (rule : AlertRuleSpec fl) where
    probe_target-Fits :
        (a : Bool) (v : Value fl) (ip : Bytes)
        → Fits cutoff rule
            (inr (both (set_filter a (ascii "p.id = $probe") "probe" v) (target_filter ip)))
    unfolding Fits AreBound placeholders name_at is_bound ascii bytes_eq
    probe_target-Fits true v [] = ((refl, tt), tt)
    probe_target-Fits true v (c ∷ ip) = ((refl, tt), ((refl, tt), tt))
    probe_target-Fits false v [] = tt
    probe_target-Fits false v (c ∷ ip) = ((refl, tt), tt)

    asn_pair-Fits :
        (a b : Bool) (v w : Value fl)
        → Fits cutoff rule (
            inr (
              both
                (set_filter a (ascii "srcAS.asn = $srcAsn") "srcAsn" v)
                (set_filter b (ascii "dstAS.asn = $dstAsn") "dstAsn" w)))
    unfolding Fits AreBound placeholders name_at is_bound ascii bytes_eq
    asn_pair-Fits true true v w = ((refl, tt), ((refl, tt), tt))
    asn_pair-Fits true false v w = ((refl, tt), tt)
    asn_pair-Fits false true v w = ((refl, tt), tt)
    asn_pair-Fits false false v w = tt

    target-Fits : (ip : Bytes) → Fits cutoff rule (inr (target_filter ip))
    unfolding Fits AreBound placeholders name_at is_bound ascii bytes_eq
    target-Fits [] = tt
    target-Fits (c ∷ ip) = ((refl, tt), tt)

    asn_dst-Fits :
        (b : Bool) (v : Value fl)
        → Fits cutoff rule (inr (set_filter b (ascii "dstAS.asn = $dstAsn") "dstAsn" v))
    unfolding Fits AreBound placeholders name_at is_bound ascii bytes_eq
    asn_dst-Fits true v = ((refl, tt), tt)
    asn_dst-Fits false v = tt

    unsupported-Fits : Fits cutoff rule (inl (AlertError.unsupported_scope rule.scope))
    unfolding Fits
    unsupported-Fits = tt

    scope_filter-Fits : Fits cutoff rule (scope_filter rule)
    unfolding scope_filter
    scope_filter-Fits = elim (Bool-cases (str_eq rule.scope "probe_target")) [
      | inl e ↦
          rw e (
            probe_target-Fits (ltb_ℤ (pos 0) rule.probe_id) (Value.int rule.probe_id)
              rule.target_ip)
      | inr e ↦ rw e (elim (Bool-cases (str_eq rule.scope "asn_pair")) [
        | inl p ↦ rw p (
            asn_pair-Fits (ltb_ℤ (pos 0) rule.src_asn) (ltb_ℤ (pos 0) rule.dst_asn)
              (Value.int rule.src_asn) (Value.int rule.dst_asn))
        | inr p ↦ rw p (elim (Bool-cases (str_eq rule.scope "target")) [
          | inl t ↦ rw t (target-Fits rule.target_ip)
          | inr t ↦ rw t (elim (Bool-cases (str_eq rule.scope "asn_dst")) [
            | inl d ↦ rw d (asn_dst-Fits (ltb_ℤ (pos 0) rule.dst_asn) (Value.int rule.dst_asn))
            | inr d ↦ rw d unsupported-Fits
          ])
        ])
      ])
    ]

    traffic_condition-Fits :
        (ps : Row fl) → AreBound (fixed cutoff rule ++ ps) (traffic_condition rule ∷ [])
    unfolding AreBound placeholders name_at is_bound ascii bytes_eq traffic_condition
    traffic_condition-Fits ps = elim (Bool-cases (ltb_ℤ (pos 0) rule.min_sent)) [
      | inl e ↦ rw e ((refl, tt), tt)
      | inr e ↦ rw e (tt, tt)
    ]

    loss_conditions-Fits : (ps : Row fl) → AreBound (fixed cutoff rule ++ ps) (loss_conditions rule)
    unfolding AreBound placeholders name_at is_bound ascii bytes_eq loss_conditions
    loss_conditions-Fits ps = elim (Bool-cases (str_eq rule.metric "target_lost")) [
      | inl e ↦ rw e (tt, tt)
      | inr e ↦ rw e (elim (Bool-cases (Float.lt fl (Float.of_nat fl 0) rule.min_loss)) [
        | inl p ↦ rw p ((refl, tt), tt)
        | inr p ↦ rw p tt
      ])
    ]

    cutoff-Fits :
        (ps : Row fl) → AreBound (fixed cutoff rule ++ ps) (ascii "e.last_seen >= $cutoff" ∷ [])
    unfolding AreBound placeholders name_at is_bound ascii bytes_eq
    cutoff-Fits ps = ((refl, tt), tt)

    IsReady : AlertError ⊎ BuiltQuery fl → Type 0
    IsReady (inl e) = Unit
    IsReady (inr q) =
        AreBound (with_cutoff cutoff q).params q.conditions
        × Memᴰ (ascii "e.last_seen >= $cutoff") q.conditions

    build_from-IsReady :
        (f : AlertError ⊎ Filter fl) → Fits cutoff rule f → IsReady (build_from rule f)
    unfolding IsReady Fits AreBound build_from with_cutoff
    build_from-IsReady (inl e) h = tt
    build_from-IsReady (inr f) h =
        let ps : Row fl = f.params in
        (
          (
            (traffic_condition-Fits ps).0,
            (
              (cutoff-Fits ps).0,
              All-append
                  (λ text.
                    All (λ name. is_bound (fixed cutoff rule ++ ps) name ≡ true)
                      (placeholders text))
                  (loss_conditions rule) f.conditions (loss_conditions-Fits ps) h,
            ),
          ),
          Memᴰ.tail (Memᴰ.head refl),
        )

  -- In the query of every rule whose scope is known, each name behind a dollar sign in the conditions
  -- is one of the parameters, and a condition keeps out the edges that are stale.
  pub build_alert_cypher-AreBound :
      (cutoff : ℤ) (rule : AlertRuleSpec fl) (q : BuiltQuery fl)
      → build_alert_cypher rule ≡ inr q
      → AreBound (with_cutoff cutoff q).params q.conditions
        × Memᴰ (ascii "e.last_seen >= $cutoff") q.conditions
  unfolding IsReady build_alert_cypher
  build_alert_cypher-AreBound cutoff rule q e =
      subst (IsReady cutoff rule) e
        (build_from-IsReady cutoff rule (scope_filter rule) (scope_filter-Fits cutoff rule))
