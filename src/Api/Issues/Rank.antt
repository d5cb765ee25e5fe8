-- ===== src/Api/Issues/Rank.antt =====
-- The order of the issues.
use ripestream.Base.{
  ℕ, Bool, true, false, not, ◌&&◌, ◌≡◌, refl, ◌⊎◌, inl, inr, String, str_eq, Bytes, ltb, ◌==◌,
  if◌then◌else◌, arith, Bool-cases, sym, ◌∙◌,
}
use mathlib.Core.Bool.{false≢true}
use ripestream.Base.Int.{ℤ, ltb_ℤ, eqb_ℤ}
use ripestream.Base.Float.{Float}
use ripestream.Base.Text.{
  bytes_eq, bytes_eq_iff, ltb_bytes, ltb_bytes_irrefl, ltb_bytes_trans, ltb_bytes_total,
}
use ripestream.Api.Issues.{Issue, is_alert, issue_less, sev_rank}

-- The severities that `severityFromLoss` gives.
abbrev pub IsSeverity : String → Type 0
IsSeverity s = (s ≡ "critical") ⊎ (s ≡ "high") ⊎ (s ≡ "watch")

-- What `issueLess` compares.
pub record Key : Type 0 where
  pub alert : Bool
  pub rank : ℕ
  pub samples : ℤ
  pub seen : ℤ
  pub id : Bytes

abbrev pub key_less : Key → Key → Bool
key_less a b =
    if a.alert && not b.alert
    then true
    else if not a.alert && b.alert
    then false
    else if not (a.rank == b.rank)
    then ltb a.rank b.rank
    else if not (eqb_ℤ a.samples b.samples)
    then ltb_ℤ b.samples a.samples
    else if not (eqb_ℤ a.seen b.seen)
    then ltb_ℤ b.seen a.seen
    else ltb_bytes a.id b.id

key_less_irrefl : (a : Key) → key_less a a ≡ false
key_less_irrefl a = ground (arith, ltb_bytes_irrefl a.id)

key_less_trans : (a b c : Key) → key_less a b ≡ true → key_less b c ≡ true → key_less a c ≡ true
key_less_trans a b c h k = ground (arith, ltb_bytes_trans a.id b.id c.id)

key_less_total :
    (a b : Key) → key_less a b ≡ false → key_less b a ≡ false → bytes_eq a.id b.id ≡ true
key_less_total a b h k = ground (arith, ltb_bytes_total a.id b.id)

pub key_less_asym : (a b : Key) → key_less a b ≡ true → key_less b a ≡ false
key_less_asym a b h = elim (Bool-cases (key_less b a)) [
  | inl k ↦ absurd (false≢true (sym (key_less_irrefl a) ∙ key_less_trans a b a h k))
  | inr k ↦ k
]

-- Keys neither of which is below the other agree in every field.
key_less_same :
    (a b : Key)
    → key_less a b ≡ false
    → key_less b a ≡ false
    → (a.alert ≡ b.alert) × (a.rank ≡ b.rank) × (a.samples ≡ b.samples) × (a.seen ≡ b.seen)
key_less_same a b h k = ground arith

key_less_congr :
    (a b c : Key)
    → (a.alert ≡ b.alert) × (a.rank ≡ b.rank) × (a.samples ≡ b.samples) × (a.seen ≡ b.seen)
    → a.id ≡ b.id
    → key_less c a ≡ key_less c b
key_less_congr a b c h k = rw (h.0, h.1, h.2, h.3, k) refl

pub key_less_negtrans :
    (a b c : Key) → key_less b a ≡ false → key_less c b ≡ false → key_less c a ≡ false
key_less_negtrans a b c h k = elim (Bool-cases (key_less c a)) [
  | inr n ↦ n
  | inl y ↦ elim (Bool-cases (key_less a b)) [
    | inl e ↦ absurd (false≢true (sym k ∙ key_less_trans c a b y e))
    | inr e ↦
        let ids : a.id ≡ b.id = (bytes_eq_iff a.id b.id).0 (key_less_total a b e h) in
        absurd (false≢true (sym k ∙ sym (key_less_congr a b c (key_less_same a b e h) ids) ∙ y))
  ]
]

abbrev pub key : {fl : Float} → Issue fl → Key
key a = record {
  alert = is_alert a;
  rank = sev_rank a.severity;
  samples = a.sample_count;
  seen = a.last_seen;
  id = a.id;
}

same_rank : (s t : String) → IsSeverity s → IsSeverity t → str_eq s t ≡ (sev_rank s == sev_rank t)
unfolding sev_rank
same_rank s t (inl a) (inl b) = rw (a, b)
same_rank s t (inl a) (inr (inl b)) = rw (a, b)
same_rank s t (inl a) (inr (inr b)) = rw (a, b)
same_rank s t (inr (inl a)) (inl b) = rw (a, b)
same_rank s t (inr (inl a)) (inr (inl b)) = rw (a, b)
same_rank s t (inr (inl a)) (inr (inr b)) = rw (a, b)
same_rank s t (inr (inr a)) (inl b) = rw (a, b)
same_rank s t (inr (inr a)) (inr (inl b)) = rw (a, b)
same_rank s t (inr (inr a)) (inr (inr b)) = rw (a, b)

module _ {fl : Float} where
  pub issue_less-key :
      (a b : Issue fl)
      → IsSeverity a.severity
      → IsSeverity b.severity
      → issue_less a b ≡ key_less (key a) (key b)
  unfolding issue_less
  issue_less-key a b h k = rw (same_rank a.severity b.severity h k)

  -- On issues with a known severity `issueLess` is a strict order, as a sort needs it: irreflexive and
  -- transitive, and two issues neither of which precedes the other have the same identifier.
  pub issue_less-order :
      (a b c : Issue fl)
      → IsSeverity a.severity
      → IsSeverity b.severity
      → IsSeverity c.severity
      → (issue_less a a ≡ false)
        × (issue_less a b ≡ true → issue_less b c ≡ true → issue_less a c ≡ true)
        × (issue_less a b ≡ false → issue_less b a ≡ false → a.id ≡ b.id)
  issue_less-order a b c ha hb hc =
      rw
        (
          issue_less-key a a ha ha,
          issue_less-key a b ha hb,
          issue_less-key b c hb hc,
          issue_less-key a c ha hc,
          issue_less-key b a hb ha,
        )
        (
          key_less_irrefl (key a),
          key_less_trans (key a) (key b) (key c),
          λ h k. (bytes_eq_iff a.id b.id).0 (key_less_total (key a) (key b) h k),
        )
