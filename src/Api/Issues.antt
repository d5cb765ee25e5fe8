-- ===== src/Api/Issues.antt =====
-- internal/api/issues.go: severity, ranking and deduplication of the issues of GET /api/issues.
pub mod Rank
pub mod Sorted
pub mod Order
pub mod Shown
pub mod Dedupe
use ripestream.Base.{
  ℕ, suc, Bool, true, false, not, ◌&&◌, ◌||◌, List, [], ◌∷◌, ◌++◌, Option, none, some, String,
  str_eq, Bytes, ltb, leb, ◌==◌, if◌then◌else◌, length, take, get_or, set, keep,
}
use ripestream.Base.Int.{ℤ, pos, ltb_ℤ, leb_ℤ, eqb_ℤ, pos_part}
use ripestream.Base.Float.{Float}
use ripestream.Base.Text.{bytes_eq, ltb_bytes}

-- `Issue`; the fields that no code of this file reads back are one text, `prose`.
pub record Issue (fl : Float) : Type 0 where
  pub id : Bytes
  pub kind : String
  pub severity : String
  pub prose : List String
  pub loss_pct : Float.F fl
  pub probe_count : ℤ
  pub sample_count : ℤ
  pub last_seen : ℤ
  pub confidence : String
  pub source : String

abbrev pub min_probes : ℤ
min_probes = pos 3

abbrev pub min_samples : ℤ
min_samples = pos 5

-- The two last branches of the source return the same.
unfoldable pub severity_from_loss : (fl : Float) → Float.F fl → ℤ → String
severity_from_loss fl loss probes =
    if Float.le fl (Float.of_nat fl 80) loss && leb_ℤ min_probes probes
    then "critical"
    else if Float.le fl (Float.of_nat fl 20) loss
    then "high"
    else if Float.lt fl (Float.of_nat fl 0) loss
    then "watch"
    else "watch"

unfoldable pub confidence_from : ℤ → ℤ → String
confidence_from probes samples =
    if leb_ℤ (pos 5) probes && leb_ℤ (pos 20) samples
    then "high"
    else if leb_ℤ min_probes probes && leb_ℤ min_samples samples
    then "medium"
    else "low"

unfoldable pub sev_rank : String → ℕ
sev_rank s =
    if str_eq s "critical"
    then 0
    else if str_eq s "high"
    then 1
    else if str_eq s "watch"
    then 2
    else 3

unfoldable pub parse_range : String → Option ℕ
parse_range s =
    if str_eq s "15m"
    then some 900
    else if str_eq s "30m"
    then some 1800
    else if str_eq s "1h"
    then some 3600
    else if str_eq s "6h"
    then some 21600
    else if str_eq s "24h"
    then some 86400
    else if str_eq s "7d"
    then some 604800
    else none

-- the map `seen`, newest entry first
abbrev pub find_index : Bytes → List (Bytes × ℕ) → Option ℕ
find_index k [] = none
find_index k ((j, i) ∷ m) = if bytes_eq j k then some i else find_index k m

-- the limit of the handler `issues`
unfoldable pub page_limit : ℤ → ℕ
page_limit limit =
    let n = if ltb_ℤ limit (pos 1) then pos 10 else limit in
    pos_part (if ltb_ℤ (pos 50) n then pos 50 else n)

module _ {fl : Float} where
  abbrev pub is_alert : Issue fl → Bool
  is_alert a = str_eq a.source "alert"

  unfoldable pub issue_less : Issue fl → Issue fl → Bool
  unfolding sev_rank
  issue_less a b =
      if is_alert a && not (is_alert b)
      then true
      else if not (is_alert a) && is_alert b
      then false
      else if not (str_eq a.severity b.severity)
      then ltb (sev_rank a.severity) (sev_rank b.severity)
      else if not (eqb_ℤ a.sample_count b.sample_count)
      then ltb_ℤ b.sample_count a.sample_count
      else if not (eqb_ℤ a.last_seen b.last_seen)
      then ltb_ℤ b.last_seen a.last_seen
      else ltb_bytes a.id b.id

  -- `out[idx] = iss` where an alert meets what is no alert
  unfoldable pub prefer_alert : List (Issue fl) → ℕ → Issue fl → List (Issue fl)
  prefer_alert out idx iss =
      if is_alert iss && not (is_alert (get_or out idx iss)) then set out idx iss else out

  unfoldable pub dedupe_loop :
      List (Bytes × ℕ) → List (Issue fl) → List (Issue fl) → List (Issue fl)
  unfolding prefer_alert
  dedupe_loop seen out [] = out
  dedupe_loop seen out (iss ∷ rest) = elim (find_index iss.id seen) [
    | some idx ↦ dedupe_loop seen (prefer_alert out idx iss) rest
    | none ↦ dedupe_loop ((iss.id, length out) ∷ seen) (out ++ iss ∷ []) rest
  ]

  unfoldable pub dedupe_issues : List (Issue fl) → List (Issue fl)
  unfolding dedupe_loop
  dedupe_issues issues = dedupe_loop [] [] issues

  -- `sort.SliceStable` by `issueLess`, by stable insertion: an issue goes in front of the
  -- first that is not less than it.
  unfoldable pub insert_issue : Issue fl → List (Issue fl) → List (Issue fl)
  insert_issue a [] = a ∷ []
  insert_issue a (b ∷ bs) =
      let rest = insert_issue a bs in if issue_less b a then b ∷ rest else a ∷ b ∷ bs

  unfoldable pub sort_issues : List (Issue fl) → List (Issue fl)
  unfolding insert_issue
  sort_issues [] = []
  sort_issues (a ∷ rest) = insert_issue a (sort_issues rest)

  -- The tail of the handler `issues`: from the detected issues and the alerts to the response.
  unfoldable pub rank_issues : ℤ → String → List (Issue fl) → List (Issue fl) → List (Issue fl)
  unfolding page_limit
  rank_issues limit severity detected alerts =
      let ranked = sort_issues (dedupe_issues (detected ++ alerts)) in
      let filtered =
        if str_eq severity "" then ranked else keep (λ i. str_eq i.severity severity) ranked in
      let n = page_limit limit in if ltb n (length filtered) then take n filtered else filtered
