-- ===== src/Graph/Sort.antt =====
-- internal/graph/sort.go: the sort keys of the read API and the expressions that stand for them in
-- ORDER BY.
pub mod Whitelist
use ripestream.Base.{Option, none, some, String, str_eq, if◌then◌else◌}

-- `sortDir`.
unfoldable pub sort_dir : String → String
sort_dir order = if str_eq order "asc" then "ASC" else "DESC"

unfoldable pub asn_issue_sort_expr : String → Option String
asn_issue_sort_expr sort =
    if str_eq sort "loss"
    then some "avg_loss"
    else if str_eq sort "probes"
    then some "probes"
    else if str_eq sort "samples"
    then some "samples"
    else if str_eq sort "last_seen"
    then some "last_seen"
    else none

unfoldable pub probe_sort_expr : String → Option String
probe_sort_expr sort =
    if str_eq sort "loss"
    then some "avg_loss"
    else if str_eq sort "rtt"
    then some "avg_rtt"
    else if str_eq sort "last_seen"
    then some "last_seen"
    else none

unfoldable pub detail_probe_sort_expr : String → Option String
detail_probe_sort_expr sort =
    if str_eq sort "loss"
    then some "loss"
    else if str_eq sort "rtt"
    then some "rtt"
    else if str_eq sort "last_seen"
    then some "last_seen"
    else none

unfoldable pub detail_target_sort_expr : String → Option String
unfolding detail_probe_sort_expr
detail_target_sort_expr sort = detail_probe_sort_expr sort

unfoldable pub target_sort_expr : String → Option String
target_sort_expr sort =
    if str_eq sort "loss"
    then some "avg_loss"
    else if str_eq sort "rtt"
    then some "avg_rtt"
    else if str_eq sort "probes"
    then some "probes"
    else if str_eq sort "last_seen"
    then some "last_seen"
    else if str_eq sort "impact"
    then some "impact"
    else none

unfoldable pub hop_sort_expr : String → Option String
hop_sort_expr sort =
    if str_eq sort "rtt"
    then some "rtt"
    else if str_eq sort "observations"
    then some "sc"
    else if str_eq sort "last_seen"
    then some "ls"
    else none

unfoldable pub transit_sort_expr : String → Option String
transit_sort_expr sort =
    if str_eq sort "observations"
    then some "sc"
    else if str_eq sort "last_seen"
    then some "ls"
    else none

-- `validatedSort`.
unfoldable pub validated_sort : String → String → (String → Option String) → String
validated_sort sort def_expr pick = picked (pick sort)
  where
    picked : Option String → String
    picked none = def_expr
    picked (some expr) = expr
