-- ===== src/Examples/Requests.antt =====
-- The read API: pages, issues and the cache.
use ripestream.Base.{
  keep, ◌≤◌, ℕ, ◌<◌, ◌≡◌, ◌↔◌, refl, true, false, String, List, [], ◌∷◌, length, take, arith, some,
  none, inl, inr,
}
use ripestream.Base.Int.{pos, negsuc, ◌≤ℤ◌}
use ripestream.Api.Page.{page_params, respond_page}
use ripestream.Api.Page.Whole.{page_params_bounds, respond_page-lookahead}
use ripestream.Api.Issues.{Issue, issue_less, dedupe_issues, page_limit, rank_issues}
use ripestream.Api.Issues.Rank.{issue_less-order}
use ripestream.Api.Issues.Shown.{Shows, wanted, rank_issues-Shows}
use ripestream.Api.Issues.Dedupe.{upsert_all, dedupe_issues-upsert_all}
use ripestream.Api.Cache.{Load, new_refresh_cache, refreshes, get}
use ripestream.Api.Cache.Stale.{get-refreshes-Failed}
use ripestream.Examples.{whole}

-- limit=5000, offset=-3 and a default of 50
page_params_bounds_example :
    let p = page_params (some (pos 5000)) (some (negsuc 2)) (pos 50) in
    (pos 1 ≤ℤ p.limit) × (p.limit ≤ℤ pos 100) × (pos 0 ≤ℤ p.offset)
page_params_bounds_example =
    page_params_bounds (some (pos 5000)) (some (negsuc 2)) (pos 50) (omega arith)

abbrev rows : List ℕ
rows = 5 ∷ 6 ∷ 7 ∷ []

respond_page-lookahead_example :
    ((respond_page (take 3 rows) 2).rows ≡ take 2 rows)
    × (((respond_page (take 3 rows) 2).has_more ≡ true) ↔ (2 < length rows))
respond_page-lookahead_example = respond_page-lookahead 2 rows

abbrev issue : ℕ → String → String → ℕ → Issue whole
issue id severity source samples = record {
  id = id ∷ [];
  kind = "target";
  severity = severity;
  prose = [];
  loss_pct = 90;
  probe_count = pos 4;
  sample_count = pos samples;
  last_seen = pos 1000;
  confidence = "high";
  source = source;
}

abbrev some_issues : List (Issue whole)
some_issues =
    issue 1 "watch" "detection" 30
    ∷ issue 2 "critical" "detection" 10
    ∷ issue 1 "high" "alert" 0
    ∷ []

issue_less-order_example :
    let a = issue 1 "watch" "detection" 30 in
    let b = issue 2 "critical" "detection" 10 in
    let c = issue 1 "high" "alert" 0 in
    (issue_less a a ≡ false)
    × (issue_less a b ≡ true → issue_less b c ≡ true → issue_less a c ≡ true)
    × (issue_less a b ≡ false → issue_less b a ≡ false → a.id ≡ b.id)
issue_less-order_example =
    issue_less-order (issue 1 "watch" "detection" 30) (issue 2 "critical" "detection" 10)
      (issue 1 "high" "alert" 0) (inr (inr refl)) (inl refl) (inr (inl refl))

-- Two issues of one identifier are one, and the limit leaves out the other.
rank_issues-Shows_example :
    Shows 1 (keep (wanted "") (upsert_all [] some_issues)) (rank_issues (pos 1) "" some_issues [])
    × (1 ≤ 1)
    × (1 ≤ 50)
unfolding page_limit
rank_issues-Shows_example =
    rank_issues-Shows (pos 1) "" some_issues [] (inr (inr refl), (inl refl, (inr (inl refl), tt)))

dedupe_issues-upsert_all_example : dedupe_issues some_issues ≡ upsert_all [] some_issues
dedupe_issues-upsert_all_example = dedupe_issues-upsert_all some_issues

abbrev loaded : Load ℕ
loaded = record { done = false; result = some 42; took_ms = 12 }

abbrev timed_out : Load ℕ
timed_out = record { done = false; result = none; took_ms = 300000 }

get-refreshes-Failed_example :
    get 0 (refreshes new_refresh_cache (loaded ∷ timed_out ∷ timed_out ∷ [])) ≡ (42, true, true)
get-refreshes-Failed_example =
    get-refreshes-Failed 0 42 new_refresh_cache loaded (timed_out ∷ timed_out ∷ []) refl refl
      ((refl, refl), ((refl, refl), tt))
