-- ===== src/Graph/Search/Query.antt =====
-- `Search` of internal/graph/search.go.
use ripestream.Base.{
  ℕ, ltb, leb, Bool, ◌||◌, List, [], ◌++◌, map, Option, none, some, Bytes, length, take,
  if◌then◌else◌,
}
use ripestream.Base.Int.{ℤ, pos, pos_part, leb_ℤ, ltb_ℤ}
use ripestream.Base.Ascii.{to_lower}
use ripestream.Base.Sorted.{sort_by}
use ripestream.Store.Statements.{trim_space}
use ripestream.Graph.Values.{Row, Go}
use ripestream.Atlas.Probes.{is_blank}
use ripestream.Graph.Search.{
  SearchResult, SearchDb, is_numeric_prefix, looks_like_ip, as_result, ip_result, probe_result,
  dedupe_search, hit_less,
}

unfoldable pub search_limit : ℤ → ℕ
search_limit limit =
    if leb_ℤ limit (pos 0) then 12 else if ltb_ℤ (pos 50) limit then 12 else pos_part limit

module _ (go : Go) where
  -- The hits of a query, none if it fails.
  unfoldable pub hits_of :
      (Row (Go.fl go) → SearchResult) → Option (List (Row (Go.fl go))) → List SearchResult
  hits_of result none = []
  hits_of result (some rows) = map result rows

  -- All hits, in the order of the queries.
  unfoldable pub collect : SearchDb go → Bytes → ℕ → List SearchResult
  collect db query n =
      let lower : Bytes = to_lower query in
      let numeric : Bool = is_numeric_prefix query in
      hits_of (as_result go) (SearchDb.by_org db lower n)
      ++ (if numeric then hits_of (as_result go) (SearchDb.by_asn db query n) else [])
      ++ (if looks_like_ip query then hits_of (ip_result go) (SearchDb.by_addr db query n) else [])
      ++ (if numeric || leb 2 (length query)
          then hits_of (probe_result go) (
              if numeric
              then SearchDb.by_probe_id db query n
              else SearchDb.by_probe_name db lower n)
          else [])

unfoldable pub arrange : Bytes → ℕ → List SearchResult → List SearchResult
arrange lower n hits =
    let sorted : List SearchResult = sort_by (hit_less lower) (dedupe_search hits) in
    if ltb n (length sorted) then take n sorted else sorted

unfoldable pub search : (go : Go) → SearchDb go → Bytes → ℤ → List SearchResult
search go db text limit =
    let query : Bytes = trim_space text in
    let n : ℕ = search_limit limit in
    if is_blank query then [] else arrange (to_lower query) n (collect go db query n)
