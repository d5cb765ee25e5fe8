-- ===== src/Graph/Search/Listing.antt =====
-- What a list of search results promises.
use ripestream.Base.{ℕ, ◌≤◌, ◌<◌, List, Bytes, length, All}
use ripestream.Base.Sorted.{sort_by, IsSorted}
use ripestream.Graph.Search.{SearchResult, dedupe_search, hit_less}
use ripestream.Graph.Search.Keys.{AreDistinct, Listed}

-- The results of the hits: no more than the limit, each among the hits, one for each key, by rank and
-- within a rank by the number of addresses; with fewer than the limit no key of a hit is missing.
pub record IsListing (lower : Bytes) (n : ℕ) (hits out : List SearchResult) : Type 1 where
  pub bounded : length out ≤ n
  pub distinct : AreDistinct out
  pub sorted : IsSorted (hit_less lower) out
  pub among : (P : SearchResult → Type 0) → All P hits → All P out
  pub whole : length out < n → All (Listed out) hits

module _ (lower : Bytes) (n : ℕ) (hits : List SearchResult) where
  abbrev ranked : List SearchResult
  ranked = sort_by (hit_less lower) (dedupe_search hits)
