-- ===== src/Api/Cache.antt =====
-- The background refresh cache of the overview, internal/api/cache.go: `refresh` and `get`.
pub mod Stale
use ripestream.Base.{Bool, true, false, Option, none, some, List, [], ◌∷◌, if◌then◌else◌, ℕ}

-- `refreshCache`: the last good value and what the last refresh reported.
pub record RefreshCache (A : Type 0) : Type 0 where
  pub val : Option A
  pub stale : Bool
  pub last_ms : ℕ
  pub last_ok : Bool

unfoldable pub new_refresh_cache : {A : Type 0} → RefreshCache A
new_refresh_cache = record { val = none; stale = false; last_ms = 0; last_ok = false }

-- One call of `load`: whether the context was done when it began, what `load` returned (an
-- error is `none`) and the milliseconds it took.
pub record Load (A : Type 0) : Type 0 where
  pub done : Bool
  pub result : Option A
  pub took_ms : ℕ

-- The stores that follow a load: an error keeps the value and marks it stale.
unfoldable pub store_result : {A : Type 0} → RefreshCache A → Option A → ℕ → RefreshCache A
store_result c none ms = record { val = c.val; stale = true; last_ms = ms; last_ok = false }
store_result c (some v) ms = record { val = some v; stale = false; last_ms = ms; last_ok = true }

unfoldable pub refresh : {A : Type 0} → RefreshCache A → Load A → RefreshCache A
refresh c l = if l.done then c else store_result c l.result l.took_ms

-- The refreshes that `start` runs, one after the other.
unfoldable pub refreshes : {A : Type 0} → RefreshCache A → List (Load A) → RefreshCache A
refreshes c [] = c
refreshes c (l ∷ ls) = refreshes (refresh c l) ls

-- `get`: the value (absent: the zero value), whether it is stale, and whether there is one.
unfoldable pub get : {A : Type 0} → A → RefreshCache A → A × Bool × Bool
get {A = A} zero_value c = found c.val
  where
    found : Option A → A × Bool × Bool
    found none = (zero_value, true, false)
    found (some v) = (v, c.stale, true)
