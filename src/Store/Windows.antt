-- ===== src/Store/Windows.antt =====
-- internal/store/window.go and the scopes of internal/store/timeseries.go: the loss and the times of
-- a window against the one before it, and the bounded lists of probes and targets in a query.
-- Times and durations are whole nanoseconds; the aggregate of a window is ClickHouse's answer.
pub mod Scopes
use ripestream.Base.{
  ℕ, ◌*◌, ltb, Bool, true, false, not, ◌&&◌, ◌||◌, List, [], ◌∷◌, ◌++◌, Option, none, some, String,
  str_eq, Bytes, if◌then◌else◌, length, ◌⊎◌, inl, inr,
}
use ripestream.Base.Int.{ℤ, pos, ◌-ℤ◌, ltb_ℤ, leb_ℤ, eqb_ℤ}
use ripestream.Base.Float.{Float}
use ripestream.Base.Text.{ltb_bytes}
use ripestream.Base.Assoc.{member}
use ripestream.Base.Sorted.{sort_by}
use ripestream.Graph.Values.{Go, clamp_limit}

-- `windowAgg`.
pub record WindowAgg (fl : Float) : Type 0 where
  pub sent : ℤ
  pub rcvd : ℤ
  pub samples : ℤ
  pub avg_rtt : Float.F fl
  pub median_rtt : Float.F fl

-- `WindowSummary`.
pub record WindowSummary (fl : Float) : Type 0 where
  pub from : ℤ
  pub to : ℤ
  pub sent : ℤ
  pub rcvd : ℤ
  pub lost : ℤ
  pub loss_pct : Float.F fl
  pub samples : ℤ
  pub avg_rtt_ms : Float.F fl
  pub median_rtt_ms : Float.F fl
  pub baseline_available : Bool
  pub baseline_loss_pct : Float.F fl
  pub baseline_avg_rtt_ms : Float.F fl
  pub change_loss_pct : Float.F fl
  pub change_rtt_pct : Float.F fl

pub data WindowError : Type 0 where
  invalid_window window_too_large : WindowError
  query_failed : Bytes → WindowError

-- 24 hours, and 30 of them.
abbrev pub day : ℤ
day = pos (86400 * 1000000000)

abbrev pub max_window : ℤ
max_window = pos (30 * 86400 * 1000000000)

abbrev pub or_time : Option ℤ → ℤ → ℤ
or_time none t = t
or_time (some t) _ = t

module _ (go : Go) (mul : Float.F (Go.fl go) → Float.F (Go.fl go) → Float.F (Go.fl go)) where
  abbrev of_ℕ : ℕ → Float.F (Go.fl go)
  of_ℕ n = Float.of_nat (Go.fl go) n

  unfoldable pub loss_pct : WindowAgg (Go.fl go) → Float.F (Go.fl go)
  loss_pct a =
      if ltb_ℤ (pos 0) a.sent
      then Float.div (Go.fl go) (mul (of_ℕ 100) (Go.of_int go (a.sent -ℤ a.rcvd)))
          (Go.of_int go a.sent)
      else of_ℕ 0

  -- The summary of the window alone.
  unfoldable pub current : ℤ → ℤ → WindowAgg (Go.fl go) → WindowSummary (Go.fl go)
  current from to a = record {
    from = from;
    to = to;
    sent = a.sent;
    rcvd = a.rcvd;
    lost = a.sent -ℤ a.rcvd;
    loss_pct = loss_pct a;
    samples = a.samples;
    avg_rtt_ms = a.avg_rtt;
    median_rtt_ms = a.median_rtt;
    baseline_available = false;
    baseline_loss_pct = of_ℕ 0;
    baseline_avg_rtt_ms = of_ℕ 0;
    change_loss_pct = of_ℕ 0;
    change_rtt_pct = of_ℕ 0;
  }

  unfoldable pub rtt_change : WindowSummary (Go.fl go) → WindowAgg (Go.fl go) → Float.F (Go.fl go)
  rtt_change ws base =
      if Float.lt (Go.fl go) (of_ℕ 0) base.avg_rtt
      then Float.div (Go.fl go) (mul (of_ℕ 100) (Float.sub (Go.fl go) ws.avg_rtt_ms base.avg_rtt))
          base.avg_rtt
      else of_ℕ 0

  -- The comparison with the window before; without an answer or without samples there is none.
  unfoldable pub compared :
      WindowSummary (Go.fl go) → Bytes ⊎ WindowAgg (Go.fl go) → WindowSummary (Go.fl go)
  compared ws (inl e) = ws
  compared ws (inr base) =
      if ltb_ℤ (pos 0) base.samples && ltb_ℤ (pos 0) base.sent
      then record ws {
        baseline_available = true;
        baseline_loss_pct = loss_pct base;
        baseline_avg_rtt_ms = base.avg_rtt;
        change_loss_pct = Float.sub (Go.fl go) ws.loss_pct (loss_pct base);
        change_rtt_pct = rtt_change ws base;
      }
      else ws

  unfoldable pub summarize :
      (ℤ → ℤ → Bytes ⊎ WindowAgg (Go.fl go))
      → ℤ
      → ℤ
      → Bytes ⊎ WindowAgg (Go.fl go)
      → WindowError ⊎ WindowSummary (Go.fl go)
  summarize aggregate from to (inl e) = inl (WindowError.query_failed e)
  summarize aggregate from to (inr a) =
      inr (compared (current from to a) (aggregate (from -ℤ (to -ℤ from)) from))

  -- `PingWindowSummary` at the time `now`, on the aggregate of each window.
  unfoldable pub ping_window_summary :
      (ℤ → ℤ → Bytes ⊎ WindowAgg (Go.fl go))
      → ℤ
      → Option ℤ
      → Option ℤ
      → WindowError ⊎ WindowSummary (Go.fl go)
  ping_window_summary aggregate now from? to? =
      let to : ℤ = or_time to? now in
      let from : ℤ = or_time from? (to -ℤ day) in
      if leb_ℤ to from
      then inl WindowError.invalid_window
      else if ltb_ℤ max_window (to -ℤ from)
      then inl WindowError.window_too_large
      else summarize aggregate from to (aggregate from to)

-- The loop over the targets of a query: those that are not empty, until there are 500.
unfoldable pub target_set : List Bytes → List Bytes → List Bytes
target_set found [] = found
target_set found ([] ∷ ts) = target_set found ts
target_set found ((c ∷ cs) ∷ ts) =
    let same = target_set found ts in
    let more = target_set (found ++ (c ∷ cs) ∷ []) ts in
    if not (ltb (length found) 500) || member (c ∷ cs) found then same else more

unfoldable pub target_list : List Bytes → List Bytes
target_list targets = sort_by ltb_bytes (target_set [] targets)

abbrev pub has_probe : ℤ → List ℤ → Bool
has_probe id [] = false
has_probe id (x ∷ xs) = eqb_ℤ x id || has_probe id xs

-- The same for the identifiers of probes.
unfoldable pub probe_set : List ℤ → List ℤ → List ℤ
probe_set found [] = found
probe_set found (id ∷ ids) =
    let same = probe_set found ids in
    let more = probe_set (found ++ id ∷ []) ids in
    if not (ltb_ℤ (pos 0) id && ltb (length found) 500) || has_probe id found then same else more

unfoldable pub probe_list : List ℤ → List ℤ
probe_list probes = sort_by ltb_ℤ (probe_set [] probes)

pub data ScopeError : Type 0 where
  start_not_before_end no_probe no_target : ScopeError

-- The checks of `buildPingTargetBaselinesQuery`, with the targets that its query names.
unfoldable pub baseline_targets : ℤ → ℤ → List Bytes → ScopeError ⊎ List Bytes
baseline_targets from to targets =
    if ltb_ℤ from to
    then some_targets (target_list targets)
    else inl ScopeError.start_not_before_end
  where
    some_targets : List Bytes → ScopeError ⊎ List Bytes
    some_targets [] = inl ScopeError.no_target
    some_targets (t ∷ ts) = inr (t ∷ ts)

-- The checks of `buildPingPairSeriesQuery`, with the probes and the targets that its query names.
unfoldable pub pair_scope : List ℤ → List Bytes → ScopeError ⊎ (List ℤ × List Bytes)
pair_scope [] targets = inl ScopeError.no_probe
pair_scope (p ∷ ps) [] = inl ScopeError.no_target
pair_scope (p ∷ ps) (t ∷ ts) = inr (p ∷ ps, t ∷ ts)

unfoldable pub pair_series_scope :
    ℤ → Option ℤ → Option ℤ → List ℤ → List Bytes → ScopeError ⊎ (List ℤ × List Bytes)
pair_series_scope now from? to? probes targets =
    let to : ℤ = or_time to? now in
    let from : ℤ = or_time from? (to -ℤ day) in
    if ltb_ℤ from to
    then pair_scope (probe_list probes) (target_list targets)
    else inl ScopeError.start_not_before_end

-- The number of buckets of the two series.
unfoldable pub ping_buckets : ℤ → ℕ
ping_buckets n = clamp_limit n 60 1000

unfoldable pub pair_buckets : ℤ → ℕ
pair_buckets n = clamp_limit n 60 500

-- The expression of a metric of `PingSeries`.
unfoldable pub metric_expr : String → Option String
metric_expr metric =
    if str_eq metric "loss_pct"
    then some "round(100.0 * (toFloat64(sent) - toFloat64(rcvd)) / nullIf(toFloat64(sent), 0))"
    else if str_eq metric "avg_rtt_ms" || str_eq metric "min_rtt_ms" || str_eq metric "max_rtt_ms"
    then some metric
    else none
