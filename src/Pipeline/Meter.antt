-- ===== src/Pipeline/Meter.antt =====
-- internal/pipeline/ingestion_meter.go: per-second counts in a ring of 60 buckets. A method under the
-- mutex is one step; the time is an argument, as in `observeAt` and `snapshotAt`.
pub mod Window
use ripestream.Base.{
  ℕ, zero, suc, ◌+◌, ◌-◌, ◌%◌, ◌^◌, Bool, true, false, ◌||◌, List, [], ◌∷◌, ◌==◌, if◌then◌else◌,
  get_or, set, replicate,
}
use ripestream.Base.Int.{ℤ, pos, negsuc, ◌+ℤ◌, ◌-ℤ◌, ltb_ℤ, eqb_ℤ, pos_part}

abbrev pub window_seconds : ℕ
window_seconds = 60

abbrev pub u64 : ℕ
u64 = 2 ^ 64

pub record Bucket : Type 0 where
  pub second : ℤ
  pub count : ℕ

abbrev pub empty_bucket : Bucket
empty_bucket = record { second = pos 0; count = 0 }

pub record Meter : Type 0 where
  pub started : ℤ
  pub total : ℕ
  pub buckets : List Bucket

-- NewIngestionMeter, at its time
abbrev pub new_meter : ℤ → Meter
new_meter now = record { started = now; total = 0; buckets = replicate window_seconds empty_bucket }

-- `second % ingestionWindowSeconds` of Go, which has the sign of `second`
unfoldable pub rem_window : ℤ → ℤ
rem_window (pos n) = pos (n % window_seconds)
rem_window (negsuc n) = pos 0 -ℤ pos (suc n % window_seconds)

unfoldable pub slot : ℤ → ℕ
unfolding rem_window ◌+ℤ◌ ◌-ℤ◌
slot second =
    let idx = rem_window second in
    pos_part (if ltb_ℤ idx (pos 0) then idx +ℤ pos window_seconds else idx)

abbrev bucket_at : Meter → ℤ → Bucket
bucket_at m second = get_or m.buckets (slot second) empty_bucket

-- `*b = ingestionBucket{second: second}` where the bucket is another second's
abbrev claim : Bucket → ℤ → Bucket
claim b second = if eqb_ℤ b.second second then b else record { second = second; count = 0 }

abbrev bump : Bucket → Bucket
bump b = record { second = b.second; count = (b.count + 1) % u64 }

unfoldable pub observe_at : Meter → ℤ → Meter
observe_at m second = record {
  started = if eqb_ℤ m.started (pos 0) || ltb_ℤ second m.started then second else m.started;
  total = (m.total + 1) % u64;
  buckets = set m.buckets (slot second) (bump (claim (bucket_at m second) second));
}

unfoldable pub count_at : Meter → ℤ → ℕ
count_at m second = let b = bucket_at m second in if eqb_ℤ b.second second then b.count else 0

pub record Sample : Type 0 where
  pub timestamp : ℤ
  pub tests : ℕ

-- `for second := from; …; second++`, for a number of rounds
unfoldable pub samples_from : Meter → ℤ → ℕ → List Sample
unfolding count_at ◌+ℤ◌
samples_from m from zero = []
samples_from m from (suc n) =
    record { timestamp = from; tests = count_at m from } ∷ samples_from m (from +ℤ pos 1) n

unfoldable pub sum_from : Meter → ℤ → ℕ → ℕ
unfolding count_at ◌+ℤ◌
sum_from m from zero = 0
sum_from m from (suc n) = (count_at m from + sum_from m (from +ℤ pos 1) n) % u64

-- TestsPerSecond is `rate_total / rate_seconds`, and 0 where `rate_seconds` is 0.
pub record Snapshot : Type 0 where
  pub total : ℕ
  pub rate_total : ℕ
  pub rate_seconds : ℕ
  pub samples : List Sample

unfoldable pub first_rate_second : Meter → ℤ → ℤ
unfolding ◌-ℤ◌
first_rate_second m now =
    let first = now -ℤ pos 5 in if ltb_ℤ first m.started then m.started else first

unfoldable pub snapshot_at : Meter → ℤ → Snapshot
unfolding first_rate_second samples_from sum_from ◌+ℤ◌ ◌-ℤ◌
snapshot_at m now =
    let first = first_rate_second m now in
    let rounds = pos_part (now -ℤ first) in
    record {
      total = m.total;
      rate_total = sum_from m first rounds;
      rate_seconds = rounds;
      samples = samples_from m (now -ℤ pos window_seconds +ℤ pos 1) window_seconds;
    }

-- The calls of `Observe`, at their times.
unfoldable pub observe_all : Meter → List ℤ → Meter
unfolding observe_at
observe_all m [] = m
observe_all m (t ∷ ts) = observe_all (observe_at m t) ts
