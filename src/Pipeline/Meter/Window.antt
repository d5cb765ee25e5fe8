-- ===== src/Pipeline/Meter/Window.antt =====
-- The counts of the last minute are exact.
use ripestream.Base.{
  ℕ, zero, suc, ◌+◌, ◌%◌, ◌<◌, ◌≤◌, ◌≡◌, refl, ◌≢◌, sym, ap, ◌∙◌, true, false, List, [], ◌∷◌,
  if◌then◌else◌, ◌⊎◌, get_or, replicate, arith, length, length-set, get_or-set_self, get_or-set_ne,
  Bool-cases, inl, inr,
}
use native.Mathlib.Decide.{ℕ_discrete}
use ripestream.Base.Int.{ℤ, pos, negsuc, ◌+ℤ◌, ◌-ℤ◌, ◌≤ℤ◌, ◌<ℤ◌, eqb_ℤ, pos_part, int_laws}
use ripestream.Pipeline.Meter.{
  Meter, Sample, empty_bucket, new_meter, slot, window_seconds, u64, observe_at, count_at,
  observe_all, samples_from, snapshot_at, sum_from, first_rate_second,
}

pub slot-lt : (s : ℤ) → slot s < window_seconds
unfolding slot
slot-lt (pos n) = ground arith
slot-lt (negsuc n) = ground arith

-- Two seconds less than a minute apart do not share a bucket.
pub slot-injective : (s t : ℤ) → s ≤ℤ t → t <ℤ s +ℤ pos 60 → slot s ≡ slot t → s ≡ t
unfolding slot ◌+ℤ◌
slot-injective (pos n) (pos m) h k e = ground arith
slot-injective (negsuc n) (pos m) h k e = ground arith
slot-injective (negsuc n) (negsuc m) h k e = ground arith
slot-injective (pos n) (negsuc m) h k e = ground arith

-- How often a second was observed.
abbrev pub occurrences : ℤ → List ℤ → ℕ
occurrences s [] = 0
occurrences s (t ∷ ts) = (if eqb_ℤ t s then 1 else 0) + occurrences s ts

-- The clock does not go back, and ends at `now`.
abbrev pub Clock : ℤ → ℤ → List ℤ → Type 0
Clock lo now [] = lo ≤ℤ now
Clock lo now (t ∷ ts) = (lo ≤ℤ t) × Clock t now ts

Clock-le : (lo now : ℤ) (ts : List ℤ) → Clock lo now ts → lo ≤ℤ now
Clock-le lo now [] h = h
Clock-le lo now (t ∷ ts) h = omega (arith, Clock-le t now ts h.1)

Is60 : Meter → Type 0
Is60 m = length m.buckets ≡ window_seconds

observe_at-Is60 : (m : Meter) (t : ℤ) → Is60 m → Is60 (observe_at m t)
unfolding Is60 observe_at
observe_at-Is60 m t h = length-set m.buckets (slot t) _ ∙ h

count_at-same :
    (m : Meter) (t : ℤ) → Is60 m → count_at (observe_at m t) t ≡ (count_at m t + 1) % u64
unfolding Is60 observe_at count_at
count_at-same m t h =
    rw (get_or-set_self m.buckets (slot t) _ empty_bucket (omega (arith, slot-lt t, h)))
      (ground arith)

count_at-other :
    (m : Meter) (t s : ℤ) → slot t ≢ slot s → count_at (observe_at m t) s ≡ count_at m s
unfolding observe_at count_at
count_at-other m t s h = rw (get_or-set_ne m.buckets (slot t) (slot s) _ empty_bucket h)

count_at-evicted :
    (m : Meter) (t s : ℤ)
    → Is60 m
    → slot t ≡ slot s
    → eqb_ℤ t s ≡ false
    → count_at (observe_at m t) s ≡ 0
unfolding Is60 observe_at count_at
count_at-evicted m t s h e ne = rw (← e) (
    rw (get_or-set_self m.buckets (slot t) _ empty_bucket (omega (arith, slot-lt t, h)))
      (ground arith))

-- Nothing was counted for `s` yet, or its second has come.
abbrev Reached : Meter → ℤ → ℤ → Type 0
Reached m s lo = (count_at m s ≡ 0) ⊎ (s ≤ℤ lo)

eqb_ℤ→eq : (a b : ℤ) → eqb_ℤ a b ≡ true → a ≡ b
eqb_ℤ→eq a b h = ground arith

eqb_ℤ_refl : (a : ℤ) → eqb_ℤ a a ≡ true
eqb_ℤ_refl a = ground arith

module _ (s now : ℤ) (recent : now <ℤ s +ℤ pos 60) where
  not-shared : (t : ℤ) → s ≤ℤ t → t ≤ℤ now → slot t ≡ slot s → eqb_ℤ t s ≢ false
  not-shared t h k e ne =
      let same : s ≡ t = slot-injective s t h (omega (arith, recent)) (sym e) in
      cc (ne, eqb_ℤ_refl t, same)

  missing :
      (m : Meter) (lo t : ℤ)
      → Reached m s lo
      → lo ≤ℤ t
      → t ≤ℤ now
      → slot t ≡ slot s
      → eqb_ℤ t s ≡ false
      → count_at m s ≡ 0
  missing m lo t (inl zero_yet) h k e ne = zero_yet
  missing m lo t (inr come) h k e ne = absurd (not-shared t (omega arith) k e ne)

  count_at-observe_at :
      (m : Meter) (lo t : ℤ)
      → Is60 m
      → Reached m s lo
      → count_at m s < u64
      → lo ≤ℤ t
      → t ≤ℤ now
      → (count_at (observe_at m t) s ≡ (count_at m s + (if eqb_ℤ t s then 1 else 0)) % u64)
        × Reached (observe_at m t) s t
  count_at-observe_at m lo t b r c h k = elim (Bool-cases (eqb_ℤ t s)) [
    | inl e ↦ rw (e, eqb_ℤ→eq t s e) (count_at-same m s b, inr (omega arith))
    | inr ne ↦ elim (ℕ_discrete (slot t) (slot s)) [
      | no apart ↦ rw (ne, count_at-other m t s apart) (omega arith, omega arith)
      | yes shared ↦
          rw (ne, count_at-evicted m t s b shared ne)
            (omega (arith, missing m lo t r h k shared ne), inl refl)
    ]
  ]

  count_at-observe_all :
      (m : Meter) (lo : ℤ) (ts : List ℤ)
      → Is60 m
      → Reached m s lo
      → count_at m s < u64
      → Clock lo now ts
      → count_at (observe_all m ts) s ≡ (count_at m s + occurrences s ts) % u64
  unfolding observe_all
  count_at-observe_all m lo [] b r c h = omega arith
  count_at-observe_all m lo (t ∷ ts) b r c h =
      let (count, reached) = count_at-observe_at m lo t b r c h.0 (Clock-le t now ts h.1) in
      let later =
        count_at-observe_all (observe_at m t) t ts (observe_at-Is60 m t b) reached
          (omega (arith, count)) h.1 in
      omega (arith, later, count)

get_or-replicate : (n i : ℕ) → get_or (replicate n empty_bucket) i empty_bucket ≡ empty_bucket
get_or-replicate zero i = refl
get_or-replicate (suc n) zero = refl
get_or-replicate (suc n) (suc i) = get_or-replicate n i

count_at-empty :
    (m : Meter) (s : ℤ) → get_or m.buckets (slot s) empty_bucket ≡ empty_bucket → count_at m s ≡ 0
unfolding count_at
count_at-empty m s e = rw e (ground arith)

count_at-new_meter : (started s : ℤ) → count_at (new_meter started) s ≡ 0
count_at-new_meter started s =
    count_at-empty (new_meter started) s (get_or-replicate window_seconds (slot s))

-- With a clock that does not go back, the count of any second of the last minute is the number of
-- records observed in it, modulo 2^64.
count_at-last_minute :
    (started s now : ℤ) (ts : List ℤ)
    → now <ℤ s +ℤ pos 60
    → Clock started now ts
    → count_at (observe_all (new_meter started) ts) s ≡ occurrences s ts % u64
count_at-last_minute started s now ts recent clock =
    count_at-observe_all s now recent (new_meter started) started ts (unfold Is60 in refl)
      (inl (count_at-new_meter started s)) (omega (arith, count_at-new_meter started s)) clock
    ∙ ap (λ c. (c + occurrences s ts) % u64) (count_at-new_meter started s)
    ∙ omega arith

total-observe_all :
    (m : Meter) (ts : List ℤ)
    → m.total < u64
    → (observe_all m ts).total ≡ (m.total + length ts) % u64
unfolding observe_all observe_at
total-observe_all m [] h = omega arith
total-observe_all m (t ∷ ts) h = omega (arith, total-observe_all (observe_at m t) ts (omega arith))

-- The series and the sum that a list of observation times stands for.
abbrev pub series : List ℤ → ℤ → ℕ → List Sample
series ts from zero = []
series ts from (suc n) =
    record { timestamp = from; tests = occurrences from ts % u64 } ∷ series ts (from +ℤ pos 1) n

abbrev pub series_sum : List ℤ → ℤ → ℕ → ℕ
series_sum ts from zero = 0
series_sum ts from (suc n) = occurrences from ts + series_sum ts (from +ℤ pos 1) n

rounds-le : (now first : ℤ) → now -ℤ pos 5 ≤ℤ first → pos_part (now -ℤ first) ≤ 5
unfolding ◌-ℤ◌
rounds-le now first h = ground arith

module _ (started now : ℤ) (ts : List ℤ) (clock : Clock started now ts) where
  abbrev observed : Meter
  observed = observe_all (new_meter started) ts

  samples_from-series :
      (from : ℤ) (n : ℕ) → now <ℤ from +ℤ pos 60 → samples_from observed from n ≡ series ts from n
  unfolding samples_from
  samples_from-series from zero h = refl
  samples_from-series from (suc n) h =
      rw (count_at-last_minute started from now ts h clock)
        (rw (samples_from-series (from +ℤ pos 1) n (omega int_laws)))

  sum_from-series :
      (from : ℤ) (n : ℕ)
      → now <ℤ from +ℤ pos 60
      → sum_from observed from n ≡ series_sum ts from n % u64
  unfolding sum_from
  sum_from-series from zero h = refl
  sum_from-series from (suc n) h = omega (
    arith,
    count_at-last_minute started from now ts h clock,
    sum_from-series (from +ℤ pos 1) n (omega int_laws),
  )

  first_rate_second-ge : (m : Meter) → now -ℤ pos 5 ≤ℤ first_rate_second m now
  unfolding first_rate_second
  first_rate_second-ge m = ground arith

  series_window : now <ℤ now -ℤ pos 60 +ℤ pos 1 +ℤ pos 60
  series_window = omega int_laws

  rate_window : (m : Meter) → now <ℤ first_rate_second m now +ℤ pos 60
  rate_window m = omega (int_laws, first_rate_second-ge m)

  rate_rounds : (m : Meter) → pos_part (now -ℤ first_rate_second m now) ≤ 5
  rate_rounds m = rounds-le now (first_rate_second m now) (first_rate_second-ge m)

  -- With a clock that does not go back, a snapshot has the number of all records as its total, the
  -- counts of the last 60 seconds as its samples, and as its rate total the records of the seconds that
  -- the rate is taken over, at most 5; the counts are modulo 2^64.
  pub snapshot_at-exact :
      ((snapshot_at observed now).total ≡ length ts % u64)
      × ((snapshot_at observed now).samples ≡ series ts (now -ℤ pos 60 +ℤ pos 1) 60)
      × ((snapshot_at observed now).rate_total
          ≡ series_sum ts (first_rate_second observed now) (snapshot_at observed now).rate_seconds
            % u64)
      × ((snapshot_at observed now).rate_seconds ≤ 5)
  unfolding snapshot_at
  snapshot_at-exact = (
    total-observe_all (new_meter started) ts (omega arith) ∙ omega arith,
    samples_from-series (now -ℤ pos 60 +ℤ pos 1) 60 series_window,
    sum_from-series (first_rate_second observed now)
        (pos_part (now -ℤ first_rate_second observed now)) (rate_window observed),
    rate_rounds observed,
  )
