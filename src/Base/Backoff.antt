-- ===== src/Base/Backoff.antt =====
-- The capped exponential backoff of the retry loops:
-- `backoff = time.Duration(math.Min(float64(backoff*2), float64(maxBackoff)))`, in seconds.
-- The durations are far below 2^53 ns, so the conversions to float64 are exact.
use Prim.Native.Nat.{min}
use native.Mathlib.Nat.{pow-suc}
use ripestream.Base.Lists.{length, All}
use mathlib.Core.Path.{◌≡◌, refl, ◌∙◌, ap}
use mathlib.Core.List.{List, [], ◌∷◌}
use Prim.Native.Nat.{ℕ, zero, suc, ◌*◌, ◌^◌, ◌≤◌}
use native.Mathlib.Omega.{arith}
use native.Mathlib.Decide.{dec_le}

abbrev pub next_backoff : ℕ → ℕ → ℕ
next_backoff cap b = min (b * 2) cap

-- The waits of a loop that starts with `b` and waits `n` times.
abbrev pub backoffs : ℕ → ℕ → ℕ → List ℕ
backoffs cap b zero = []
backoffs cap b (suc n) = b ∷ backoffs cap (next_backoff cap b) n

-- The wait number `k`, counted from 0.
abbrev pub nth_backoff : ℕ → ℕ → ℕ → ℕ
nth_backoff cap b zero = b
nth_backoff cap b (suc k) = nth_backoff cap (next_backoff cap b) k

pow_pos : (k : ℕ) → 1 ≤ 2 ^ k
pow_pos zero = omega arith
pow_pos (suc k) = rw pow-suc (omega (arith, pow_pos k))

le_mul_pos : (x y : ℕ) → 1 ≤ y → x ≤ x * y
le_mul_pos x y h = grind arith

capped : (cap b k : ℕ) → min (next_backoff cap b * 2 ^ k) cap ≡ min (b * 2 ^ suc k) cap
capped cap b k = rw pow-suc (split (dec_le (b * 2) cap))
  where
    split : Dec (b * 2 ≤ cap) → min (next_backoff cap b * 2 ^ k) cap ≡ min (b * (2 ^ k * 2)) cap
    split (yes small) = let e : next_backoff cap b ≡ b * 2 = omega arith in rw e (omega arith)
    split (no large) =
        let e : next_backoff cap b ≡ cap = omega arith in
        rw e (
          omega (arith, le_mul_pos cap (2 ^ k) (pow_pos k), le_mul_pos (b * 2) (2 ^ k) (pow_pos k)))

pub nth_backoff_lem : (cap b k : ℕ) → b ≤ cap → nth_backoff cap b k ≡ min (b * 2 ^ k) cap
nth_backoff_lem cap b zero h = omega arith
nth_backoff_lem cap b (suc k) h =
    nth_backoff_lem cap (next_backoff cap b) k (omega arith) ∙ capped cap b k

pub backoffs-le : (cap b n : ℕ) → b ≤ cap → All (λ w. w ≤ cap) (backoffs cap b n)
backoffs-le cap b zero h = tt
backoffs-le cap b (suc n) h = (h, backoffs-le cap (next_backoff cap b) n (omega arith))

pub length-backoffs : (cap b n : ℕ) → length (backoffs cap b n) ≡ n
length-backoffs cap b zero = refl
length-backoffs cap b (suc n) = ap suc (length-backoffs cap (next_backoff cap b) n)
