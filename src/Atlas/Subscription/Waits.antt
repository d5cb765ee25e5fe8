-- ===== src/Atlas/Subscription/Waits.antt =====
-- The waits of a subscription.
use ripestream.Base.{
  ℕ, suc, Bool, true, false, ◌||◌, if◌then◌else◌, ◌≤◌, ◌≡◌, refl, ap, List, [], ◌∷◌, All, arith,
  inl, inr, Bool-cases,
}
use ripestream.Base.Backoff.{next_backoff, backoffs, backoffs-le}
use ripestream.Atlas.Subscription.{
  Connection, StreamEnd, closed_cleanly, context_ended, broken, Subscribed, max_backoff, wait,
  after_end, round, subscription_loop, run_subscription,
}

-- How often a subscription waits: once behind each connection, a clean close included, up to the
-- first that the context ends or keeps from being opened, or the wait that it ends.
abbrev ends : StreamEnd → Bool
ends context_ended = true
ends closed_cleanly = false
ends broken = false

unfoldable pub waits_begun : List Connection → ℕ
waits_begun [] = 0
waits_begun (c ∷ cs) =
    let later = waits_begun cs in
    if c.done || ends c.end then 0 else if c.done_waiting then 1 else suc later

-- Waits that double up to the limit.
abbrev IsDoubling : ℕ → ℕ → Subscribed → Type 0
IsDoubling b n s = s.waits ≡ backoffs max_backoff b n

wait-IsDoubling :
    (b n : ℕ) (c : Connection) (later : Subscribed)
    → IsDoubling (next_backoff max_backoff b) n later
    → IsDoubling b (if c.done_waiting then 1 else suc n) (wait b c later)
wait-IsDoubling b n c later h = elim (Bool-cases c.done_waiting) [
  | inl e ↦ rw e refl
  | inr e ↦ rw e (ap (◌∷◌ b) h)
]

after_end-IsDoubling :
    (x : StreamEnd) (b n : ℕ) (c : Connection) (later : Subscribed)
    → IsDoubling (next_backoff max_backoff b) n later
    → IsDoubling b
        (if ends x then 0 else if c.done_waiting then 1 else suc n)
        (after_end x b c later)
after_end-IsDoubling context_ended b n c later h = refl
after_end-IsDoubling closed_cleanly b n c later h = wait-IsDoubling b n c later h
after_end-IsDoubling broken b n c later h = wait-IsDoubling b n c later h

round-IsDoubling :
    (done : Bool) (b n : ℕ) (c : Connection) (later : Subscribed)
    → IsDoubling (next_backoff max_backoff b) n later
    → IsDoubling b
        (if done || ends c.end then 0 else if c.done_waiting then 1 else suc n)
        (round done b c later)
round-IsDoubling true b n c later h = refl
round-IsDoubling false b n c later h = after_end-IsDoubling c.end b n c later h

subscription_loop-IsDoubling :
    (b : ℕ) (cs : List Connection) → IsDoubling b (waits_begun cs) (subscription_loop b cs)
unfolding subscription_loop waits_begun
subscription_loop-IsDoubling b [] = refl
subscription_loop-IsDoubling b (c ∷ cs) =
    round-IsDoubling c.done b (waits_begun cs) c _
      (subscription_loop-IsDoubling (next_backoff max_backoff b) cs)

-- Whatever the connections do, a subscription waits once behind each connection that the context does
-- not end, a clean close included, as long as the context lasts: 1 second after the first and then
-- twice as long each time, up to 60 seconds, and it never starts again from 1.
pub run_subscription-backoffs :
    (cs : List Connection)
    → ((run_subscription cs).waits ≡ backoffs max_backoff 1 (waits_begun cs))
      × All (λ w. w ≤ max_backoff) (run_subscription cs).waits
unfolding run_subscription
run_subscription-backoffs cs = (
  subscription_loop-IsDoubling 1 cs,
  rw (subscription_loop-IsDoubling 1 cs) (backoffs-le max_backoff 1 (waits_begun cs) (omega arith)),
)
