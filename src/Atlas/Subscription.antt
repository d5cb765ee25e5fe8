-- ===== src/Atlas/Subscription.antt =====
-- `buildQueries` and `runSubscription`. What each connection and the context do is given.
pub mod Waits
use ripestream.Base.{ℕ, ◌+◌, Bool, true, false, ◌&&◌, List, [], ◌∷◌, ◌++◌, map}
use ripestream.Base.Int.{ℤ}
use ripestream.Base.Backoff.{next_backoff}

-- The query of one connection: `streamType=result` and at most one filter.
pub data Query : Type 0 where
  firehose : Query
  msm : ℤ → Query
  prb : ℤ → Query

pub record Params : Type 0 where
  pub msms : List ℤ
  pub prbs : List ℤ

abbrev none_in : List ℤ → Bool
none_in [] = true
none_in (_ ∷ _) = false

unfoldable pub build_queries : Params → List Query
build_queries p = elim (none_in p.msms && none_in p.prbs) [
  | true ↦ firehose ∷ []
  | false ↦ map msm p.msms ++ map prb p.prbs
]

-- How `streamOnce` ends: with nil, with the context, or with another error.
pub data StreamEnd : Type 0 where
  closed_cleanly : StreamEnd
  context_ended : StreamEnd
  broken : StreamEnd

-- One round: `ctx.Err()` at its head, the records and the end of its connection, and whether the
-- context ends while the loop waits.
pub record Connection : Type 0 where
  pub done : Bool
  pub records : ℕ
  pub end : StreamEnd
  pub done_waiting : Bool

-- The records counted, the waits begun, in seconds, and whether the loop has returned.
pub record Subscribed : Type 0 where
  pub count : ℕ
  pub waits : List ℕ
  pub returned : Bool

abbrev pub max_backoff : ℕ
max_backoff = 60

abbrev after_wait : ℕ → Connection → Subscribed → Subscribed
after_wait backoff c later = record {
  count = c.records + later.count;
  waits = backoff ∷ later.waits;
  returned = later.returned;
}

-- The select behind a connection.
abbrev wait : ℕ → Connection → Subscribed → Subscribed
wait backoff c later = elim c.done_waiting [
  | true ↦ record { count = c.records; waits = backoff ∷ []; returned = true }
  | false ↦ after_wait backoff c later
]

-- A connection has ended. A clean close waits as an error does.
abbrev after_end : StreamEnd → ℕ → Connection → Subscribed → Subscribed
after_end context_ended backoff c later = record { count = c.records; waits = []; returned = true }
after_end closed_cleanly backoff c later = wait backoff c later
after_end broken backoff c later = wait backoff c later

-- A round; the flag is whether the context is done at its head.
abbrev round : Bool → ℕ → Connection → Subscribed → Subscribed
round true backoff c later = record { count = 0; waits = []; returned = true }
round false backoff c later = after_end c.end backoff c later

-- `runSubscription`, from a backoff.
unfoldable pub subscription_loop : ℕ → List Connection → Subscribed
subscription_loop backoff [] = record { count = 0; waits = []; returned = false }
subscription_loop backoff (c ∷ cs) =
    round c.done backoff c (subscription_loop (next_backoff max_backoff backoff) cs)

unfoldable pub run_subscription : List Connection → Subscribed
unfolding subscription_loop
run_subscription cs = subscription_loop 1 cs
