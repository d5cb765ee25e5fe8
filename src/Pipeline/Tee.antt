-- ===== src/Pipeline/Tee.antt =====
-- `TeeObserved` of internal/pipeline/tee.go. The channels of the sinks are bounded queues, and what
-- the goroutine and the sinks do is a list of moves. `Tee` is the same with no observer.
pub mod Delivery
use ripestream.Base.{
  ℕ, zero, suc, ◌+◌, ◌%◌, ◌^◌, Bool, true, false, List, [], ◌∷◌, ◌++◌, ltb, if◌then◌else◌, length,
}

-- A channel: its capacity, what it holds (oldest first), and what its sink has received.
pub record Sink {ℓ} (R : Type ℓ) : Type ℓ where
  pub capacity : ℕ
  pub buffer : List R
  pub delivered : List R

-- `seen` are the records read from `in`; `observed` counts the calls of `observe`.
pub record Tee {ℓ} (R : Type ℓ) : Type ℓ where
  pub sinks : List (Sink R)
  pub seen : List R
  pub observed : ℕ
  pub dropped : ℕ
  pub closed : Bool

-- `arrives` is a round of the loop with a record, `finishes` one with a closed `in` or a done
-- context, and `receives i` is a receive on the i-th channel.
pub data Move {ℓ} (R : Type ℓ) : Type ℓ where
  arrives : R → Move R
  receives : ℕ → Move R
  finishes : Move R

module _ {ℓ} {R : Type ℓ} where
  -- The inner select: a send that does not block, and what it adds to the drops.
  unfoldable pub offer : Sink R → R → Sink R
  offer s r =
      if ltb (length s.buffer) s.capacity then record s { buffer = s.buffer ++ r ∷ [] } else s

  unfoldable pub drops : Sink R → ℕ
  drops s = if ltb (length s.buffer) s.capacity then 0 else 1

  unfoldable pub offer_all : List (Sink R) → R → List (Sink R)
  unfolding offer
  offer_all [] r = []
  offer_all (s ∷ ss) r = offer s r ∷ offer_all ss r

  -- The counter of drops, an `atomic.Uint64`, after a record was offered to the sinks in turn.
  unfoldable pub count_drops : ℕ → List (Sink R) → ℕ
  unfolding drops
  count_drops n [] = n
  count_drops n (s ∷ ss) = count_drops ((n + drops s) % 2 ^ 64) ss

  unfoldable pub receive : Sink R → Sink R
  receive s = elim s.buffer [
    | [] ↦ s
    | r ∷ rest ↦ record s { buffer = rest; delivered = s.delivered ++ r ∷ [] }
  ]

  unfoldable pub receive_at : ℕ → List (Sink R) → List (Sink R)
  unfolding receive
  receive_at i [] = []
  receive_at zero (s ∷ ss) = receive s ∷ ss
  receive_at (suc i) (s ∷ ss) = s ∷ receive_at i ss

  -- A round of the loop with a record; the flag is whether the loop has returned.
  unfoldable pub arrive : Bool → Tee R → R → Tee R
  unfolding offer_all count_drops
  arrive true t r = t
  arrive false t r = record {
    sinks = offer_all t.sinks r;
    seen = t.seen ++ r ∷ [];
    observed = t.observed + 1;
    dropped = count_drops t.dropped t.sinks;
    closed = false;
  }

  -- One move. After the loop has returned its channels are closed, and can only be read.
  unfoldable pub move : Tee R → Move R → Tee R
  unfolding arrive receive_at
  move t (arrives r) = arrive t.closed t r
  move t (receives i) = record t { sinks = receive_at i t.sinks }
  move t finishes = record t { closed = true }

  unfoldable pub run : Tee R → List (Move R) → Tee R
  unfolding move
  run t [] = t
  run t (m ∷ ms) = run (move t m) ms

  -- Sinks of the given capacities, with nothing in them.
  abbrev pub open_sinks : List ℕ → List (Sink R)
  open_sinks [] = []
  open_sinks (n ∷ ns) = record { capacity = n; buffer = []; delivered = [] } ∷ open_sinks ns

  abbrev pub start : List ℕ → Tee R
  start capacities = record {
    sinks = open_sinks capacities;
    seen = [];
    observed = 0;
    dropped = 0;
    closed = false;
  }
