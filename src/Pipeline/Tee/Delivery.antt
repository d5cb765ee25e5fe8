-- ===== src/Pipeline/Tee/Delivery.antt =====
-- What each sink of the tee gets.
use ripestream.Base.{
  ℕ, zero, suc, ◌+◌, ◌-◌, ◌*◌, ◌%◌, ◌^◌, ◌≤◌, Bool, true, false, List, [], ◌∷◌, ◌++◌, ltb,
  if◌then◌else◌, length, ◌≡◌, refl, ap, ◌∙◌, arith, All, length-append, append_assoc, Bool-cases,
  ◌==◌, inl, inr, Option, none, some,
}
use mathlib.Core.List.{Sublist, sublist-append_left}
use mathlib.Core.List.Sublist
use ripestream.Pipeline.Tee.{
  Sink, Tee, Move, arrives, receives, finishes, arrive, offer, drops, offer_all, count_drops,
  receive, receive_at, move, run, start, open_sinks,
}

module _ {ℓ} {R : Type ℓ} where
  -- All that the tee has put into a sink's channel.
  abbrev pub accepted : Sink R → List R
  accepted s = s.delivered ++ s.buffer

  abbrev pub accepted_total : List (Sink R) → ℕ
  accepted_total [] = 0
  accepted_total (s ∷ ss) = length (accepted s) + accepted_total ss

  accepted-receive : (s : Sink R) → accepted (receive s) ≡ accepted s
  unfolding receive
  accepted-receive s = go s.buffer refl
    where
      go :
          (b : List R)
          → s.buffer ≡ b
          → accepted (elim b [
            | [] ↦ s
            | r ∷ rest ↦ record s { buffer = rest; delivered = s.delivered ++ r ∷ [] }
          ])
            ≡ accepted s
      go [] e = refl
      go (r ∷ rest) e = rw (e, append_assoc)

  accepted_total-receive_at :
      (i : ℕ) (ss : List (Sink R)) → accepted_total (receive_at i ss) ≡ accepted_total ss
  unfolding receive_at
  accepted_total-receive_at i [] = refl
  accepted_total-receive_at zero (s ∷ ss) = rw accepted-receive
  accepted_total-receive_at (suc i) (s ∷ ss) = rw (accepted_total-receive_at i ss)

  accepted-offer :
      (s : Sink R) (r : R) → length (accepted (offer s r)) + drops s ≡ length (accepted s) + 1
  unfolding offer drops
  accepted-offer s r = elim (Bool-cases (ltb (length s.buffer) s.capacity)) [
    | inl e ↦ rw e (
        omega (
          arith,
          length-append s.delivered (s.buffer ++ r ∷ []),
          length-append s.delivered s.buffer,
          length-append s.buffer (r ∷ []),
        ))
    | inr e ↦ rw e (omega arith)
  ]

  -- The sinks that a record does not fit into.
  full_sinks : List (Sink R) → ℕ
  full_sinks [] = 0
  full_sinks (s ∷ ss) = drops s + full_sinks ss

  count_drops-full_sinks :
      (n m : ℕ) (ss : List (Sink R))
      → n ≡ m % 2 ^ 64
      → count_drops n ss ≡ (m + full_sinks ss) % 2 ^ 64
  unfolding count_drops full_sinks
  count_drops-full_sinks n m [] e = omega arith
  count_drops-full_sinks n m (s ∷ ss) e =
      count_drops-full_sinks ((n + drops s) % 2 ^ 64) (m + drops s) ss (omega arith) ∙ omega arith

  accepted_total-offer_all :
      (ss : List (Sink R)) (r : R)
      → accepted_total (offer_all ss r) + full_sinks ss ≡ accepted_total ss + length ss
  unfolding offer_all full_sinks
  accepted_total-offer_all [] r = omega arith
  accepted_total-offer_all (s ∷ ss) r =
      omega (arith, accepted-offer s r, accepted_total-offer_all ss r)

  length-offer_all : (ss : List (Sink R)) (r : R) → length (offer_all ss r) ≡ length ss
  unfolding offer_all
  length-offer_all [] r = refl
  length-offer_all (s ∷ ss) r = ap suc (length-offer_all ss r)

  length-receive_at : (i : ℕ) (ss : List (Sink R)) → length (receive_at i ss) ≡ length ss
  unfolding receive_at
  length-receive_at i [] = refl
  length-receive_at zero (s ∷ ss) = refl
  length-receive_at (suc i) (s ∷ ss) = ap suc (length-receive_at i ss)

  -- The books of a tee with `n` sinks: each record read was observed once, and was put into each
  -- channel or counted as dropped there, modulo 2^64.
  pub record Balance (n : ℕ) (t : Tee R) : Type ℓ where
    pub sinks_kept : length t.sinks ≡ n
    pub observed_once : t.observed ≡ length t.seen
    pub not_more : accepted_total t.sinks ≤ length t.seen * n
    pub drops_counted : t.dropped ≡ (length t.seen * n - accepted_total t.sinks) % 2 ^ 64

  arrive-Balance :
      (n : ℕ) (done : Bool) (t : Tee R) (r : R) → Balance n t → Balance n (arrive done t r)
  unfolding arrive
  arrive-Balance n true t r b = b
  arrive-Balance n false t r b =
      let more : length (t.seen ++ r ∷ []) * n ≡ length t.seen * n + n =
        rw (length-append t.seen (r ∷ [])) (grind arith) in
      record {
        sinks_kept = length-offer_all t.sinks r ∙ b.sinks_kept;
        observed_once = omega (arith, length-append t.seen (r ∷ []), b.observed_once);
        not_more =
            omega (arith, more, accepted_total-offer_all t.sinks r, b.sinks_kept, b.not_more);
        drops_counted =
            count_drops-full_sinks t.dropped (length t.seen * n - accepted_total t.sinks) t.sinks
              b.drops_counted
            ∙ ap (λ d. d % 2 ^ 64)
                (omega (arith, more, accepted_total-offer_all t.sinks r, b.sinks_kept, b.not_more));
      }

  move-Balance : (n : ℕ) (t : Tee R) (m : Move R) → Balance n t → Balance n (move t m)
  unfolding move
  move-Balance n t (arrives r) b = arrive-Balance n t.closed t r b
  move-Balance n t (receives i) b = record {
    sinks_kept = length-receive_at i t.sinks ∙ b.sinks_kept;
    observed_once = b.observed_once;
    not_more = rw (accepted_total-receive_at i t.sinks) b.not_more;
    drops_counted = rw (accepted_total-receive_at i t.sinks) b.drops_counted;
  }
  move-Balance n t finishes b = record {
    sinks_kept = b.sinks_kept;
    observed_once = b.observed_once;
    not_more = b.not_more;
    drops_counted = b.drops_counted;
  }

  run-Balance : (n : ℕ) (t : Tee R) (ms : List (Move R)) → Balance n t → Balance n (run t ms)
  unfolding run
  run-Balance n t [] b = b
  run-Balance n t (m ∷ ms) b = run-Balance n (move t m) ms (move-Balance n t m b)

  start-Balance : (capacities : List ℕ) → Balance (length capacities) (start capacities)
  start-Balance capacities = record {
    sinks_kept = kept capacities;
    observed_once = refl;
    not_more = omega (arith, empty capacities);
    drops_counted = omega (arith, empty capacities);
  }
    where
      kept : (ns : List ℕ) → length (open_sinks {R = R} ns) ≡ length ns
      kept [] = refl
      kept (n ∷ ns) = ap suc (kept ns)

      empty : (ns : List ℕ) → accepted_total (open_sinks {R = R} ns) ≡ 0
      empty [] = refl
      empty (n ∷ ns) = omega (arith, empty ns)

  -- After any interleaving of records, receives and the end of the input, each record read was observed
  -- once, and was, for each sink, put into its channel or dropped: the sinks accepted no more than the
  -- records times the sinks, and the counter of drops is what they lack of it, modulo 2^64.
  pub run-start-Balance :
      (capacities : List ℕ) (ms : List (Move R))
      → Balance (length capacities) (run (start capacities) ms)
  run-start-Balance capacities ms = run-Balance _ _ ms (start-Balance capacities)

  -- One sink on its own, with number `i`: the records while the loop runs, and its own receives.
  unfoldable pub solo : ℕ → Bool → Sink R → List (Move R) → Sink R
  solo i closed s [] = s
  solo i closed s (arrives r ∷ ms) = solo i closed (if closed then s else offer s r) ms
  solo i closed s (receives j ∷ ms) = solo i closed (if j == i then receive s else s) ms
  solo i closed s (finishes ∷ ms) = solo i true s ms

  abbrev pub sink_at : ℕ → List (Sink R) → Option (Sink R)
  sink_at i [] = none
  sink_at zero (s ∷ ss) = some s
  sink_at (suc i) (s ∷ ss) = sink_at i ss

  sink_at-offer_all :
      (i : ℕ) (ss : List (Sink R)) (r : R) (s : Sink R)
      → sink_at i ss ≡ some s
      → sink_at i (offer_all ss r) ≡ some (offer s r)
  unfolding offer_all
  sink_at-offer_all i [] r s e = cc
  sink_at-offer_all zero (x ∷ ss) r s e = cc
  sink_at-offer_all (suc i) (x ∷ ss) r s e = sink_at-offer_all i ss r s e

  sink_at-receive_at :
      (i j : ℕ) (ss : List (Sink R)) (s : Sink R)
      → sink_at i ss ≡ some s
      → sink_at i (receive_at j ss) ≡ some (if j == i then receive s else s)
  unfolding receive_at
  sink_at-receive_at i j [] s e = cc
  sink_at-receive_at zero zero (x ∷ ss) s e = cc
  sink_at-receive_at zero (suc j) (x ∷ ss) s e = ground arith
  sink_at-receive_at (suc i) zero (x ∷ ss) s e = ground arith
  sink_at-receive_at (suc i) (suc j) (x ∷ ss) s e =
      rw (sink_at-receive_at i j ss s e) (ground arith)

  sink_at-arrive :
      (i : ℕ) (done : Bool) (t : Tee R) (r : R) (s : Sink R)
      → sink_at i t.sinks ≡ some s
      → sink_at i (arrive done t r).sinks ≡ some (if done then s else offer s r)
  unfolding arrive
  sink_at-arrive i true t r s e = e
  sink_at-arrive i false t r s e = sink_at-offer_all i t.sinks r s e

  closed-arrive :
      (done : Bool) (t : Tee R) (r : R) → t.closed ≡ done → (arrive done t r).closed ≡ done
  unfolding arrive
  closed-arrive true t r e = e
  closed-arrive false t r e = refl

  run-solo_at :
      (i : ℕ) (ms : List (Move R)) (t : Tee R) (done : Bool) (s : Sink R)
      → t.closed ≡ done
      → sink_at i t.sinks ≡ some s
      → sink_at i (run t ms).sinks ≡ some (solo i done s ms)
  unfolding run solo
  run-solo_at i [] t done s c e = e
  run-solo_at i (arrives r ∷ ms) t done s c e =
      run-solo_at i ms (move t (arrives r)) done (if done then s else offer s r)
        (unfold move in closed-arrive t.closed t r refl ∙ c)
        (unfold move in
          sink_at-arrive i t.closed t r s e ∙ ap (λ b. some (if b then s else offer s r)) c)
  run-solo_at i (receives j ∷ ms) t done s c e =
      run-solo_at i ms (move t (receives j)) done (if j == i then receive s else s)
        (unfold move in c) (unfold move in sink_at-receive_at i j t.sinks s e)
  run-solo_at i (finishes ∷ ms) t done s c e =
      run-solo_at i ms (move t finishes) true s (unfold move in refl) (unfold move in e)

  -- Each sink of a tee fares as it would alone: its buffer and what it received depend only on the records,
  -- the end of the loop, and its own receives, whatever the other sinks do.
  pub run-solo :
      (i : ℕ) (ms : List (Move R)) (t : Tee R) (s : Sink R)
      → sink_at i t.sinks ≡ some s
      → sink_at i (run t ms).sinks ≡ some (solo i t.closed s ms)
  run-solo i ms t s = run-solo_at i ms t t.closed s refl

  -- The sink's records are some of those read, in their order.
  abbrev pub InOrder : List R → Sink R → Type ℓ
  InOrder seen s = Sublist (accepted s) seen

  offer-InOrder :
      (seen : List R) (s : Sink R) (r : R) → InOrder seen s → InOrder (seen ++ r ∷ []) (offer s r)
  unfolding offer
  offer-InOrder seen s r h = elim (Bool-cases (ltb (length s.buffer) s.capacity)) [
    | inl e ↦ rw (e, ← append_assoc) (Sublist.append h (Sublist.refl (r ∷ [])))
    | inr e ↦ rw e (Sublist.trans h (sublist-append_left seen (r ∷ [])))
  ]

  offer_all-InOrder :
      (seen : List R) (ss : List (Sink R)) (r : R)
      → All (InOrder seen) ss
      → All (InOrder (seen ++ r ∷ [])) (offer_all ss r)
  unfolding offer_all
  offer_all-InOrder seen [] r h = tt
  offer_all-InOrder seen (s ∷ ss) r h =
      (offer-InOrder seen s r h.0, offer_all-InOrder seen ss r h.1)

  receive_at-InOrder :
      (seen : List R) (i : ℕ) (ss : List (Sink R))
      → All (InOrder seen) ss
      → All (InOrder seen) (receive_at i ss)
  unfolding receive_at
  receive_at-InOrder seen i [] h = h
  receive_at-InOrder seen zero (s ∷ ss) h = (rw accepted-receive h.0, h.1)
  receive_at-InOrder seen (suc i) (s ∷ ss) h = (h.0, receive_at-InOrder seen i ss h.1)

  arrive-InOrder :
      (done : Bool) (t : Tee R) (r : R)
      → All (InOrder t.seen) t.sinks
      → All (InOrder (arrive done t r).seen) (arrive done t r).sinks
  unfolding arrive
  arrive-InOrder true t r h = h
  arrive-InOrder false t r h = offer_all-InOrder t.seen t.sinks r h

  -- If what each sink accepted so far is a sublist of the records read, it stays one: no sink gets a
  -- record twice, out of order, or one that was not read.
  pub run-InOrder :
      (t : Tee R) (ms : List (Move R))
      → All (InOrder t.seen) t.sinks
      → All (InOrder (run t ms).seen) (run t ms).sinks
  unfolding run
  run-InOrder t [] h = h
  run-InOrder t (arrives r ∷ ms) h =
      run-InOrder (move t (arrives r)) ms (unfold move in arrive-InOrder t.closed t r h)
  run-InOrder t (receives i ∷ ms) h =
      run-InOrder (move t (receives i)) ms (unfold move in receive_at-InOrder t.seen i t.sinks h)
  run-InOrder t (finishes ∷ ms) h = run-InOrder (move t finishes) ms (unfold move in h)
