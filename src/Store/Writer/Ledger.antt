-- ===== src/Store/Writer/Ledger.antt =====
-- What becomes of the records that the writer receives.
use ripestream.Base.{
  ℕ, ◌+◌, ◌%◌, ◌<◌, ◌≡◌, refl, Bool, true, false, List, [], ◌∷◌, ◌++◌, Option, none, some, leb,
  if◌then◌else◌, Bytes, length, arith, ap, append_assoc, append-nil, Bool-cases, inl, inr,
}
use ripestream.Store.Retry.{Attempt, Outcome, inserted, failed, retrying}
use ripestream.Store.Writer.{
  Writer, Event, ticked, received, closed, cancelled, Status, running, returned, blocked,
  flush_rows, flush, settle, step, run, idle, u64, goes_on, returns,
}

module _ {ℓ} {R : Type ℓ} where
  -- The rows of the calls, in order.
  abbrev pub rows_of : List (List R × Bool) → List R
  rows_of [] = []
  rows_of ((rs, ok) ∷ calls) = rs ++ rows_of calls

  abbrev pub count_ok : List (List R × Bool) → ℕ
  count_ok [] = 0
  count_ok ((rs, ok) ∷ calls) = (if ok then length rs else 0) + count_ok calls

  rows_of-append : (a b : List (List R × Bool)) → rows_of (a ++ b) ≡ rows_of a ++ rows_of b
  rows_of-append [] b = refl
  rows_of-append ((rs, ok) ∷ a) b = rw (rows_of-append a b) (simp append_assoc)

  count_ok-append : (a b : List (List R × Bool)) → count_ok (a ++ b) ≡ count_ok a + count_ok b
  count_ok-append [] b = omega arith
  count_ok-append ((rs, ok) ∷ a) b = omega (arith, count_ok-append a b)

  -- The records of an event, taken from the channel.
  abbrev pub records : Event R → List R
  records (ticked _) = []
  records (received r _) = r ∷ []
  records (closed _) = []
  records (cancelled rs _) = rs

  -- `seen` are the records taken from the channel so far.
  pub record Accounts (seen : List R) (w : Writer R) : Type ℓ where
    pub in_order : rows_of w.sent ++ w.batch ≡ seen
    pub counted : w.inserted_rows ≡ count_ok w.sent % u64

  -- The writer at the end of a run accounts for all that it took: what is not sent waits in a
  -- batch below the limit, and nothing waits when the loop has returned.
  abbrev pub Settled : ℕ → List R → Status R → Type ℓ
  Settled size seen (running w) = Accounts seen w × (length w.batch < size)
  Settled size seen (returned w) = Accounts seen w × (w.batch ≡ [])
  Settled size seen blocked = Unit

module _ {ℓ} {R : Type ℓ} (encode : R → Option Bytes) where
  abbrev Flushed : List R → Option (Writer R) → Type ℓ
  Flushed seen none = Unit
  Flushed seen (some w) = Accounts seen w × (w.batch ≡ [])

  settle-Flushed :
      (seen : List R) (w : Writer R) (o : Outcome)
      → Accounts seen w
      → Flushed seen (settle encode w o)
  unfolding settle
  settle-Flushed seen w inserted a = (
    record {
      in_order = simp (rows_of-append, append-nil) a.in_order;
      counted = omega (arith, count_ok-append w.sent ((w.batch, true) ∷ []), a.counted);
    },
    refl,
  )
  settle-Flushed seen w (failed e) a = (
    record {
      in_order = simp (rows_of-append, append-nil) a.in_order;
      counted = omega (arith, count_ok-append w.sent ((w.batch, false) ∷ []), a.counted);
    },
    refl,
  )
  settle-Flushed seen w retrying a = tt

  flush_rows-Flushed :
      (seen : List R) (w : Writer R) (rows : List R) (attempts : List Attempt)
      → w.batch ≡ rows
      → Accounts seen w
      → Flushed seen (flush_rows encode w rows attempts)
  unfolding flush_rows
  flush_rows-Flushed seen w [] attempts e a = (a, e)
  flush_rows-Flushed seen w (r ∷ rs) attempts e a = settle-Flushed seen w _ a

  flush-Flushed :
      (seen : List R) (w : Writer R) (attempts : List Attempt)
      → Accounts seen w
      → Flushed seen (flush encode w attempts)
  unfolding flush
  flush-Flushed seen w attempts = flush_rows-Flushed seen w w.batch attempts refl

  add-Accounts :
      (seen : List R) (w : Writer R) (rs : List R)
      → Accounts seen w
      → Accounts (seen ++ rs) (record w { batch = w.batch ++ rs })
  add-Accounts seen w rs a = record {
    in_order = rw (← append_assoc) (ap (λ t. t ++ rs) a.in_order);
    counted = a.counted;
  }

  goes_on-Settled :
      (size : ℕ) (seen : List R) (o : Option (Writer R))
      → 0 < size
      → Flushed seen o
      → Settled size seen (goes_on encode o)
  goes_on-Settled size seen none p f = tt
  goes_on-Settled size seen (some w) p f = (f.0, rw (f.1) p)

  returns-Settled :
      (size : ℕ) (seen : List R) (o : Option (Writer R))
      → Flushed seen o
      → Settled size seen (returns encode o)
  returns-Settled size seen none f = tt
  returns-Settled size seen (some w) f = f

  step-Settled :
      (size : ℕ) (seen : List R) (w : Writer R) (e : Event R)
      → 0 < size
      → Accounts seen w × (length w.batch < size)
      → Settled size (seen ++ records e) (step encode size w e)
  unfolding step
  step-Settled size seen w (ticked attempts) p s =
      rw append-nil (goes_on-Settled size seen _ p (flush-Flushed seen w attempts s.0))
  step-Settled size seen w (received r attempts) p s =
      let a = add-Accounts seen w (r ∷ []) s.0 in
      elim (Bool-cases (leb size (length (w.batch ++ r ∷ [])))) [
        | inl full ↦ rw full (goes_on-Settled size _ _ p (flush-Flushed _ _ attempts a))
        | inr room ↦ rw room (a, ground arith)
      ]
  step-Settled size seen w (closed attempts) p s =
      rw append-nil (returns-Settled size seen _ (flush-Flushed seen w attempts s.0))
  step-Settled size seen w (cancelled rs attempts) p s =
      returns-Settled size _ _ (flush-Flushed _ _ attempts (add-Accounts seen w rs s.0))

  -- The records that a run takes from the channel: those of its events up to the one that ends it.
  unfoldable pub taken : ℕ → Writer R → List (Event R) → List R
  taken size w [] = []
  taken size w (e ∷ events) = records e ++ elim (step encode size w e) [
    | running w' ↦ taken size w' events
    | returned w' ↦ []
    | blocked ↦ []
  ]

  run-Settled :
      (size : ℕ) (seen : List R) (w : Writer R) (events : List (Event R))
      → 0 < size
      → Accounts seen w × (length w.batch < size)
      → Settled size (seen ++ taken size w events) (run encode size w events)
  unfolding run taken
  run-Settled size seen w [] p s = rw append-nil s
  run-Settled size seen w (e ∷ events) p s = rw (← append_assoc) (
      go (λ w'. run-Settled size (seen ++ records e) w' events p) (step encode size w e)
        (step-Settled size seen w e p s))
    where
      go :
          ((w' : Writer R)
            → Accounts (seen ++ records e) w' × (length w'.batch < size)
            → Settled size (seen ++ records e ++ taken size w' events) (run encode size w' events))
          → (r : Status R) → Settled size (seen ++ records e) r
          → Settled size
              (seen
                ++ records e
                ++ (elim r [ running w' ↦ taken size w' events | returned w' ↦ [] | blocked ↦ [] ]))
              (elim r [
                | running w' ↦ run encode size w' events
                | returned w' ↦ returned w'
                | blocked ↦ blocked
              ])
      go later (running w') h = later w' h
      go later (returned w') h = rw append-nil h
      go later blocked h = tt

  -- For a batch size that is not 0 and every sequence of events: the batches sent, followed by the
  -- batch in hand, are the records taken from the channel in their order, each once; the counter of
  -- inserted rows counts those of the inserts that succeeded; the batch in hand is below the batch size
  -- while the loop runs, and empty when it has returned.
  pub run-idle-Settled :
      (size : ℕ) (events : List (Event R))
      → 0 < size
      → Settled size (taken size idle events) (run encode size idle events)
  run-idle-Settled size events p =
      run-Settled size [] idle events p (record { in_order = refl; counted = refl }, p)
