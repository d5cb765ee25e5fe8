-- ===== src/Graph/Loop/Ledger.antt =====
-- What the graph writer owes to each record that it takes.
use ripestream.Base.{
  ℕ, ◌+◌, ◌%◌, ◌<◌, Bool, true, false, List, [], ◌∷◌, ◌++◌, Option, none, some, Bytes, leb, ◌==◌,
  if◌then◌else◌, ◌≡◌, refl, sym, ap, ◌∙◌, arith, inl, inr, Bool-cases, Option-cases, append-nil,
}
use mathlib.Core.Option
use ripestream.Base.Int.{ℤ}
use ripestream.Base.Float.{Float}
use ripestream.Graph.Parse.{Hop, PingPayload}
use ripestream.Graph.Writer.{AtlasRecord, Batch, cleared, size_of, u64, ingest}
use ripestream.Graph.Writer.Joined.{join, join-cleared, join_assoc, ingest-join}
use ripestream.Graph.Loop.{
  GraphWriter, idle, Event, ticked, received, closed, cancelled, Status, running, returned, settle,
  flush, flush_full, take_in, receive, drain, step, run,
}

module _ {fl : Float} where
  -- The operations of all batches sent, in order.
  abbrev pub joined : List (Batch fl × Bool) → Batch fl
  joined [] = cleared
  joined (s ∷ ss) = join s.0 (joined ss)

  abbrev pub or_cleared : Option (Batch fl) → Batch fl
  or_cleared none = cleared
  or_cleared (some b) = b

  abbrev pub count_skip : Option (Batch fl) → ℕ
  count_skip none = 1
  count_skip (some b) = 0

  joined-append :
      (ss ts : List (Batch fl × Bool)) → joined (ss ++ ts) ≡ join (joined ss) (joined ts)
  joined-append [] ts = refl
  joined-append (s ∷ ss) ts =
      ap (join s.0) (joined-append ss ts) ∙ sym (join_assoc s.0 (joined ss) (joined ts))

  abbrev pub ok_size : List (Batch fl × Bool) → ℕ
  ok_size [] = 0
  ok_size (s ∷ ss) = (if s.1 then size_of s.0 else 0) + ok_size ss

  ok_size-append : (ss ts : List (Batch fl × Bool)) → ok_size (ss ++ ts) ≡ ok_size ss + ok_size ts
  ok_size-append [] ts = omega arith
  ok_size-append (s ∷ ss) ts = omega (arith, ok_size-append ss ts)

  sent-joined :
      (ss : List (Batch fl × Bool)) (b : Batch fl) (ok : Bool)
      → join (joined (ss ++ (b, ok) ∷ [])) cleared ≡ join (joined ss) b
  sent-joined ss b ok =
      join-cleared (joined (ss ++ (b, ok) ∷ []))
      ∙ joined-append ss ((b, ok) ∷ [])
      ∙ ap (join (joined ss)) (join-cleared b)

snoc_append :
    (xs : List AtlasRecord) (r : AtlasRecord) (ys : List AtlasRecord)
    → (xs ++ r ∷ []) ++ ys ≡ xs ++ r ∷ ys
snoc_append [] r ys = refl
snoc_append (x ∷ xs) r ys = ap (◌∷◌ x) (snoc_append xs r ys)

-- The records that the events before the end of the loop, and the one that ends it, take in.
abbrev pub taken : List Event → List AtlasRecord
taken [] = []
taken (ticked ok ∷ events) = taken events
taken (received r ok ∷ events) = r ∷ taken events
taken (closed ok ∷ events) = []
taken (cancelled rs ok ∷ events) = rs

module _ {fl : Float} (decode_hops : Bytes → Option (List (Hop fl)))
    (decode_ping : Bytes → Option (PingPayload fl)) (find : Bytes → Option (ℤ × Bytes)) where
  -- The operations of a record on its own, and of several in order.
  abbrev pub operations : AtlasRecord → Option (Batch fl)
  operations r = ingest decode_hops decode_ping find r cleared

  abbrev pub owed : List AtlasRecord → Batch fl
  owed [] = cleared
  owed (r ∷ rs) = join (or_cleared (operations r)) (owed rs)

  abbrev pub skips : List AtlasRecord → ℕ
  skips [] = 0
  skips (r ∷ rs) = count_skip (operations r) + skips rs

  owed-append : (rs ts : List AtlasRecord) → owed (rs ++ ts) ≡ join (owed rs) (owed ts)
  owed-append [] ts = refl
  owed-append (r ∷ rs) ts =
      ap (join (or_cleared (operations r))) (owed-append rs ts)
      ∙ sym (join_assoc (or_cleared (operations r)) (owed rs) (owed ts))

  skips-append : (rs ts : List AtlasRecord) → skips (rs ++ ts) ≡ skips rs + skips ts
  skips-append [] ts = omega arith
  skips-append (r ∷ rs) ts = omega (arith, skips-append rs ts)

  owed-one :
      (seen : List AtlasRecord) (r : AtlasRecord)
      → owed (seen ++ r ∷ []) ≡ join (owed seen) (or_cleared (operations r))
  owed-one seen r =
      owed-append seen (r ∷ []) ∙ ap (join (owed seen)) (join-cleared (or_cleared (operations r)))

  -- The books of the writer after the records `seen`.
  pub record Accounts (seen : List AtlasRecord) (w : GraphWriter fl) : Type 0 where
    pub in_order : join (joined w.sent) w.pending ≡ owed seen
    pub skips_counted : w.skipped ≡ skips seen % u64
    pub upserts_counted : w.upserted ≡ ok_size w.sent % u64

  abbrev pub Settled : ℕ → List AtlasRecord → Status fl → Type 0
  Settled size seen (running w) = Accounts seen w × (size_of w.pending < size)
  Settled size seen (returned w) = Accounts seen w × (size_of w.pending ≡ 0)

  settle-Accounts :
      (ok : Bool) (seen : List AtlasRecord) (w : GraphWriter fl)
      → Accounts seen w
      → Accounts seen (settle ok w)
  unfolding settle
  settle-Accounts true seen w a = record {
    in_order = sent-joined w.sent w.pending true ∙ a.in_order;
    skips_counted = a.skips_counted;
    upserts_counted =
        omega (arith, a.upserts_counted, ok_size-append w.sent ((w.pending, true) ∷ []));
  }
  settle-Accounts false seen w a = record {
    in_order = sent-joined w.sent w.pending false ∙ a.in_order;
    skips_counted = a.skips_counted;
    upserts_counted =
        omega (arith, a.upserts_counted, ok_size-append w.sent ((w.pending, false) ∷ []));
  }

  flush-Accounts :
      (ok : Bool) (seen : List AtlasRecord) (w : GraphWriter fl)
      → Accounts seen w
      → Accounts seen (flush ok w)
  unfolding flush
  flush-Accounts ok seen w a = elim (Bool-cases (size_of w.pending == 0)) [
    | inl e ↦ rw e a
    | inr e ↦ rw e (settle-Accounts ok seen w a)
  ]

  settle-size : (ok : Bool) (w : GraphWriter fl) → size_of (settle ok w).pending ≡ 0
  unfolding settle
  settle-size true w = refl
  settle-size false w = refl

  flush-size : (ok : Bool) (w : GraphWriter fl) → size_of (flush ok w).pending ≡ 0
  unfolding flush
  flush-size ok w = elim (Bool-cases (size_of w.pending == 0)) [
    | inl e ↦ rw e (ground arith)
    | inr e ↦ rw e (settle-size ok w)
  ]

  take_in-Accounts :
      (seen : List AtlasRecord) (w : GraphWriter fl) (r : AtlasRecord) (o : Option (Batch fl))
      → operations r ≡ o
      → Accounts seen w
      → Accounts (seen ++ r ∷ []) (take_in w (Option.map (join w.pending) o))
  take_in-Accounts seen w r none e a = record {
    in_order =
        a.in_order
        ∙ sym (
            owed-one seen r
            ∙ ap (λ o. join (owed seen) (or_cleared o)) e
            ∙ join-cleared (owed seen));
    skips_counted = omega (arith, a.skips_counted, skips-append seen (r ∷ []), ap count_skip e);
    upserts_counted = a.upserts_counted;
  }
  take_in-Accounts seen w r (some b) e a = record {
    in_order =
        sym (join_assoc (joined w.sent) w.pending b)
        ∙ ap (λ x. join x b) a.in_order
        ∙ sym (owed-one seen r ∙ ap (λ o. join (owed seen) (or_cleared o)) e);
    skips_counted = omega (arith, a.skips_counted, skips-append seen (r ∷ []), ap count_skip e);
    upserts_counted = a.upserts_counted;
  }

  -- A record of the channel, whatever waits.
  ingested-Accounts :
      (seen : List AtlasRecord) (w : GraphWriter fl) (r : AtlasRecord)
      → Accounts seen w
      → Accounts (seen ++ r ∷ []) (take_in w (ingest decode_hops decode_ping find r w.pending))
  ingested-Accounts seen w r a =
      rw (ingest-join decode_hops decode_ping find r w.pending)
        (take_in-Accounts seen w r (operations r) refl a)

  drain-Accounts :
      (seen : List AtlasRecord) (w : GraphWriter fl) (rs : List AtlasRecord)
      → Accounts seen w
      → Accounts (seen ++ rs) (drain decode_hops decode_ping find w rs)
  unfolding drain
  drain-Accounts seen w [] a = rw append-nil a
  drain-Accounts seen w (r ∷ rs) a =
      rw (← snoc_append seen r rs)
        (drain-Accounts (seen ++ r ∷ []) _ rs (ingested-Accounts seen w r a))

  flush_full-Settled :
      (size : ℕ) (ok : Bool) (seen : List AtlasRecord) (w : GraphWriter fl)
      → 0 < size
      → Accounts seen w
      → Settled size seen (running (flush_full size ok w))
  unfolding flush_full
  flush_full-Settled size ok seen w p a = elim (Bool-cases (leb size (size_of w.pending))) [
    | inl full ↦ rw full (flush-Accounts ok seen w a, omega (arith, flush-size ok w))
    | inr room ↦ rw room (a, ground arith)
  ]

  receive-Settled :
      (size : ℕ) (ok : Bool) (seen : List AtlasRecord) (w : GraphWriter fl) (r : AtlasRecord)
      → 0 < size
      → Settled size seen (running w)
      → Settled size (seen ++ r ∷ []) (running (receive decode_hops decode_ping find size ok w r))
  unfolding receive
  receive-Settled size ok seen w r p s =
      elim (Option-cases (ingest decode_hops decode_ping find r w.pending)) [
        | inl e ↦ rw e (rw e at (ingested-Accounts seen w r s.0), s.1)
        | inr (b, e) ↦ rw e (
            flush_full-Settled size ok (seen ++ r ∷ []) (take_in w (some b)) p
              (rw e at (ingested-Accounts seen w r s.0)))
      ]

  run-Settled :
      (size : ℕ) (seen : List AtlasRecord) (w : GraphWriter fl) (events : List Event)
      → 0 < size
      → Settled size seen (running w)
      → Settled size (seen ++ taken events) (run decode_hops decode_ping find size w events)
  unfolding run step
  run-Settled size seen w [] p s = rw append-nil s
  run-Settled size seen w (ticked ok ∷ events) p s =
      run-Settled size seen (flush ok w) events p
        (flush-Accounts ok seen w s.0, omega (arith, flush-size ok w))
  run-Settled size seen w (received r ok ∷ events) p s =
      rw (← snoc_append seen r (taken events))
        (run-Settled size (seen ++ r ∷ []) _ events p (receive-Settled size ok seen w r p s))
  run-Settled size seen w (closed ok ∷ events) p s =
      rw append-nil (flush-Accounts ok seen w s.0, flush-size ok w)
  run-Settled size seen w (cancelled rs ok ∷ events) p s =
      (flush-Accounts ok (seen ++ rs) _ (drain-Accounts seen w rs s.0), flush-size ok _)

  -- For a batch size that is not 0 and every sequence of events: the operations of the batches sent,
  -- followed by those pending, are the operations of the records taken from the channel, in their
  -- order; the counters hold the records skipped and the operations of the batches that succeeded,
  -- modulo 2^64; fewer operations than the batch size wait while the loop runs, and none when it has
  -- returned.
  pub run-Accounts :
      (size : ℕ) (events : List Event)
      → 0 < size
      → Settled size (taken events) (run decode_hops decode_ping find size idle events)
  run-Accounts size events p =
      run-Settled size [] idle events p
        (record { in_order = refl; skips_counted = refl; upserts_counted = refl }, p)
