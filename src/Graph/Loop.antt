-- ===== src/Graph/Loop.antt =====
-- `Run` of internal/graph/store.go. The select of the loop is a list of events, each with whether
-- the flush that it may begin succeeds.
pub mod Ledger
use ripestream.Base.{
  ℕ, ◌+◌, ◌%◌, ◌*◌, Bool, true, false, List, [], ◌∷◌, ◌++◌, Option, none, some, Bytes, leb, ◌==◌,
  if◌then◌else◌,
}
use ripestream.Base.Int.{ℤ, pos, leb_ℤ, pos_part}
use ripestream.Base.Float.{Float}
use ripestream.Graph.Parse.{Hop, PingPayload}
use ripestream.Graph.Writer.{AtlasRecord, Batch, cleared, size_of, u64, ingest}

-- A batch size that is not positive becomes 500.
unfoldable pub batch_size_or_default : ℤ → ℕ
batch_size_or_default n = if leb_ℤ n (pos 0) then 500 else pos_part n

-- The variables of `Run`. `sent` lists the batches given to `flushBatch`, oldest first, with whether
-- it succeeded.
pub record GraphWriter (fl : Float) : Type 0 where
  pub pending : Batch fl
  pub upserted : ℕ
  pub flushes : ℕ
  pub skipped : ℕ
  pub sent : List (Batch fl × Bool)

abbrev pub idle : {fl : Float} → GraphWriter fl
idle = record { pending = cleared; upserted = 0; flushes = 0; skipped = 0; sent = [] }

-- What the select of the loop finds. `cancelled` has the records that are still buffered.
pub data Event : Type 0 where
  ticked : Bool → Event
  received : AtlasRecord → Bool → Event
  closed : Bool → Event
  cancelled : List AtlasRecord → Bool → Event

-- The loop goes on, or has returned nil.
pub data Status (fl : Float) : Type 0 where
  running : GraphWriter fl → Status fl
  returned : GraphWriter fl → Status fl

module _ {fl : Float} where
  -- What `flush` does after `flushBatch`: an error drops the batch.
  unfoldable pub settle : Bool → GraphWriter fl → GraphWriter fl
  settle true w = record {
    pending = cleared;
    upserted = (w.upserted + size_of w.pending) % u64;
    flushes = (w.flushes + 1) % u64;
    skipped = w.skipped;
    sent = w.sent ++ (w.pending, true) ∷ [];
  }
  settle false w = record {
    pending = cleared;
    upserted = w.upserted;
    flushes = w.flushes;
    skipped = w.skipped;
    sent = w.sent ++ (w.pending, false) ∷ [];
  }

  unfoldable pub flush : Bool → GraphWriter fl → GraphWriter fl
  flush ok w = if size_of w.pending == 0 then w else settle ok w

  -- The record adds to the batch, or is counted as skipped.
  abbrev pub take_in : GraphWriter fl → Option (Batch fl) → GraphWriter fl
  take_in w none = record {
    pending = w.pending;
    upserted = w.upserted;
    flushes = w.flushes;
    skipped = (w.skipped + 1) % u64;
    sent = w.sent;
  }
  take_in w (some b) = record {
    pending = b;
    upserted = w.upserted;
    flushes = w.flushes;
    skipped = w.skipped;
    sent = w.sent;
  }

  -- After a record that counts: a full batch is flushed.
  unfoldable pub flush_full : ℕ → Bool → GraphWriter fl → GraphWriter fl
  flush_full size ok w = if leb size (size_of w.pending) then flush ok w else w

  module _ (decode_hops : Bytes → Option (List (Hop fl)))
      (decode_ping : Bytes → Option (PingPayload fl)) (find : Bytes → Option (ℤ × Bytes)) where
    unfoldable pub receive : ℕ → Bool → GraphWriter fl → AtlasRecord → GraphWriter fl
    receive size ok w r = taken (ingest decode_hops decode_ping find r w.pending)
      where
        taken : Option (Batch fl) → GraphWriter fl
        taken none = take_in w none
        taken (some b) = flush_full size ok (take_in w (some b))

    -- The inner loop that empties the channel without a flush.
    unfoldable pub drain : GraphWriter fl → List AtlasRecord → GraphWriter fl
    drain w [] = w
    drain w (r ∷ rs) = drain (take_in w (ingest decode_hops decode_ping find r w.pending)) rs

    unfoldable pub step : ℕ → GraphWriter fl → Event → Status fl
    step size w (ticked ok) = running (flush ok w)
    step size w (received r ok) = running (receive size ok w r)
    step size w (closed ok) = returned (flush ok w)
    step size w (cancelled rs ok) = returned (flush ok (drain w rs))

    unfoldable pub run : ℕ → GraphWriter fl → List Event → Status fl
    run size w [] = running w
    run size w (e ∷ events) = elim (step size w e) [
      | running w' ↦ run size w' events
      | returned w' ↦ returned w'
    ]
