-- ===== src/Store/Writer.antt =====
-- `Run` of internal/store/store.go: the batching loop. The select of the loop is a list of events;
-- each flush has the attempts that its insert meets.
pub mod Ledger
use ripestream.Base.{
  ℕ, zero, suc, ◌+◌, ◌%◌, ◌^◌, Bool, true, false, List, [], ◌∷◌, ◌++◌, Option, none, some, leb,
  if◌then◌else◌, Bytes, length,
}
use ripestream.Base.Int.{ℤ, pos, leb_ℤ, pos_part}
use ripestream.Store.Retry.{Attempt, Outcome, inserted, failed, retrying, insert_with_retry}

-- A batch size that is not positive becomes 1000.
unfoldable pub batch_size_or_default : ℤ → ℕ
batch_size_or_default n = if leb_ℤ n (pos 0) then 1000 else pos_part n

abbrev pub u64 : ℕ
u64 = 2 ^ 64

-- The variables of `Run`. `sent` lists the calls of `insertWithRetry` that returned, oldest first,
-- with whether each returned nil.
pub record Writer {ℓ} (R : Type ℓ) : Type ℓ where
  pub batch : List R
  pub inserted_rows : ℕ
  pub flushes : ℕ
  pub sent : List (List R × Bool)

abbrev pub idle {ℓ} : {R : Type ℓ} → Writer R
idle = record { batch = []; inserted_rows = 0; flushes = 0; sent = [] }

-- What the select of the loop finds. `cancelled` has the records that are still buffered.
pub data Event {ℓ} (R : Type ℓ) : Type ℓ where
  ticked : List Attempt → Event R
  received : R → List Attempt → Event R
  closed : List Attempt → Event R
  cancelled : List R → List Attempt → Event R

-- The loop goes on, has returned nil, or is still inside an insert.
pub data Status {ℓ} (R : Type ℓ) : Type ℓ where
  running : Writer R → Status R
  returned : Writer R → Status R
  blocked : Status R

module _ {ℓ} {R : Type ℓ} (encode : R → Option Bytes) where
  -- what `flush` does after the call, on its outcome
  unfoldable pub settle : Writer R → Outcome → Option (Writer R)
  settle w inserted = some (record w {
    batch = [];
    inserted_rows = (w.inserted_rows + length w.batch) % u64;
    flushes = (w.flushes + 1) % u64;
    sent = w.sent ++ (w.batch, true) ∷ [];
  })
  settle w (failed e) = some (record w { batch = []; sent = w.sent ++ (w.batch, false) ∷ [] })
  settle w retrying = none

  -- the closure `flush`; `none` while its insert goes on
  unfoldable pub flush_rows : Writer R → List R → List Attempt → Option (Writer R)
  unfolding settle
  flush_rows w [] attempts = some w
  flush_rows w (r ∷ rs) attempts = settle w (insert_with_retry encode (r ∷ rs) attempts).outcome

  unfoldable pub flush : Writer R → List Attempt → Option (Writer R)
  unfolding flush_rows
  flush w = flush_rows w w.batch

  abbrev add : Writer R → List R → Writer R
  add w rs = record w { batch = w.batch ++ rs }

  abbrev pub goes_on : Option (Writer R) → Status R
  goes_on none = blocked
  goes_on (some w) = running w

  abbrev pub returns : Option (Writer R) → Status R
  returns none = blocked
  returns (some w) = returned w

  unfoldable pub step : ℕ → Writer R → Event R → Status R
  step size w (ticked attempts) = goes_on (flush w attempts)
  step size w (received r attempts) =
      let w' = add w (r ∷ []) in
      if leb size (length w'.batch) then goes_on (flush w' attempts) else running w'
  step size w (closed attempts) = returns (flush w attempts)
  step size w (cancelled buffered attempts) = returns (flush (add w buffered) attempts)

  unfoldable pub run : ℕ → Writer R → List (Event R) → Status R
  unfolding step
  run size w [] = running w
  run size w (e ∷ events) = elim (step size w e) [
    | running w' ↦ run size w' events
    | returned w' ↦ returned w'
    | blocked ↦ blocked
  ]
