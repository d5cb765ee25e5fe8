-- ===== src/Store/Retry/Transient.antt =====
-- How long the retry loop goes on, and how it ends.
use ripestream.Base.{
  ℕ, suc, ◌+◌, true, false, List, [], ◌∷◌, ◌++◌, ◌≡◌, Option, none, some, arith, Bytes, length, All,
}
use ripestream.Base.Backoff.{next_backoff, backoffs}
use ripestream.Store.Retry.{
  Attempt, Retried, Outcome, inserted, failed, posted, PostError, is_retryable, retry_loop,
  max_backoff, encode_rows, insert_with_retry,
}

-- The round fails with an error that a later one may not have, and the context lives on.
pub record IsTransient (a : Attempt) : Type 0 where
  pub alive : a.ctx_err ≡ none
  pub error : PostError
  pub replied : a.reply ≡ some error
  pub retryable : is_retryable error ≡ true
  pub not_done : a.done_waiting ≡ none

abbrev pub after : ℕ → ℕ → Outcome → ℕ → Retried
after n b o k = record { outcome = o; posts = n + k; waits = backoffs max_backoff b n }

retry_loop-step :
    (b : ℕ) (a : Attempt) (later : List Attempt)
    → IsTransient a
    → retry_loop b (a ∷ later) ≡ record {
      outcome = (retry_loop (next_backoff max_backoff b) later).outcome;
      posts = suc (retry_loop (next_backoff max_backoff b) later).posts;
      waits = b ∷ (retry_loop (next_backoff max_backoff b) later).waits;
    }
unfolding retry_loop
retry_loop-step b a later t = ground arith

retry_loop-transient :
    (b : ℕ) (failures rest : List Attempt) (o : Outcome) (k : ℕ)
    → All IsTransient failures
    → ((c : ℕ) → retry_loop c rest ≡ record { outcome = o; posts = k; waits = [] })
    → retry_loop b (failures ++ rest) ≡ after (length failures) b o k
retry_loop-transient b [] rest o k h e = rw e (ground arith)
retry_loop-transient b (a ∷ later) rest o k h e =
    rw
      (
        retry_loop-step b a _ h.0,
        retry_loop-transient (next_backoff max_backoff b) later rest o k h.1 e,
      )
      (ground arith)

-- The server accepts the rows in this round.
abbrev pub Accepts : Attempt → Type 0
Accepts a = (a.ctx_err ≡ none) × (a.reply ≡ none)

-- The server refuses them for good.
abbrev pub Refuses : Attempt → PostError → Type 0
Refuses a e = (a.ctx_err ≡ none) × (a.reply ≡ some e) × (is_retryable e ≡ false)

retry_loop-Accepts :
    (a : Attempt) (later : List Attempt)
    → Accepts a
    → (c : ℕ) → retry_loop c (a ∷ later) ≡ record { outcome = inserted; posts = 1; waits = [] }
unfolding retry_loop
retry_loop-Accepts a later (alive, reply) c = ground arith

retry_loop-Refuses :
    (a : Attempt) (later : List Attempt) (e : PostError)
    → Refuses a e
    → (c : ℕ)
    → retry_loop c (a ∷ later) ≡ record { outcome = failed (posted e); posts = 1; waits = [] }
unfolding retry_loop
retry_loop-Refuses a later e (alive, reply, final) c = ground arith

module _ {ℓ} {R : Type ℓ} (encode : R → Option Bytes) (rows : List R)
    (encodes : encode_rows encode 0 rows ≡ none) where
  -- Rows that can be encoded, sent to a server that fails in a way that may pass any number of times and
  -- then accepts them, are inserted: one post more than failures, and before each new post a wait that
  -- doubles from 1 second up to 30.
  pub insert_with_retry-accepted :
      (failures : List Attempt) (a : Attempt) (later : List Attempt)
      → All IsTransient failures
      → Accepts a
      → insert_with_retry encode rows (failures ++ a ∷ later) ≡ after (length failures) 1 inserted 1
  unfolding insert_with_retry
  insert_with_retry-accepted failures a later h acc =
      rw (encodes, insert_with_retry)
        (retry_loop-transient 1 failures (a ∷ later) inserted 1 h (retry_loop-Accepts a later acc))

  -- If the server refuses them for good after such failures, the result is its error, after the same
  -- posts and waits, and nothing is sent any more.
  pub insert_with_retry-refused :
      (failures : List Attempt) (a : Attempt) (later : List Attempt) (e : PostError)
      → All IsTransient failures
      → Refuses a e
      → insert_with_retry encode rows (failures ++ a ∷ later)
        ≡ after (length failures) 1 (failed (posted e)) 1
  unfolding insert_with_retry
  insert_with_retry-refused failures a later e h r =
      rw (encodes, insert_with_retry)
        (retry_loop-transient 1 failures (a ∷ later) (failed (posted e)) 1 h
          (retry_loop-Refuses a later e r))
