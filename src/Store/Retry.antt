-- ===== src/Store/Retry.antt =====
-- `insertWithRetry` and `isRetryable` of internal/store/store.go. What the context and the server
-- do in each round of the loop is given, as a list of attempts.
pub mod Transient
use ripestream.Base.{
  ℕ, zero, suc, ◌+◌, Bool, true, false, List, [], ◌∷◌, Option, none, some, leb, if◌then◌else◌,
  Bytes, ◌++◌,
}
use ripestream.Base.Backoff.{next_backoff}

-- `context.Canceled` and `context.DeadlineExceeded`
pub data CtxError : Type 0 where
  canceled deadline_exceeded : CtxError

-- An error of `post`: `clickhouseError` with its status, or any other.
pub data PostError : Type 0 where
  clickhouse : ℕ → PostError
  transport : PostError

unfoldable pub is_retryable : PostError → Bool
is_retryable (clickhouse status) = leb 500 status
is_retryable transport = true

pub data InsertError : Type 0 where
  encode_row : ℕ → InsertError
  context : CtxError → InsertError
  posted : PostError → InsertError

-- One round: `ctx.Err()` at its head, the answer of `post` (`none` for a nil error), and whether
-- the context ends while the loop waits.
pub record Attempt : Type 0 where
  pub ctx_err : Option CtxError
  pub reply : Option PostError
  pub done_waiting : Option CtxError

-- `retrying`: the given rounds are over, and the loop goes on.
pub data Outcome : Type 0 where
  inserted : Outcome
  failed : InsertError → Outcome
  retrying : Outcome

-- The outcome, the number of calls of `post`, and the waits begun, in seconds.
pub record Retried : Type 0 where
  pub outcome : Outcome
  pub posts : ℕ
  pub waits : List ℕ

abbrev pub max_backoff : ℕ
max_backoff = 30

abbrev stop : Outcome → ℕ → Retried
stop o n = record { outcome = o; posts = n; waits = [] }

abbrev waited : ℕ → Retried → Retried
waited b r = record { outcome = r.outcome; posts = suc r.posts; waits = b ∷ r.waits }

unfoldable pub retry_loop : ℕ → List Attempt → Retried
unfolding is_retryable
retry_loop backoff [] = stop retrying 0
retry_loop backoff (a ∷ later) = elim a.ctx_err [
  | some e ↦ stop (failed (context e)) 0
  | none ↦ elim a.reply [
    | none ↦ stop inserted 1
    | some err ↦ elim (is_retryable err) [
      | false ↦ stop (failed (posted err)) 1
      | true ↦ elim a.done_waiting [
        | some e ↦ record { outcome = failed (context e); posts = 1; waits = backoff ∷ [] }
        | none ↦ waited backoff (retry_loop (next_backoff max_backoff backoff) later)
      ]
    ]
  ]
]

-- The rows as JSON lines, or the index of the first that cannot be encoded. The encoder is
-- encoding/json's.
unfoldable pub encode_rows {ℓ} : {R : Type ℓ} → (R → Option Bytes) → ℕ → List R → Option ℕ
encode_rows encode i [] = none
encode_rows encode i (r ∷ rs) = elim (encode r) [
  | none ↦ some i
  | some line ↦ encode_rows encode (i + 1) rs
]

unfoldable pub insert_with_retry {ℓ} :
    {R : Type ℓ} → (R → Option Bytes) → List R → List Attempt → Retried
unfolding encode_rows
insert_with_retry encode rows attempts = elim (encode_rows encode 0 rows) [
  | some i ↦ stop (failed (encode_row i)) 0
  | none ↦ retry_loop 1 attempts
]
