-- ===== src/Examples/Insert.antt =====
-- The insert path: literals, scripts, retries and the batching loop.
use ripestream.Base.{◌≡◌, refl, List, [], ◌∷◌, ◌++◌, Option, none, some, Bytes, All, arith}
use ripestream.Store.Escape.{esc_str}
use ripestream.Store.Escape.Literal.{read_literal, read_literal-esc_str}
use ripestream.Store.Statements.{is_quote, split_statements}
use ripestream.Store.Statements.Text.{
  Token, plain, literal, comment, script, parts, AreTokens, split_statements-script,
}
use ripestream.Store.Retry.{
  Attempt, clickhouse, is_retryable, encode_rows, inserted, failed, posted, insert_with_retry,
}
use ripestream.Store.Retry.Transient.{
  IsTransient, Refuses, after, insert_with_retry-accepted, insert_with_retry-refused,
}
use ripestream.Store.Writer.{Event, ticked, received, cancelled, idle, run}
use ripestream.Store.Writer.Ledger.{Settled, taken, run-idle-Settled}

-- a'b\c;--d
abbrev awkward : Bytes
awkward = 97 ∷ 39 ∷ 98 ∷ 92 ∷ 99 ∷ 59 ∷ 45 ∷ 45 ∷ 100 ∷ []

esc_str_test : esc_str (97 ∷ 39 ∷ []) ≡ 39 ∷ 97 ∷ 92 ∷ 39 ∷ 39 ∷ []
unfolding esc_str
esc_str_test = refl

read_literal-esc_str_example : read_literal (esc_str awkward ++ 59 ∷ []) ≡ some (awkward, 59 ∷ [])
read_literal-esc_str_example = read_literal-esc_str awkward (59 ∷ []) refl

-- SELECT-like text: a literal, then a comment; and a second statement
abbrev two_statements : List (List Token)
two_statements =
    (plain 65 ∷ plain 32 ∷ literal awkward ∷ comment (59 ∷ 39 ∷ []) ∷ []) ∷ (plain 66 ∷ []) ∷ []

two_statements-AreTokens : All AreTokens two_statements
unfolding is_quote
two_statements-AreTokens = (
  ((refl, refl, refl), ((refl, refl, refl), (tt, ((refl, (refl, tt)), tt)))),
  (((refl, refl, refl), tt), tt),
)

split_statements-script_example : split_statements (script two_statements) ≡ parts [] two_statements
split_statements-script_example = split_statements-script two_statements two_statements-AreTokens

abbrev busy : Attempt
busy = record { ctx_err = none; reply = some (clickhouse 503); done_waiting = none }

abbrev welcome : Attempt
welcome = record { ctx_err = none; reply = none; done_waiting = none }

abbrev bad_request : Attempt
bad_request = record { ctx_err = none; reply = some (clickhouse 400); done_waiting = none }

busy-IsTransient : IsTransient busy
unfolding is_retryable
busy-IsTransient = record {
  alive = refl;
  error = clickhouse 503;
  replied = refl;
  retryable = refl;
  not_done = refl;
}

bad_request-Refuses : Refuses bad_request (clickhouse 400)
unfolding is_retryable
bad_request-Refuses = (refl, refl, refl)

-- A record is its line.
abbrev as_line : Bytes → Option Bytes
as_line line = some line

abbrev two_rows : List Bytes
two_rows = (1 ∷ []) ∷ (2 ∷ []) ∷ []

two_rows_encode : encode_rows as_line 0 two_rows ≡ none
unfolding encode_rows
two_rows_encode = refl

waits_test :
    after 6 1 inserted 1
    ≡ record { outcome = inserted; posts = 7; waits = 1 ∷ 2 ∷ 4 ∷ 8 ∷ 16 ∷ 30 ∷ [] }
waits_test = refl

insert_with_retry-accepted_example :
    insert_with_retry as_line two_rows (busy ∷ busy ∷ welcome ∷ []) ≡ after 2 1 inserted 1
insert_with_retry-accepted_example =
    insert_with_retry-accepted as_line two_rows two_rows_encode (busy ∷ busy ∷ []) welcome []
      (busy-IsTransient, (busy-IsTransient, tt)) (refl, refl)

insert_with_retry-refused_example :
    insert_with_retry as_line two_rows (busy ∷ bad_request ∷ welcome ∷ [])
    ≡ after 1 1 (failed (posted (clickhouse 400))) 1
insert_with_retry-refused_example =
    insert_with_retry-refused as_line two_rows two_rows_encode (busy ∷ []) bad_request
      (welcome ∷ []) (clickhouse 400) (busy-IsTransient, tt) bad_request-Refuses

abbrev traffic : List (Event Bytes)
traffic =
    received (1 ∷ []) []
    ∷ received (2 ∷ []) (welcome ∷ [])
    ∷ received (3 ∷ []) []
    ∷ ticked (bad_request ∷ [])
    ∷ received (4 ∷ []) []
    ∷ cancelled ((5 ∷ []) ∷ []) (welcome ∷ [])
    ∷ []

run-idle-Settled_example : Settled 2 (taken as_line 2 idle traffic) (run as_line 2 idle traffic)
run-idle-Settled_example = run-idle-Settled as_line 2 traffic (omega arith)
