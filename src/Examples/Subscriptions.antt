-- ===== src/Examples/Subscriptions.antt =====
-- The stream of RIPE Atlas: the list of its subscriptions, reconnecting, and the lines of a connection.
use ripestream.Base.{
  ◌≤◌, ◌≡◌, refl, true, false, String, List, [], ◌∷◌, Option, none, some, Bytes, All, arith,
}
use ripestream.Base.Int.{pos}
use ripestream.Base.Backoff.{backoffs}
use ripestream.Atlas.Subscription.{
  Connection, closed_cleanly, context_ended, broken, max_backoff, build_queries, msm, prb,
  run_subscription,
}
use ripestream.Atlas.Subscription.Waits.{waits_begun, run_subscription-backoffs}
use ripestream.Atlas.Stream.{Payload, Read, more, end_of_file, read_loop}
use ripestream.Atlas.Stream.Identity.{IsIdentified, read_loop-IsIdentified}
use ripestream.Base.Ascii.{ascii, extend, split, join, digits, format_int}
use ripestream.Store.Statements.{is_space, trim_left, trim_space}
use ripestream.Wiring.{collect_ids, atoi_digits, atoi_positive, positive, parse_int_csv}
use ripestream.Wiring.Lists.{parse_int_csv-join}
use ripestream.Examples.{whole}

build_queries_test :
    build_queries (record { msms = pos 1 ∷ []; prbs = pos 2 ∷ pos 3 ∷ [] })
    ≡ msm (pos 1) ∷ prb (pos 2) ∷ prb (pos 3) ∷ []
unfolding build_queries
build_queries_test = refl

abbrev clean : Connection
clean = record { done = false; records = 5; end = closed_cleanly; done_waiting = false }

abbrev lost : Connection
lost = record { done = false; records = 0; end = broken; done_waiting = false }

abbrev stopped : Connection
stopped = record { done = false; records = 2; end = context_ended; done_waiting = false }

abbrev connections : List Connection
connections = lost ∷ clean ∷ clean ∷ lost ∷ stopped ∷ []

waits_test :
    run_subscription connections
    ≡ record { count = 12; waits = 1 ∷ 2 ∷ 4 ∷ 8 ∷ []; returned = true }
unfolding run_subscription
waits_test = refl

run_subscription-backoffs_example :
    ((run_subscription connections).waits ≡ backoffs max_backoff 1 4)
    × All (λ w. w ≤ max_backoff) (run_subscription connections).waits
unfolding waits_begun
run_subscription-backoffs_example = run_subscription-backoffs connections

-- A line is its event tag, then its payload.
abbrev decode_pair : Bytes → Option (Bytes × Bytes)
decode_pair [] = none
decode_pair (tag ∷ raw) = some (tag ∷ [], raw)

abbrev decode_event : Bytes → Option String
decode_event [] = none
decode_event (_ ∷ _) = some "atlas_result"

abbrev decode_payload : Bytes → Option (Payload whole)
decode_payload [] = none
decode_payload (id ∷ _) = some (record {
  fw = none;
  af = some 4;
  proto = "ICMP";
  dst_name = [];
  dst_addr = [];
  src_addr = [];
  from_ip = [];
  type = "ping";
  msm_name = [];
  msm_id = id;
  prb_id = 3;
  ts = pos 1000;
  sent = 3;
  rcvd = 3;
  avg = 1;
  min_rtt = 1;
  max_rtt = 1;
})

abbrev reads : List Read
reads =
    record { line = 65 ∷ 66 ∷ 10 ∷ []; end = more; sends = true }
    ∷ record { line = 65 ∷ []; end = more; sends = true }
    ∷ record { line = 65 ∷ 67 ∷ []; end = end_of_file; sends = true }
    ∷ []

read_loop-IsIdentified_example :
    All IsIdentified (read_loop decode_pair decode_event decode_payload [] reads).records
read_loop-IsIdentified_example =
    read_loop-IsIdentified decode_pair decode_event decode_payload [] reads tt

-- What is no positive number is left out.
parse_int_csv_test : parse_int_csv (ascii " 7, x,-3,+12,,0 ") ≡ 7 ∷ 12 ∷ []
unfolding parse_int_csv collect_ids atoi_positive atoi_digits positive trim_space trim_left is_space
    split extend ascii
parse_int_csv_test = refl

parse_int_csv-join_example : parse_int_csv (ascii "1001,30001,1001") ≡ 1001 ∷ 30001 ∷ 1001 ∷ []
unfolding format_int digits ascii join
parse_int_csv-join_example =
    parse_int_csv-join (1001 ∷ 30001 ∷ 1001 ∷ [])
      ((omega arith, omega arith), ((omega arith, omega arith), ((omega arith, omega arith), tt)))
