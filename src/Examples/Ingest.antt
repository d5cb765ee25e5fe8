-- ===== src/Examples/Ingest.antt =====
-- The pipeline: the meter and the tee.
use ripestream.Base.{ℕ, ◌%◌, ◌≤◌, ◌≡◌, refl, List, [], ◌∷◌, length, All, arith, some, false}
use mathlib.Core.List.Sublist
use ripestream.Base.Int.{ℤ, pos, ◌+ℤ◌, ◌-ℤ◌}
use ripestream.Pipeline.Meter.{u64, new_meter, observe_all, snapshot_at, first_rate_second}
use ripestream.Pipeline.Meter.Window.{Clock, series, series_sum, snapshot_at-exact}
use ripestream.Pipeline.Tee.{offer, receive, Sink, Move, arrives, receives, finishes, run, start}
use ripestream.Pipeline.Tee.Delivery.{
  Balance, InOrder, sink_at, solo, run-start-Balance, run-solo, run-InOrder,
}

-- Observed at the seconds 100, 100, 130 and 161; second 100 has left the window by then.
abbrev seconds : List ℤ
seconds = pos 100 ∷ pos 100 ∷ pos 130 ∷ pos 161 ∷ []

seconds-Clock : Clock (pos 99) (pos 161) seconds
seconds-Clock = (omega arith, (omega arith, (omega arith, (omega arith, omega arith))))

snapshot_at-exact_example :
    let m = observe_all (new_meter (pos 99)) seconds in
    ((snapshot_at m (pos 161)).total ≡ length seconds % u64)
    × ((snapshot_at m (pos 161)).samples ≡ series seconds (pos 161 -ℤ pos 60 +ℤ pos 1) 60)
    × ((snapshot_at m (pos 161)).rate_total
        ≡ series_sum seconds (first_rate_second m (pos 161)) (snapshot_at m (pos 161)).rate_seconds
          % u64)
    × ((snapshot_at m (pos 161)).rate_seconds ≤ 5)
snapshot_at-exact_example = snapshot_at-exact (pos 99) (pos 161) seconds seconds-Clock

-- A sink with room for one record, and one with room for two.
abbrev moves : List (Move ℕ)
moves = arrives 7 ∷ arrives 8 ∷ receives 0 ∷ arrives 9 ∷ receives 1 ∷ finishes ∷ arrives 10 ∷ []

run-start-Balance_example : Balance 2 (run (start (1 ∷ 2 ∷ [])) moves)
run-start-Balance_example = run-start-Balance (1 ∷ 2 ∷ []) moves

abbrev narrow : Sink ℕ
narrow = record { capacity = 1; buffer = []; delivered = [] }

solo_test : solo 0 false narrow moves ≡ record { capacity = 1; buffer = 9 ∷ []; delivered = 7 ∷ [] }
unfolding solo offer receive
solo_test = refl

run-solo_example :
    sink_at 0 (run (start (1 ∷ 2 ∷ [])) moves).sinks ≡ some (solo 0 false narrow moves)
run-solo_example = run-solo 0 moves (start (1 ∷ 2 ∷ [])) narrow refl

run-InOrder_example : let t = run (start (1 ∷ 2 ∷ [])) moves in All (InOrder t.seen) t.sinks
run-InOrder_example =
    run-InOrder (start (1 ∷ 2 ∷ [])) moves (Sublist.refl [], (Sublist.refl [], tt))
