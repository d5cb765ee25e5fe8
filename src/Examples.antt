-- ===== src/Examples.antt =====
-- Tests of the definitions, and each theorem with conditions at a concrete input where they hold.
mod Insert
mod Ingest
mod Alerts
mod Requests
mod Topology
mod Routes
mod Inventory
mod Subscriptions
mod Scopes
use ripestream.Base.{ℕ, ◌+◌, ◌-◌, ◌/◌, ltb, leb, ◌==◌}
use ripestream.Base.{true, []}
use ripestream.Base.Int.{pos, pos_part}
use ripestream.Base.Float.{Float}
use ripestream.Graph.Values.{Go}

-- Whole numbers in place of the floats.
abbrev pub whole : Float
whole = record {
  F = ℕ;
  of_nat = λ n. n;
  add = ◌+◌;
  sub = ◌-◌;
  div = ◌/◌;
  lt = ltb;
  le = leb;
  eq = ◌==◌;
}

abbrev pub go : Go
go = record { fl = whole; of_int = pos_part; truncate = pos; finite = λ _. true; sprint = λ _. [] }
