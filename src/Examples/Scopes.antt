-- ===== src/Examples/Scopes.antt =====
-- The path between two addresses, and the lists that a series names.
use ripestream.Base.{◌<◌, ◌≡◌, refl, List, [], ◌∷◌, map, Option, none, some, Bytes, arith, inr}
use ripestream.Base.Int.{ℤ, pos, negsuc}
use ripestream.Base.Text.{ltb_bytes, bytes_eq}
use ripestream.Base.Assoc.{Dict, lookup}
use ripestream.Base.Sorted.{sort_by, insert_by}
use ripestream.Graph.Paths.{AsnInfo, PathHop, PathRow, PathReply, path}
use ripestream.Graph.Paths.Hops.{path-Traces}
use ripestream.Store.Windows.{
  pair_series_scope, pair_scope, probe_list, probe_set, target_list, target_set,
}
use ripestream.Store.Windows.Scopes.{AreProbes, AreTargets, pair_series_scope-AreProbes}
use ripestream.Examples.{whole}

-- Three addresses, the second in network 64500.
abbrev networks : Dict AsnInfo
networks = (2 ∷ [], record { asn = pos 64500; org = 9 ∷ [] }) ∷ []

abbrev three_hops : PathRow whole
three_hops = record {
  addrs = (1 ∷ []) ∷ (2 ∷ []) ∷ (3 ∷ []) ∷ [];
  rtts = 5 ∷ 8 ∷ [];
  seen_counts = pos 40 ∷ pos 30 ∷ [];
}

abbrev networks_passed : List (Option ℤ × Bytes)
networks_passed = (none, []) ∷ (some (pos 64500), 9 ∷ []) ∷ (none, []) ∷ []

path-Traces_example :
    (hops : List (PathHop whole)) × (path 0 (inr (three_hops ∷ [])) networks ≡ PathReply.found hops)
    × ((map (λ h. h.addr) hops ≡ (1 ∷ []) ∷ (2 ∷ []) ∷ (3 ∷ []) ∷ [])
        × (map (λ h. h.rtt_ms) hops ≡ 0 ∷ 5 ∷ 8 ∷ [])
        × (map (λ h. h.seen_count) hops ≡ pos 0 ∷ pos 40 ∷ pos 30 ∷ [])
        × (map (λ h. (h.asn, h.org)) hops ≡ networks_passed))
unfolding lookup bytes_eq
path-Traces_example = path-Traces networks 0 three_hops [] (omega arith) (omega arith) (omega arith)

-- Repeated and impossible probes and targets are left out.
abbrev asked_probes : List ℤ
asked_probes = pos 9 ∷ pos 0 ∷ pos 4 ∷ negsuc 0 ∷ pos 9 ∷ []

abbrev asked_targets : List Bytes
asked_targets = (56 ∷ []) ∷ [] ∷ (49 ∷ []) ∷ (56 ∷ []) ∷ []

scope_test :
    pair_series_scope (pos 1000) (some (pos 1)) (some (pos 900)) asked_probes asked_targets
    ≡ inr (pos 4 ∷ pos 9 ∷ [], (49 ∷ []) ∷ (56 ∷ []) ∷ [])
unfolding pair_series_scope pair_scope probe_list probe_set target_list target_set sort_by insert_by
    ltb_bytes bytes_eq
scope_test = refl

pair_series_scope-AreProbes_example :
    (0 < 2)
    × (0 < 2)
    × AreProbes asked_probes (pos 4 ∷ pos 9 ∷ [])
    × AreTargets asked_targets ((49 ∷ []) ∷ (56 ∷ []) ∷ [])
pair_series_scope-AreProbes_example =
    pair_series_scope-AreProbes (pos 1000) (some (pos 1)) (some (pos 900)) asked_probes
      asked_targets (pos 4 ∷ pos 9 ∷ []) ((49 ∷ []) ∷ (56 ∷ []) ∷ []) scope_test
