-- ===== src/Examples/Topology.antt =====
-- The graph: replies of a hop, the batches of the writer, sort keys and retention.
use ripestream.Base.{
  ℕ, ◌+◌, ◌-◌, ◌*◌, min, ◌≡◌, refl, inr, true, false, String, List, [], ◌∷◌, Option, none, some,
  Bytes, arith,
}
use mathlib.Core.Option
use ripestream.Base.Int.{ℤ, pos}
use ripestream.Base.Text.{bytes_eq}
use ripestream.Graph.Parse.{Reply, Hop, PingPayload, best_loop, hop_best_reply}
use ripestream.Graph.Parse.Replies.{mean_from, first_address, hop_best_reply-mean_from}
use ripestream.Graph.Writer.{AtlasRecord, cleared, ingest}
use ripestream.Graph.Writer.Joined.{join, AreEdgesIn, ingest-join, ingest-AreEdges}
use ripestream.Graph.Loop.{Event, received, cancelled, idle, run}
use ripestream.Graph.Loop.Ledger.{Settled, taken, run-Accounts}
use ripestream.Graph.Sort.{
  sort_dir, asn_issue_sort_expr, probe_sort_expr, detail_target_sort_expr, target_sort_expr,
  hop_sort_expr, transit_sort_expr, validated_sort,
}
use ripestream.Graph.Sort.Whitelist.{IsAmong, validated_sort-whitelists}
use ripestream.Graph.Retention.{pruned, prune_batches}
use ripestream.Graph.Retention.Batches.{delete_batch, prune_batches-min}
use mathlib.Core.List.{Memᴰ}
use ripestream.Base.Ascii.{ascii}
use ripestream.Graph.Values.{Value}
use ripestream.Graph.Conditions.{
  AlertRuleSpec, BuiltQuery, build_alert_cypher, build_from, scope_filter, traffic_condition,
  loss_conditions, format_metric_return, with_cutoff,
}
use ripestream.Graph.Conditions.Bound.{AreBound, build_alert_cypher-AreBound}
use ripestream.Examples.{whole}

abbrev reply : ℕ → ℕ → Reply whole
reply host rtt = record { from = host ∷ []; rtt = rtt; x = "" }

abbrev timeout : Reply whole
timeout = record { from = []; rtt = 0; x = "*" }

abbrev replies : List (Reply whole)
replies = timeout ∷ reply 7 10 ∷ reply 8 90 ∷ reply 7 20 ∷ []

best_reply_test : hop_best_reply replies ≡ some (7 ∷ [], 15)
unfolding hop_best_reply best_loop bytes_eq
best_reply_test = refl

hop_best_reply-mean_from_example :
    hop_best_reply replies ≡ mean_from replies (first_address replies)
hop_best_reply-mean_from_example = hop_best_reply-mean_from replies

-- Each payload decodes to three hops, of which one times out.
abbrev decode_hops : Bytes → Option (List (Hop whole))
decode_hops [] = none
decode_hops (_ ∷ _) = some (
    record { hop = pos 1; result = reply 7 10 ∷ [] }
    ∷ record { hop = pos 2; result = timeout ∷ [] }
    ∷ record { hop = pos 3; result = reply 9 30 ∷ [] }
    ∷ [])

abbrev decode_ping : Bytes → Option (PingPayload whole)
decode_ping [] = none
decode_ping (_ ∷ _) = some (record { avg = 5; min_rtt = 4; max_rtt = 6; sent = 3; rcvd = 2 })

-- The network of an address is its first byte.
abbrev find_asn : Bytes → Option (ℤ × Bytes)
find_asn [] = none
find_asn (b ∷ _) = some (pos b, b ∷ [])

abbrev atlas_record : String → Bytes → AtlasRecord
atlas_record type payload = record {
  timestamp = pos 1000;
  msm_id = 1;
  prb_id = 2;
  type = type;
  from_ip = 5 ∷ [];
  af = 4;
  proto = "ICMP";
  dst_addr = 9 ∷ [];
  result_json = payload;
}

abbrev trace : AtlasRecord
trace = atlas_record "traceroute" (1 ∷ [])

ingest-join_example :
    ingest decode_hops decode_ping find_asn trace cleared
    ≡ Option.map (join cleared) (ingest decode_hops decode_ping find_asn trace cleared)
ingest-join_example = ingest-join decode_hops decode_ping find_asn trace cleared

ingest-AreEdges_example : AreEdgesIn (ingest decode_hops decode_ping find_asn trace cleared)
ingest-AreEdges_example = ingest-AreEdges decode_hops decode_ping find_asn trace cleared (tt, tt)

abbrev traffic : List Event
traffic =
    received trace true
    ∷ received (atlas_record "dns" (1 ∷ [])) true
    ∷ received (atlas_record "ping" []) true
    ∷ received (atlas_record "ping" (1 ∷ [])) false
    ∷ cancelled (trace ∷ []) true
    ∷ []

run-Accounts_example :
    Settled decode_hops decode_ping find_asn 4
      (taken traffic)
      (run decode_hops decode_ping find_asn 4 idle traffic)
run-Accounts_example = run-Accounts decode_hops decode_ping find_asn 4 traffic (omega arith)

validated_sort-whitelists_example :
    let sort : String = "loss; DROP" in
    let d : String = "avg_loss" in
    IsAmong
      (validated_sort sort d asn_issue_sort_expr)
      (d ∷ "avg_loss" ∷ "probes" ∷ "samples" ∷ "last_seen" ∷ [])
    × IsAmong
        (validated_sort sort d probe_sort_expr)
        (d ∷ "avg_loss" ∷ "avg_rtt" ∷ "last_seen" ∷ [])
    × IsAmong
        (validated_sort sort d detail_target_sort_expr)
        (d ∷ "loss" ∷ "rtt" ∷ "last_seen" ∷ [])
    × IsAmong
        (validated_sort sort d target_sort_expr)
        (d ∷ "avg_loss" ∷ "avg_rtt" ∷ "probes" ∷ "last_seen" ∷ "impact" ∷ [])
    × IsAmong (validated_sort sort d hop_sort_expr) (d ∷ "rtt" ∷ "sc" ∷ "ls" ∷ [])
    × IsAmong (validated_sort sort d transit_sort_expr) (d ∷ "sc" ∷ "ls" ∷ [])
    × IsAmong (sort_dir "asc") ("ASC" ∷ "DESC" ∷ [])
validated_sort-whitelists_example = validated_sort-whitelists "loss; DROP" "asc" "avg_loss"

prune_batches-min_example :
    prune_batches (delete_batch 1000) 1000 100 2500 0
    ≡ pruned (2500 - 100 * 1000) (0 + min 2500 (100 * 1000)) none
prune_batches-min_example = prune_batches-min 1000 100 2500 0 (omega arith)

abbrev pair_rule : AlertRuleSpec whole
pair_rule = record {
  metric = "loss_ratio";
  scope = "asn_pair";
  comparison = ">";
  threshold = 50;
  min_sent = pos 3;
  min_loss = 1;
  src_asn = pos 64500;
  dst_asn = pos 64501;
  probe_id = pos 0;
  target_ip = [];
}

abbrev pair_query : BuiltQuery whole
pair_query = record {
  scope = "asn_pair";
  conditions =
      ascii "e.sent >= $minSent"
      ∷ ascii "e.last_seen >= $cutoff"
      ∷ ascii "e.loss_ratio >= $minLoss"
      ∷ ascii "srcAS.asn = $srcAsn"
      ∷ ascii "dstAS.asn = $dstAsn"
      ∷ [];
  value = ascii "round(100.0 * avg_loss)";
  params =
      ("minSent", Value.int (pos 3))
      ∷ ("minLoss", Value.float 1)
      ∷ ("srcAsn", Value.int (pos 64500))
      ∷ ("dstAsn", Value.int (pos 64501))
      ∷ [];
}

pair_query_test : build_alert_cypher pair_rule ≡ inr pair_query
unfolding build_alert_cypher build_from scope_filter traffic_condition loss_conditions
    format_metric_return
pair_query_test = refl

build_alert_cypher-AreBound_example :
    AreBound (with_cutoff (pos 1000) pair_query).params pair_query.conditions
    × Memᴰ (ascii "e.last_seen >= $cutoff") pair_query.conditions
build_alert_cypher-AreBound_example =
    build_alert_cypher-AreBound (pos 1000) pair_rule pair_query pair_query_test
