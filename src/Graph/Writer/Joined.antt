-- ===== src/Graph/Writer/Joined.antt =====
-- A record adds its own operations to a batch, behind those that wait there, and nothing else.
use ripestream.Base.{
  true, false, ◌&&◌, List, [], ◌∷◌, ◌++◌, Option, none, some, str_eq, Bytes, ◌≡◌, refl, sym, ap,
  ◌∙◌, append-nil, append_assoc, All, All-append, arith, inl, inr, Bool-cases, Option-cases,
}
use mathlib.Core.Option
use ripestream.Base.Int.{ℤ, pos, ◌<ℤ◌}
use ripestream.Base.Float.{Float}
use ripestream.Base.Text.{bytes_eq, bytes_eq_iff}
use ripestream.Graph.Parse.{Hop, HopIp, PingPayload, is_blank, responsive_hops, is_graph_type}
use ripestream.Graph.Writer.{
  AtlasRecord, NextHop, AsLink, Batch, cleared, next_hop, skips_pair, links_as, append_pair,
  append_hops, append_traceroute, append_ping, ingest, with_asn, ProbeRow, add_probe, probe_row,
}

is_blank-nil : (s : Bytes) → s ≡ [] → is_blank s ≡ true
is_blank-nil s e = rw e refl

-- A link of two different known networks.
abbrev pub IsLink : AsLink → Type 0
IsLink l = (pos 0 <ℤ l.asn_a) × (pos 0 <ℤ l.asn_b) × ¬ (l.asn_a ≡ l.asn_b)

module _ {fl : Float} where
  -- The operations of two batches, in order.
  abbrev pub join : Batch fl → Batch fl → Batch fl
  join a b = record {
    next_hops = a.next_hops ++ b.next_hops;
    as_links = a.as_links ++ b.as_links;
    probes = a.probes ++ b.probes;
    pings = a.pings ++ b.pings;
  }

  pub join-cleared : (a : Batch fl) → join a cleared ≡ a
  join-cleared a = simp append-nil

  pub join_assoc : (a b c : Batch fl) → join (join a b) c ≡ join a (join b c)
  join_assoc a b c = simp append_assoc

  append_pair-join :
      (r : AtlasRecord) (a c : HopIp fl) (b d : Batch fl)
      → append_pair r a c (join b d) ≡ join b (append_pair r a c d)
  unfolding append_pair
  append_pair-join r a c b d = elim (Bool-cases (skips_pair a c)) [
    | inl e ↦ rw e refl
    | inr e ↦ elim (Bool-cases (links_as a c)) [
      | inl l ↦ rw (e, l) (simp append_assoc)
      | inr l ↦ rw (e, l) (simp append_assoc)
    ]
  ]

  append_hops-join :
      (r : AtlasRecord) (hs : List (HopIp fl)) (b d : Batch fl)
      → append_hops r hs (join b d) ≡ join b (append_hops r hs d)
  unfolding append_hops
  append_hops-join r [] b d = refl
  append_hops-join r (a ∷ []) b d = refl
  append_hops-join r (a ∷ c ∷ hs) b d =
      rw (append_pair-join r a c b d) (append_hops-join r (c ∷ hs) b (append_pair r a c d))

  append_hops-alone :
      (r : AtlasRecord) (hs : List (HopIp fl)) (b : Batch fl)
      → append_hops r hs b ≡ join b (append_hops r hs cleared)
  append_hops-alone r hs b =
      ap (append_hops r hs) (sym (join-cleared b)) ∙ append_hops-join r hs b cleared

  add_probe-join : (b d : Batch fl) (p : ProbeRow) → add_probe (join b d) p ≡ join b (add_probe d p)
  add_probe-join b d p = simp append_assoc

  -- An edge of two different addresses that are not empty.
  abbrev pub IsEdge : NextHop fl → Type 0
  IsEdge h = ¬ (h.from.addr ≡ []) × ¬ (h.to.addr ≡ []) × ¬ (h.from.addr ≡ h.to.addr)

  abbrev pub AreEdges : Batch fl → Type 0
  AreEdges b = All IsEdge b.next_hops × All IsLink b.as_links

  -- The same of a batch to which a record was added, where one was.
  abbrev pub AreEdgesIn : Option (Batch fl) → Type 0
  AreEdgesIn none = Unit {0}
  AreEdgesIn (some b) = AreEdges b

  skips_pair-IsEdge :
      (r : AtlasRecord) (a c : HopIp fl) → skips_pair a c ≡ false → IsEdge (next_hop r a c)
  skips_pair-IsEdge r a c e = (
    λ n. ground (arith, is_blank-nil a.addr n),
    λ n. ground (arith, is_blank-nil c.addr n),
    λ n.
        let same : bytes_eq a.addr c.addr ≡ true = (bytes_eq_iff a.addr c.addr).1 n in ground arith,
  )

  append_pair-AreEdges :
      (r : AtlasRecord) (a c : HopIp fl) (b : Batch fl)
      → AreEdges b
      → AreEdges (append_pair r a c b)
  unfolding append_pair
  append_pair-AreEdges r a c b h = elim (Bool-cases (skips_pair a c)) [
    | inl e ↦ rw e h
    | inr e ↦ elim (Bool-cases (links_as a c)) [
      | inl l ↦
          rw (e, l)
            (
              All-append IsEdge b.next_hops _ h.0 (skips_pair-IsEdge r a c e, tt),
              All-append IsLink b.as_links _ h.1 (ground arith, tt),
            )
      | inr l ↦ rw (e, l) (All-append IsEdge b.next_hops _ h.0 (skips_pair-IsEdge r a c e, tt), h.1)
    ]
  ]

  append_hops-AreEdges :
      (r : AtlasRecord) (hs : List (HopIp fl)) (b : Batch fl)
      → AreEdges b
      → AreEdges (append_hops r hs b)
  unfolding append_hops
  append_hops-AreEdges r [] b h = h
  append_hops-AreEdges r (a ∷ []) b h = h
  append_hops-AreEdges r (a ∷ c ∷ hs) b h =
      append_hops-AreEdges r (c ∷ hs) (append_pair r a c b) (append_pair-AreEdges r a c b h)

  module _ (decode_hops : Bytes → Option (List (Hop fl)))
      (decode_ping : Bytes → Option (PingPayload fl)) (find : Bytes → Option (ℤ × Bytes)) where
    append_traceroute-join :
        (r : AtlasRecord) (b : Batch fl)
        → append_traceroute decode_hops decode_ping find r b
          ≡ Option.map (join b) (append_traceroute decode_hops decode_ping find r cleared)
    unfolding append_traceroute
    append_traceroute-join r b = elim (Option-cases (decode_hops r.result_json)) [
      | inl e ↦ rw e refl
      | inr (hops, e) ↦ elim (Bool-cases (is_blank r.from_ip && is_blank r.dst_addr)) [
        | inl blank ↦
            rw (e, blank) (ap some (append_hops-alone r (with_asn find (responsive_hops hops)) b))
        | inr named ↦
            rw (e, named)
              (ap (λ d. some (add_probe d (probe_row find r)))
                  (append_hops-alone r (with_asn find (responsive_hops hops)) b)
                ∙ ap some (
                    add_probe-join b (append_hops r (with_asn find (responsive_hops hops)) cleared)
                      (probe_row find r)))
      ]
    ]

    append_ping-join :
        (r : AtlasRecord) (b : Batch fl)
        → append_ping decode_hops decode_ping find r b
          ≡ Option.map (join b) (append_ping decode_hops decode_ping find r cleared)
    unfolding append_ping
    append_ping-join r b = elim (Option-cases (decode_ping r.result_json)) [
      | inl e ↦ rw e refl
      | inr (pl, e) ↦ elim (Bool-cases (is_blank r.dst_addr)) [
        | inl blank ↦ rw (e, blank) refl
        | inr named ↦ rw (e, named) (ap some (simp append-nil))
      ]
    ]

    -- Whatever waits in the batch, a record that counts adds the operations that it adds to an empty
    -- batch, in each list behind those that wait, and a record that is skipped is so in any batch.
    pub ingest-join :
        (r : AtlasRecord) (b : Batch fl)
        → ingest decode_hops decode_ping find r b
          ≡ Option.map (join b) (ingest decode_hops decode_ping find r cleared)
    unfolding ingest
    ingest-join r b = elim (Bool-cases (is_graph_type r.type)) [
      | inr other ↦ rw other refl
      | inl known ↦ elim (Bool-cases (str_eq r.type "traceroute")) [
        | inl t ↦ rw (known, t) (append_traceroute-join r b)
        | inr t ↦ elim (Bool-cases (str_eq r.type "ping")) [
          | inl p ↦ rw (known, t, p) (append_ping-join r b)
          | inr p ↦ rw (known, t, p) (ap some (sym (join-cleared b)))
        ]
      ]
    ]

    append_traceroute-AreEdges :
        (r : AtlasRecord) (b : Batch fl)
        → AreEdges b
        → AreEdgesIn (append_traceroute decode_hops decode_ping find r b)
    unfolding append_traceroute
    append_traceroute-AreEdges r b h = elim (Option-cases (decode_hops r.result_json)) [
      | inl e ↦ rw e tt
      | inr (hops, e) ↦ elim (Bool-cases (is_blank r.from_ip && is_blank r.dst_addr)) [
        | inl blank ↦
            rw (e, blank) (append_hops-AreEdges r (with_asn find (responsive_hops hops)) b h)
        | inr named ↦
            rw (e, named) (append_hops-AreEdges r (with_asn find (responsive_hops hops)) b h)
      ]
    ]

    append_ping-AreEdges :
        (r : AtlasRecord) (b : Batch fl)
        → AreEdges b
        → AreEdgesIn (append_ping decode_hops decode_ping find r b)
    unfolding append_ping
    append_ping-AreEdges r b h = elim (Option-cases (decode_ping r.result_json)) [
      | inl e ↦ rw e tt
      | inr (pl, e) ↦ elim (Bool-cases (is_blank r.dst_addr)) [
        | inl blank ↦ rw (e, blank) tt
        | inr named ↦ rw (e, named) h
      ]
    ]

    -- If every hop edge of a batch joins two different addresses that are not empty, and every link
    -- two different known networks, that still holds when a record has been added to it.
    pub ingest-AreEdges :
        (r : AtlasRecord) (b : Batch fl)
        → AreEdges b
        → AreEdgesIn (ingest decode_hops decode_ping find r b)
    unfolding ingest
    ingest-AreEdges r b h = elim (Bool-cases (is_graph_type r.type)) [
      | inr other ↦ rw other tt
      | inl known ↦ elim (Bool-cases (str_eq r.type "traceroute")) [
        | inl t ↦ rw (known, t) (append_traceroute-AreEdges r b h)
        | inr t ↦ elim (Bool-cases (str_eq r.type "ping")) [
          | inl p ↦ rw (known, t, p) (append_ping-AreEdges r b h)
          | inr p ↦ rw (known, t, p) h
        ]
      ]
    ]
