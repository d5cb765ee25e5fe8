-- ===== src/Graph/Paths/Hops.antt =====
-- The hops of a path: the addresses of the row, each with the time and the count of the edge to it and
-- with its network.
use ripestream.Base.{
  suc, ◌<◌, ◌≤◌, ◌≡◌, refl, List, [], ◌∷◌, map, Option, none, some, Bytes, length, take, arith,
  if◌then◌else◌, inr,
}
use ripestream.Base.Int.{ℤ, pos, eqb_ℤ}
use ripestream.Base.Float.{Float}
use ripestream.Base.Assoc.{Dict, lookup}
use ripestream.Graph.Values.{ptr_if}
use ripestream.Graph.Paths.{
  PathHop, PathRow, AsnInfo, PathReply, enrich, later_hops, with_first, path_of, path,
}

-- The number, unless it is 0, and the name of the network of an address.
abbrev pub network_of : Option AsnInfo → Option ℤ × Bytes
network_of none = (none, [])
network_of (some info) = (if eqb_ℤ info.asn (pos 0) then none else some info.asn, info.org)

enrich-keeps :
    (fl : Float) (info : Option AsnInfo) (a : Bytes) (rtt : Float.F fl) (seen : ℤ)
    → ((enrich {fl = fl} info a rtt seen).addr ≡ a)
      × ((enrich {fl = fl} info a rtt seen).rtt_ms ≡ rtt)
      × ((enrich {fl = fl} info a rtt seen).seen_count ≡ seen)
      × (((enrich {fl = fl} info a rtt seen).asn, (enrich {fl = fl} info a rtt seen).org)
          ≡ network_of info)
unfolding enrich ptr_if
enrich-keeps fl none a rtt seen = (refl, refl, refl, refl)
enrich-keeps fl (some info) a rtt seen = (refl, refl, refl, refl)

module _ {fl : Float} (m : Dict AsnInfo) where
  -- What a list of hops says of addresses, times and counts, and of the networks of the addresses.
  abbrev pub Traces : List Bytes → List (Float.F fl) → List ℤ → List (PathHop fl) → Type 0
  Traces addrs rtts seens hops =
      (map (λ h. h.addr) hops ≡ addrs)
      × (map (λ h. h.rtt_ms) hops ≡ take (length addrs) rtts)
      × (map (λ h. h.seen_count) hops ≡ take (length addrs) seens)
      × (map (λ h. (h.asn, h.org)) hops ≡ map (λ a. network_of (lookup a m)) addrs)

  enrich-Traces :
      (a : Bytes) (rtt : Float.F fl) (seen : ℤ) (addrs : List Bytes) (rtts : List (Float.F fl))
      (seens : List ℤ) (hops : List (PathHop fl))
      → Traces addrs rtts seens hops
      → Traces
          (a ∷ addrs)
          (rtt ∷ rtts)
          (seen ∷ seens)
          (enrich {fl = fl} (lookup a m) a rtt seen ∷ hops)
  enrich-Traces a rtt seen addrs rtts seens hops t =
      let kept = enrich-keeps fl (lookup a m) a rtt seen in
      (rw (kept.0, t.0) refl, rw (kept.1, t.1) refl, rw (kept.2, t.2) refl, rw (kept.3, t.3) refl)

  later_hops-Traces :
      (addrs : List Bytes) (rtts : List (Float.F fl)) (seens : List ℤ)
      → length addrs ≤ length rtts
      → length addrs ≤ length seens
      → (hops : List (PathHop fl)) × (later_hops m addrs rtts seens ≡ some hops)
        × Traces addrs rtts seens hops
  unfolding later_hops
  later_hops-Traces [] rtts seens h k = ([], refl, (refl, refl, refl, refl))
  later_hops-Traces (a ∷ rest) [] seens h k = absurd (omega arith)
  later_hops-Traces (a ∷ rest) (rtt ∷ rtts) [] h k = absurd (omega arith)
  later_hops-Traces (a ∷ rest) (rtt ∷ rtts) (seen ∷ seens) h k =
      let (hops, found, traces) = later_hops-Traces rest rtts seens (omega arith) (omega arith) in
      (
        enrich {fl = fl} (lookup a m) a rtt seen ∷ hops,
        rw found refl,
        enrich-Traces a rtt seen rest rtts seens hops traces,
      )

  path_of-Traces :
      (unknown : Float.F fl) (row : PathRow fl) (addrs : List Bytes)
      → 0 < length addrs
      → length addrs ≤ suc (length row.rtts)
      → length addrs ≤ suc (length row.seen_counts)
      → (hops : List (PathHop fl)) × (path_of unknown m row addrs ≡ PathReply.found hops)
        × Traces addrs (unknown ∷ row.rtts) (pos 0 ∷ row.seen_counts) hops
  unfolding path_of with_first
  path_of-Traces unknown row [] p h k = absurd (omega arith)
  path_of-Traces unknown row (a ∷ rest) p h k =
      let (hops, found, traces) =
        later_hops-Traces rest row.rtts row.seen_counts (omega arith) (omega arith) in
      (
        enrich {fl = fl} (lookup a m) a unknown (pos 0) ∷ hops,
        rw found refl,
        enrich-Traces a unknown (pos 0) rest row.rtts row.seen_counts hops traces,
      )

  -- If the first row of the query has addresses, and a time and a count for each edge between them, then
  -- `Path` finds a hop for each address in turn: the first with the time that stands for none and the
  -- count 0, each other with the time and the count of the edge that leads to it, and all with the number
  -- and the name of their network, where the map has it and the number is not 0.
  pub path-Traces :
      (unknown : Float.F fl) (row : PathRow fl) (rows : List (PathRow fl))
      → 0 < length row.addrs
      → length row.addrs ≤ suc (length row.rtts)
      → length row.addrs ≤ suc (length row.seen_counts)
      → (hops : List (PathHop fl)) × (path unknown (inr (row ∷ rows)) m ≡ PathReply.found hops)
        × Traces row.addrs (unknown ∷ row.rtts) (pos 0 ∷ row.seen_counts) hops
  unfolding path
  path-Traces unknown row rows p h k = path_of-Traces unknown row row.addrs p h k
