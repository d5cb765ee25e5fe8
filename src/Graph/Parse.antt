-- ===== src/Graph/Parse.antt =====
-- internal/graph/parse.go: the hops of a traceroute, the loss of a ping, and which records count.
-- The decoding of JSON is encoding/json's; these functions begin where it ends.
pub mod Replies
use ripestream.Base.{
  ℕ, ◌+◌, ◌-◌, Bool, true, false, not, ◌&&◌, ◌||◌, List, [], ◌∷◌, Option, none, some, String,
  str_eq, Bytes, leb, ◌==◌, if◌then◌else◌,
}
use ripestream.Base.Int.{ℤ, pos}
use ripestream.Base.Float.{Float}
use ripestream.Base.Text.{bytes_eq}

-- `tracerouteHopResponse`.
pub record Reply (fl : Float) : Type 0 where
  pub from : Bytes
  pub rtt : Float.F fl
  pub x : String

-- `tracerouteHop`.
pub record Hop (fl : Float) : Type 0 where
  pub hop : ℤ
  pub result : List (Reply fl)

-- `pingPayload`.
pub record PingPayload (fl : Float) : Type 0 where
  pub avg : Float.F fl
  pub min_rtt : Float.F fl
  pub max_rtt : Float.F fl
  pub sent : ℕ
  pub rcvd : ℕ

-- `hopIP`.
pub record HopIp (fl : Float) : Type 0 where
  pub addr : Bytes
  pub rtt : Float.F fl
  pub asn : ℤ
  pub org : Bytes

-- The locals of the loop of `hopBestReply`.
pub record Best (fl : Float) : Type 0 where
  pub addr : Bytes
  pub sum : Float.F fl
  pub n : ℕ

abbrev pub is_blank : Bytes → Bool
is_blank [] = true
is_blank (_ ∷ _) = false

-- `lossRatio`.
unfoldable pub loss_ratio : (fl : Float) → ℕ → ℕ → Float.F fl
loss_ratio fl sent rcvd =
    if sent == 0
    then Float.of_nat fl 0
    else if leb sent rcvd
    then Float.of_nat fl 0
    else Float.div fl (Float.of_nat fl (sent - rcvd)) (Float.of_nat fl sent)

-- `isGraphType`, on the type of the record.
unfoldable pub is_graph_type : String → Bool
is_graph_type type = str_eq type "traceroute" || str_eq type "ping"

module _ {fl : Float} where
  abbrev pub times_out : Reply fl → Bool
  times_out r = is_blank r.from || str_eq r.x "*"

  -- A reply that counts: the first gives the address, and the others must come from it.
  abbrev pub count_reply : Best fl → Reply fl → Best fl
  count_reply b r =
      let addr = if is_blank b.addr then r.from else b.addr in
      if bytes_eq r.from addr
      then record { addr = addr; sum = Float.add fl b.sum r.rtt; n = b.n + 1 }
      else record { addr = addr; sum = b.sum; n = b.n }

  unfoldable pub best_loop : Best fl → List (Reply fl) → Best fl
  best_loop b [] = b
  best_loop b (r ∷ rs) =
      let counted = best_loop (count_reply b r) rs in
      let skipped = best_loop b rs in if times_out r then skipped else counted

  -- `hopBestReply`.
  unfoldable pub hop_best_reply : List (Reply fl) → Option (Bytes × Float.F fl)
  unfolding best_loop
  hop_best_reply replies =
      let b = best_loop (record { addr = []; sum = Float.of_nat fl 0; n = 0 }) replies in
      if is_blank b.addr || b.n == 0
      then none
      else some (b.addr, Float.div fl b.sum (Float.of_nat fl b.n))

  -- A hop that answers goes in front of those behind it.
  abbrev pub keep_hop : Option (Bytes × Float.F fl) → List (HopIp fl) → List (HopIp fl)
  keep_hop none later = later
  keep_hop (some (addr, rtt)) later =
      record { addr = addr; rtt = rtt; asn = pos 0; org = [] } ∷ later

  -- `extractResponsiveHops`, on the decoded hops.
  unfoldable pub responsive_hops : List (Hop fl) → List (HopIp fl)
  responsive_hops [] = []
  responsive_hops (h ∷ hs) = keep_hop (hop_best_reply h.result) (responsive_hops hs)
