-- ===== src/Graph/Sort/Whitelist.antt =====
-- Whatever a request asks for, ORDER BY has an expression of the source.
use ripestream.Base.{
  ◌≡◌, refl, ◌∙◌, if◌then◌else◌, List, [], ◌∷◌, Option, none, some, String, str_eq, inl, inr,
  Bool-cases, ◌⊎◌,
}
use ripestream.Graph.Sort.{
  sort_dir, asn_issue_sort_expr, probe_sort_expr, detail_target_sort_expr, detail_probe_sort_expr,
  target_sort_expr, hop_sort_expr, transit_sort_expr, validated_sort,
}

abbrev pub IsAmong : String → List String → Type 0
IsAmong s [] = ⊥
IsAmong s (t ∷ ts) = (s ≡ t) ⊎ IsAmong s ts

abbrev pub MayBe : Option String → List String → Type 0
MayBe none ts = Unit {0}
MayBe (some s) ts = IsAmong s ts

IsAmong-transport : (s x : String) (ts : List String) → s ≡ x → IsAmong x ts → IsAmong s ts
IsAmong-transport s x [] e m = m
IsAmong-transport s x (t ∷ ts) e (inl p) = inl (e ∙ p)
IsAmong-transport s x (t ∷ ts) e (inr m) = inr (IsAmong-transport s x ts e m)

validated_sort-IsAmong :
    (sort def_expr : String) (pick : String → Option String) (ts : List String)
    → MayBe (pick sort) ts
    → IsAmong (validated_sort sort def_expr pick) (def_expr ∷ ts)
unfolding validated_sort
validated_sort-IsAmong sort def_expr pick ts h = go (pick sort) refl h
  where
    go :
        (o : Option String)
        → pick sort ≡ o
        → MayBe o ts
        → IsAmong (validated_sort sort def_expr pick) (def_expr ∷ ts)
    go none e m = inl (rw e refl)
    go (some x) e m = inr (IsAmong-transport (validated_sort sort def_expr pick) x ts (rw e refl) m)

-- A whitelist as a table of keys and expressions.
abbrev from_table : List (String × String) → String → Option String
from_table [] s = none
from_table (e ∷ t) s = if str_eq s e.0 then some e.1 else from_table t s

abbrev values : List (String × String) → List String
values [] = []
values (e ∷ t) = e.1 ∷ values t

MayBe-cons : (o : Option String) (v : String) (ts : List String) → MayBe o ts → MayBe o (v ∷ ts)
MayBe-cons none v ts m = tt
MayBe-cons (some x) v ts m = inr m

from_table-MayBe : (t : List (String × String)) (s : String) → MayBe (from_table t s) (values t)
from_table-MayBe [] s = tt
from_table-MayBe (e ∷ t) s = elim (Bool-cases (str_eq s e.0)) [
  | inl h ↦ rw h (inl refl)
  | inr h ↦ rw h (MayBe-cons (from_table t s) e.1 (values t) (from_table-MayBe t s))
]

-- A picker that is a table.
tabled :
    (sort def_expr : String) (pick : String → Option String) (t : List (String × String))
    → pick sort ≡ from_table t sort
    → IsAmong (validated_sort sort def_expr pick) (def_expr ∷ values t)
tabled sort def_expr pick t e =
    validated_sort-IsAmong sort def_expr pick (values t) (rw e (from_table-MayBe t sort))

abbrev detail_table : List (String × String)
detail_table = ("loss", "loss") ∷ ("rtt", "rtt") ∷ ("last_seen", "last_seen") ∷ []

sort_dir-IsAmong : (order : String) → IsAmong (sort_dir order) ("ASC" ∷ "DESC" ∷ [])
unfolding sort_dir
sort_dir-IsAmong order = elim (Bool-cases (str_eq order "asc")) [
  | inl e ↦ rw e (inl refl)
  | inr e ↦ rw e (inr (inl refl))
]

-- Whatever sort key and order a request has, ORDER BY gets the default of the query or one of the
-- expressions that the source names for it, and the direction ASC or DESC.
pub validated_sort-whitelists :
    (sort order def_expr : String)
    → IsAmong
        (validated_sort sort def_expr asn_issue_sort_expr)
        (def_expr ∷ "avg_loss" ∷ "probes" ∷ "samples" ∷ "last_seen" ∷ [])
      × IsAmong
          (validated_sort sort def_expr probe_sort_expr)
          (def_expr ∷ "avg_loss" ∷ "avg_rtt" ∷ "last_seen" ∷ [])
      × IsAmong
          (validated_sort sort def_expr detail_target_sort_expr)
          (def_expr ∷ "loss" ∷ "rtt" ∷ "last_seen" ∷ [])
      × IsAmong
          (validated_sort sort def_expr target_sort_expr)
          (def_expr ∷ "avg_loss" ∷ "avg_rtt" ∷ "probes" ∷ "last_seen" ∷ "impact" ∷ [])
      × IsAmong (validated_sort sort def_expr hop_sort_expr) (def_expr ∷ "rtt" ∷ "sc" ∷ "ls" ∷ [])
      × IsAmong (validated_sort sort def_expr transit_sort_expr) (def_expr ∷ "sc" ∷ "ls" ∷ [])
      × IsAmong (sort_dir order) ("ASC" ∷ "DESC" ∷ [])
unfolding asn_issue_sort_expr probe_sort_expr detail_target_sort_expr detail_probe_sort_expr
    target_sort_expr hop_sort_expr transit_sort_expr sort_dir
validated_sort-whitelists sort order def_expr = (
  tabled sort def_expr asn_issue_sort_expr
      (("loss", "avg_loss")
        ∷ ("probes", "probes")
        ∷ ("samples", "samples")
        ∷ ("last_seen", "last_seen")
        ∷ [])
      refl,
  tabled sort def_expr probe_sort_expr
      (("loss", "avg_loss") ∷ ("rtt", "avg_rtt") ∷ ("last_seen", "last_seen") ∷ []) refl,
  tabled sort def_expr detail_target_sort_expr detail_table refl,
  tabled sort def_expr target_sort_expr
      (("loss", "avg_loss")
        ∷ ("rtt", "avg_rtt")
        ∷ ("probes", "probes")
        ∷ ("last_seen", "last_seen")
        ∷ ("impact", "impact")
        ∷ [])
      refl,
  tabled sort def_expr hop_sort_expr
      (("rtt", "rtt") ∷ ("observations", "sc") ∷ ("last_seen", "ls") ∷ []) refl,
  tabled sort def_expr transit_sort_expr (("observations", "sc") ∷ ("last_seen", "ls") ∷ []) refl,
  sort_dir-IsAmong order,
)
