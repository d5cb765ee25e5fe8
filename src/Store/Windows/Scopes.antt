-- ===== src/Store/Windows/Scopes.antt =====
-- The lists that a query names.
use mathlib.Core.Path.{subst}
use mathlib.Core.List.{Memᴰ}
use ripestream.Base.{
  ◌≤◌, ◌<◌, ◌≡◌, refl, true, false, not, ◌&&◌, ◌||◌, List, [], ◌∷◌, ◌++◌, Bytes, length, Option,
  length-append, All, All-append, arith, ltb, Bool-cases, inl, inr, ◌⊎◌,
}
use ripestream.Base.Int.{ℤ, pos, ltb_ℤ, ◌<ℤ◌, ◌-ℤ◌}
use ripestream.Base.Text.{ltb_bytes, ltb_bytes_irrefl, ltb_bytes_trans, ltb_bytes_negtrans}
use ripestream.Base.Assoc.{member}
use ripestream.Base.Sorted.{IsSorted, All-sort_by, length-sort_by, sort_by-IsSorted}
use ripestream.Store.Windows.{
  target_set, target_list, has_probe, probe_set, probe_list, ScopeError, pair_scope,
  pair_series_scope, or_time, day,
}

module _ {κ} (P : Bytes → Type κ) where
  target_set-kept :
      (found ts : List Bytes)
      → ((t : Bytes) → Memᴰ t ts → ¬ (t ≡ []) → P t)
      → All P found
      → length found ≤ 500
      → All P (target_set found ts) × (length (target_set found ts) ≤ 500)
  unfolding target_set
  target_set-kept found [] p h n = (h, n)
  target_set-kept found ([] ∷ ts) p h n = target_set-kept found ts (λ t m. p t (Memᴰ.tail m)) h n
  target_set-kept found ((c ∷ cs) ∷ ts) p h n =
      elim (Bool-cases (not (ltb (length found) 500) || member (c ∷ cs) found)) [
        | inl e ↦ rw e (target_set-kept found ts (λ t m. p t (Memᴰ.tail m)) h n)
        | inr e ↦ rw e (
            target_set-kept (found ++ (c ∷ cs) ∷ []) ts (λ t m. p t (Memᴰ.tail m))
              (All-append P found ((c ∷ cs) ∷ []) h (p (c ∷ cs) (Memᴰ.head refl) (λ e. cc), tt))
              (ground (arith, length-append found ((c ∷ cs) ∷ []))))
      ]

module _ {κ} (P : ℤ → Type κ) where
  probe_set-kept :
      (found ids : List ℤ)
      → ((id : ℤ) → Memᴰ id ids → pos 0 <ℤ id → P id)
      → All P found
      → length found ≤ 500
      → All P (probe_set found ids) × (length (probe_set found ids) ≤ 500)
  unfolding probe_set
  probe_set-kept found [] p h n = (h, n)
  probe_set-kept found (id ∷ ids) p h n =
      elim (Bool-cases (not (ltb_ℤ (pos 0) id && ltb (length found) 500) || has_probe id found)) [
        | inl e ↦ rw e (probe_set-kept found ids (λ j m. p j (Memᴰ.tail m)) h n)
        | inr e ↦ rw e (
            probe_set-kept (found ++ id ∷ []) ids (λ j m. p j (Memᴰ.tail m))
              (All-append P found (id ∷ []) h (p id (Memᴰ.head refl) (ground arith), tt))
              (ground (arith, length-append found (id ∷ []))))
      ]

ltb_bytes_asym : (a b : Bytes) → ltb_bytes a b ≡ true → ltb_bytes b a ≡ false
ltb_bytes_asym a b h = elim (Bool-cases (ltb_bytes b a)) [
  | inl e ↦ absurd (ground (arith, ltb_bytes_irrefl a, ltb_bytes_trans a b a h e))
  | inr n ↦ n
]

-- At most 500 of the given targets, none of them empty, in ascending order.
abbrev pub AreTargets : List Bytes → List Bytes → Type 0
AreTargets targets ts =
    (length ts ≤ 500) × All (λ t. ¬ (t ≡ []) × Memᴰ t targets) ts × IsSorted ltb_bytes ts

-- At most 500 of the given probes, with positive identifiers, in ascending order.
abbrev pub AreProbes : List ℤ → List ℤ → Type 0
AreProbes probes ps =
    (length ps ≤ 500) × All (λ id. (pos 0 <ℤ id) × Memᴰ id probes) ps × IsSorted ltb_ℤ ps

target_list-AreTargets : (targets : List Bytes) → AreTargets targets (target_list targets)
unfolding target_list
target_list-AreTargets targets =
    let kept =
      target_set-kept (λ t. ¬ (t ≡ []) × Memᴰ t targets) [] targets (λ t m n. (n, m)) tt
        (omega arith) in
    (
      omega (arith, kept.1, length-sort_by ltb_bytes (target_set [] targets)),
      All-sort_by ltb_bytes (λ t. ¬ (t ≡ []) × Memᴰ t targets) (target_set [] targets) kept.0,
      sort_by-IsSorted ltb_bytes ltb_bytes_asym ltb_bytes_negtrans (target_set [] targets),
    )

probe_list-AreProbes : (probes : List ℤ) → AreProbes probes (probe_list probes)
unfolding probe_list
probe_list-AreProbes probes =
    let kept =
      probe_set-kept (λ id. (pos 0 <ℤ id) × Memᴰ id probes) [] probes (λ t m n. (n, m)) tt
        (omega arith) in
    (
      omega (arith, kept.1, length-sort_by ltb_ℤ (probe_set [] probes)),
      All-sort_by ltb_ℤ (λ id. (pos 0 <ℤ id) × Memᴰ id probes) (probe_set [] probes) kept.0,
      sort_by-IsSorted ltb_ℤ (λ a b h. ground arith) (λ a b c h k. ground arith)
          (probe_set [] probes),
    )

-- Some probes and some targets, of those that are given.
IsScope : List ℤ → List Bytes → ScopeError ⊎ (List ℤ × List Bytes) → Type 0
IsScope probes targets (inl e) = Unit
IsScope probes targets (inr s) =
    (0 < length s.0) × (0 < length s.1) × AreProbes probes s.0 × AreTargets targets s.1

pair_scope-IsScope :
    (probes : List ℤ) (targets : List Bytes) (ps : List ℤ) (ts : List Bytes)
    → AreProbes probes ps
    → AreTargets targets ts
    → IsScope probes targets (pair_scope ps ts)
unfolding pair_scope IsScope
pair_scope-IsScope probes targets [] ts h k = tt
pair_scope-IsScope probes targets (p ∷ ps) [] h k = tt
pair_scope-IsScope probes targets (p ∷ ps) (t ∷ ts) h k = (omega arith, omega arith, h, k)

pair_series_scope-IsScope :
    (now : ℤ) (from? to? : Option ℤ) (probes : List ℤ) (targets : List Bytes)
    → IsScope probes targets (pair_series_scope now from? to? probes targets)
unfolding pair_series_scope IsScope
pair_series_scope-IsScope now from? to? probes targets =
    let to : ℤ = or_time to? now in
    let from : ℤ = or_time from? (to -ℤ day) in
    elim (Bool-cases (ltb_ℤ from to)) [
      | inl e ↦ rw e (
          pair_scope-IsScope probes targets (probe_list probes) (target_list targets)
            (probe_list-AreProbes probes) (target_list-AreTargets targets))
      | inr e ↦ rw e tt
    ]

-- A query of `buildPingPairSeriesQuery` names some probes and some targets, at most 500 of each and all
-- of them given by the caller, in ascending order; no identifier is 0 or negative and no target empty.
pub pair_series_scope-AreProbes :
    (now : ℤ) (from? to? : Option ℤ) (probes : List ℤ) (targets : List Bytes) (ps : List ℤ)
    (ts : List Bytes)
    → pair_series_scope now from? to? probes targets ≡ inr (ps, ts)
    → (0 < length ps) × (0 < length ts) × AreProbes probes ps × AreTargets targets ts
unfolding IsScope
pair_series_scope-AreProbes now from? to? probes targets ps ts e =
    subst (IsScope probes targets) e (pair_series_scope-IsScope now from? to? probes targets)
