-- ===== src/Api/Cache/Stale.antt =====
-- What a reader of the refresh cache sees while refreshes fail.
use ripestream.Base.{
  Bool, true, false, ◌||◌, none, some, List, [], ◌∷◌, ◌≡◌, All, refl, Bool-cases, inl, inr,
}
use ripestream.Api.Cache.{RefreshCache, Load, store_result, refresh, refreshes, get}

abbrev pub Failed : {A : Type 0} → Load A → Type 0
Failed l = (l.done ≡ false) × (l.result ≡ none)

abbrev pub is_nonempty : {A : Type 0} → List A → Bool
is_nonempty [] = false
is_nonempty (_ ∷ _) = true

or_true : (b : Bool) → b || true ≡ true
or_true true = refl
or_true false = refl

get-refreshes :
    {A : Type 0} (z v : A) (c : RefreshCache A) (ls : List (Load A))
    → c.val ≡ some v
    → All Failed ls
    → get z (refreshes c ls) ≡ (v, c.stale || is_nonempty ls, true)
unfolding get refreshes refresh store_result
get-refreshes z v c [] h f = elim (Bool-cases c.stale) [
  | inl e ↦ rw (h, e) refl
  | inr e ↦ rw (h, e) refl
]
get-refreshes z v c (l ∷ ls) h f =
    rw (f.0.0, f.0.1, or_true c.stale) (get-refreshes z v (store_result c none l.took_ms) ls h f.1)

-- After a refresh that succeeded with a value, and however many that failed since, `get` returns
-- that value, and says that it is stale exactly when one has failed.
pub get-refreshes-Failed :
    {A : Type 0} (z v : A) (c : RefreshCache A) (good : Load A) (ls : List (Load A))
    → good.done ≡ false
    → good.result ≡ some v
    → All Failed ls
    → get z (refreshes c (good ∷ ls)) ≡ (v, is_nonempty ls, true)
unfolding refreshes refresh store_result
get-refreshes-Failed z v c good ls d r f =
    rw (d, r) (get-refreshes z v (store_result c (some v) good.took_ms) ls refl f)
