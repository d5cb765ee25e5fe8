-- ===== src/Base/Assoc.antt =====
-- Go maps with string keys as association lists, in the order in which keys were first put.
use ripestream.Base.Tests.{if◌then◌else◌, Bool-cases}
use ripestream.Base.Lists.{Bytes}
use ripestream.Base.Text.{bytes_eq, bytes_eq_iff, bytes_eq_refl}
use mathlib.Core.Path.{◌≡◌, refl}
use mathlib.Core.Logic.{inl, inr}
use mathlib.Core.Bool.{Bool, true, false, ◌||◌}
use mathlib.Core.Option.{Option, none, some}
use mathlib.Core.List.{List, [], ◌∷◌}
use native.Mathlib.Omega.{arith}

abbrev pub is_some {ℓ} : {A : Type ℓ} → Option A → Bool
is_some none = false
is_some (some _) = true

abbrev pub member : Bytes → List Bytes → Bool
member k [] = false
member k (x ∷ xs) = bytes_eq x k || member k xs

abbrev pub Dict {ℓ} : Type ℓ → Type ℓ
Dict V = List (Bytes × V)

module _ {ℓ} {V : Type ℓ} where
  unfoldable pub lookup : Bytes → Dict V → Option V
  lookup k [] = none
  lookup k (e ∷ es) = if bytes_eq e.0 k then some e.1 else lookup k es

  -- `m[k] = v`.
  unfoldable pub put : Dict V → Bytes → V → Dict V
  put [] k v = (k, v) ∷ []
  put (e ∷ es) k v = if bytes_eq e.0 k then (k, v) ∷ es else e ∷ put es k v

  abbrev pub keys : Dict V → List Bytes
  keys [] = []
  keys (e ∷ es) = e.0 ∷ keys es

  pub lookup-put_self : (m : Dict V) (k : Bytes) (v : V) → lookup k (put m k v) ≡ some v
  unfolding lookup put
  lookup-put_self [] k v = rw (bytes_eq_refl k) refl
  lookup-put_self (e ∷ es) k v = elim (Bool-cases (bytes_eq e.0 k)) [
    | inl h ↦ rw (h, bytes_eq_refl k) refl
    | inr h ↦ rw (h, h) (lookup-put_self es k v)
  ]

  pub lookup-put_ne :
      (m : Dict V) (j k : Bytes) (v : V) → bytes_eq k j ≡ false → lookup j (put m k v) ≡ lookup j m
  unfolding lookup put
  lookup-put_ne [] j k v n = rw n refl
  lookup-put_ne (e ∷ es) j k v n = elim (Bool-cases (bytes_eq e.0 k)) [
    | inl h ↦ ground (arith, bytes_eq_iff e.0 k)
    | inr h ↦ ground (arith, lookup-put_ne es j k v n)
  ]

  pub lookup-put :
      (m : Dict V) (j k : Bytes) (v : V)
      → lookup j (put m k v) ≡ (if bytes_eq k j then some v else lookup j m)
  lookup-put m j k v = elim (Bool-cases (bytes_eq k j)) [
    | inl h ↦ rw h (rw ((bytes_eq_iff k j).0 h) (lookup-put_self m j v))
    | inr h ↦ rw h (lookup-put_ne m j k v h)
  ]

  pub member-keys : (m : Dict V) (k : Bytes) → member k (keys m) ≡ is_some (lookup k m)
  unfolding lookup
  member-keys [] k = refl
  member-keys (e ∷ es) k = ground (arith, member-keys es k)
