-- ===== src/Base/Text.antt =====
-- Go strings as byte strings: equality and the lexicographic order.
use mathlib.Core.Path.{◌≡◌, refl}
use mathlib.Core.Logic.{◌↔◌}
use mathlib.Core.Bool.{Bool, true, false, ◌&&◌, ◌||◌}
use mathlib.Core.List.{[], ◌∷◌}
use native.Mathlib.Omega.{arith}
use ripestream.Base.Tests.{ltb, ◌==◌}
use ripestream.Base.Lists.{Bytes}

unfoldable pub bytes_eq : Bytes → Bytes → Bool
bytes_eq [] [] = true
bytes_eq (x ∷ xs) (y ∷ ys) = x == y && bytes_eq xs ys
bytes_eq _ _ = false

unfoldable pub ltb_bytes : Bytes → Bytes → Bool
ltb_bytes [] [] = false
ltb_bytes [] (y ∷ ys) = true
ltb_bytes (x ∷ xs) [] = false
ltb_bytes (x ∷ xs) (y ∷ ys) = ltb x y || (x == y && ltb_bytes xs ys)

pub bytes_eq_iff : (a b : Bytes) → (bytes_eq a b ≡ true) ↔ (a ≡ b)
unfolding bytes_eq
bytes_eq_iff (x ∷ xs) (y ∷ ys) = ground (arith, bytes_eq_iff xs ys)
bytes_eq_iff _ _ = ground arith

pub bytes_eq_refl : (a : Bytes) → bytes_eq a a ≡ true
bytes_eq_refl a = (bytes_eq_iff a a).1 refl

pub ltb_bytes_irrefl : (a : Bytes) → ltb_bytes a a ≡ false
unfolding ltb_bytes
ltb_bytes_irrefl [] = refl
ltb_bytes_irrefl (x ∷ xs) = ground (arith, ltb_bytes_irrefl xs)

pub ltb_bytes_trans :
    (a b c : Bytes) → ltb_bytes a b ≡ true → ltb_bytes b c ≡ true → ltb_bytes a c ≡ true
unfolding ltb_bytes
ltb_bytes_trans (x ∷ xs) (y ∷ ys) (z ∷ zs) h k = ground (arith, ltb_bytes_trans xs ys zs)
ltb_bytes_trans _ _ _ h k = ground arith

-- Two strings neither of which is below the other are equal.
pub ltb_bytes_total :
    (a b : Bytes) → ltb_bytes a b ≡ false → ltb_bytes b a ≡ false → bytes_eq a b ≡ true
unfolding ltb_bytes bytes_eq
ltb_bytes_total (x ∷ xs) (y ∷ ys) h k = ground (arith, ltb_bytes_total xs ys)
ltb_bytes_total _ _ h k = ground arith

pub ltb_bytes_negtrans :
    (a b c : Bytes) → ltb_bytes b a ≡ false → ltb_bytes c b ≡ false → ltb_bytes c a ≡ false
unfolding ltb_bytes
ltb_bytes_negtrans (x ∷ xs) (y ∷ ys) (z ∷ zs) h k = ground (arith, ltb_bytes_negtrans xs ys zs)
ltb_bytes_negtrans [] [] [] h k = ground arith
ltb_bytes_negtrans [] [] (z ∷ zs) h k = ground arith
ltb_bytes_negtrans [] (y ∷ ys) [] h k = ground arith
ltb_bytes_negtrans [] (y ∷ ys) (z ∷ zs) h k = ground arith
ltb_bytes_negtrans (x ∷ xs) [] [] h k = ground arith
ltb_bytes_negtrans (x ∷ xs) [] (z ∷ zs) h k = ground arith
ltb_bytes_negtrans (x ∷ xs) (y ∷ ys) [] h k = ground arith
