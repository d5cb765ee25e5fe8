-- ===== src/Base/Ascii.antt =====
-- Texts of the source as byte strings, and the functions of Go's strings package that the source
-- uses on them. Case and white space are those of ASCII.
use Prim.Native.Nat.{ℕ, ◌+◌, ◌-◌, ◌/◌, ◌%◌, zero, suc}
use Prim.Native.Char.{code}
use Prim.Native.String.{String, [] as no_text, ◌∷◌ as ◌∷ˢ◌}
use mathlib.Core.Path.{◌≡◌, refl, ap, ◌∙◌}
use mathlib.Core.Bool.{Bool, true, false, ◌&&◌, ◌||◌}
use mathlib.Core.List.{List, [], ◌∷◌, ◌++◌, map}
use native.Mathlib.Omega.{arith}
use ripestream.Base.Tests.{ltb, leb, ◌==◌, if◌then◌else◌}
use ripestream.Base.Lists.{Bytes, All}
use ripestream.Base.Int.{ℤ, pos, negsuc}

-- The bytes of an ASCII text.
unfoldable pub ascii : String → Bytes
ascii no_text = []
ascii (c ∷ˢ s) = code c ∷ ascii s

-- `strings.ToLower` and `strings.ToUpper`.
unfoldable pub to_lower : Bytes → Bytes
to_lower = map (λ c. if leb 65 c && leb c 90 then c + 32 else c)

unfoldable pub to_upper : Bytes → Bytes
to_upper = map (λ c. if leb 97 c && leb c 122 then c - 32 else c)

-- `strings.HasPrefix` and `strings.Contains`.
unfoldable pub has_prefix : Bytes → Bytes → Bool
has_prefix s [] = true
has_prefix [] (p ∷ ps) = false
has_prefix (c ∷ s) (p ∷ ps) = c == p && has_prefix s ps

unfoldable pub contains : Bytes → Bytes → Bool
contains [] q = has_prefix [] q
contains (c ∷ s) q = has_prefix (c ∷ s) q || contains s q

-- `strings.Split` by one byte, and `strings.Join` with one.
unfoldable pub extend : ℕ → List Bytes → List Bytes
extend c [] = (c ∷ []) ∷ []
extend c (p ∷ ps) = (c ∷ p) ∷ ps

unfoldable pub split : ℕ → Bytes → List Bytes
split sep [] = [] ∷ []
split sep (c ∷ s) = let rest = split sep s in if c == sep then [] ∷ rest else extend c rest

unfoldable pub join : Bytes → List Bytes → Bytes
join sep [] = []
join sep (p ∷ []) = p
join sep (p ∷ q ∷ ps) = p ++ (sep ++ join sep (q ∷ ps))

-- `strconv.FormatInt` in base 10, on 20 digits at most, which an int64 does not exceed.
unfoldable pub digits : ℕ → ℕ → Bytes → Bytes
digits zero n acc = acc
digits (suc fuel) n acc =
    let more = digits fuel (n / 10) ((48 + n % 10) ∷ acc) in
    if ltb n 10 then (48 + n) ∷ acc else more

unfoldable pub format_int : ℤ → Bytes
format_int (pos n) = digits 20 n []
format_int (negsuc n) = 45 ∷ digits 20 (suc n) []

-- A byte string without a given byte.
unfoldable pub Lacks : ℕ → Bytes → Type 0
Lacks sep [] = Unit
Lacks sep (c ∷ s) = ((c == sep) ≡ false) × Lacks sep s

split-one : (sep : ℕ) (p : Bytes) → Lacks sep p → split sep p ≡ p ∷ []
unfolding split Lacks extend
split-one sep [] h = refl
split-one sep (c ∷ s) h = rw (h.0, split-one sep s h.1) refl

split-first :
    (sep : ℕ) (p rest : Bytes) → Lacks sep p → split sep (p ++ sep ∷ rest) ≡ p ∷ split sep rest
unfolding split Lacks extend
split-first sep [] rest h = ground arith
split-first sep (c ∷ s) rest h = rw (h.0, split-first sep s rest h.1) refl

-- Parts without the separator come back from their join, but for no parts at all.
pub split-join :
    (sep : ℕ) (p : Bytes) (ps : List Bytes)
    → All (Lacks sep) (p ∷ ps)
    → split sep (join (sep ∷ []) (p ∷ ps)) ≡ p ∷ ps
unfolding join
split-join sep p [] h = split-one sep p h.0
split-join sep p (q ∷ qs) h =
    split-first sep p (join (sep ∷ []) (q ∷ qs)) h.0 ∙ ap (◌∷◌ p) (split-join sep q qs h.1)

format_test : format_int (negsuc 119) ≡ ascii "-120"
unfolding format_int digits ascii
format_test = refl
