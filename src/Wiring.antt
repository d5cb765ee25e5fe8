-- ===== src/Wiring.antt =====
-- main.go: the lists of identifiers in its flags and its environment.
pub mod Lists
use ripestream.Base.{
  ℕ, ◌+◌, ◌-◌, ◌*◌, ◌^◌, ltb, leb, ◌==◌, Bool, ◌&&◌, List, [], ◌∷◌, ◌++◌, Option, none, some, Bytes,
  if◌then◌else◌,
}
use ripestream.Base.Ascii.{split}
use ripestream.Store.Statements.{trim_space}
use ripestream.Atlas.Probes.{is_blank}

abbrev pub is_digit : ℕ → Bool
is_digit c = leb 48 c && leb c 57

-- The digits of `strconv.Atoi`.
unfoldable pub atoi_digits : ℕ → Bytes → Option ℕ
atoi_digits n [] = some n
atoi_digits n (c ∷ cs) =
    let rest = atoi_digits (n * 10 + (c - 48)) cs in if is_digit c then rest else none

-- Its results that are positive and below 2^63: those that the loop keeps. A sign is allowed, and
-- what is negative, zero, too large or not a number is skipped.
unfoldable pub positive : Option ℕ → List ℕ
positive none = []
positive (some n) = if ltb 0 n && ltb n (2 ^ 63) then n ∷ [] else []

unfoldable pub atoi_positive : Bytes → List ℕ
atoi_positive [] = []
atoi_positive (c ∷ []) = positive (atoi_digits 0 (c ∷ []))
atoi_positive (c ∷ d ∷ cs) =
    if c == 45
    then []
    else if c == 43
    then positive (atoi_digits 0 (d ∷ cs))
    else positive (atoi_digits 0 (c ∷ d ∷ cs))

-- The loop over the parts; an empty one gives nothing.
unfoldable pub collect_ids : List Bytes → List ℕ
collect_ids [] = []
collect_ids (p ∷ ps) = atoi_positive (trim_space p) ++ collect_ids ps

-- `parseIntCSV`.
unfoldable pub parse_int_csv : Bytes → List ℕ
parse_int_csv s =
    let trimmed : Bytes = trim_space s in
    if is_blank trimmed then [] else collect_ids (split 44 trimmed)
