-- ===== src/Graph/Values.antt =====
-- internal/graph/query.go: the values in a row of an answer of FalkorDB, their readings, and the
-- clamping of limits. What Go's conversions and fmt do on values is an argument, `Go`.
use ripestream.Base.{
  ℕ, ltb, Bool, false, List, [], ◌∷◌, Option, none, some, String, str_eq, Bytes, if◌then◌else◌,
}
use ripestream.Base.Int.{ℤ, pos, pos_part, leb_ℤ, eqb_ℤ}
use ripestream.Base.Float.{Float}

-- A value of type `any`, as the client of FalkorDB fills it in. `texts` is an array, by the readings
-- of its elements, and `other` a value of another type.
pub data Value (fl : Float) : Type 0 where
  nil : Value fl
  int : ℤ → Value fl
  float : Float.F fl → Value fl
  text : Bytes → Value fl
  bool : Bool → Value fl
  texts : List Bytes → Value fl
  other : ℕ → Value fl

-- `map[string]any`.
abbrev pub Row : Float → Type 0
Row fl = List (String × Value fl)

-- `r[column]`, which is nil for a column that the row lacks.
unfoldable pub column : {fl : Float} → String → Row fl → Value fl
column name [] = Value.nil
column name (e ∷ es) = if str_eq e.0 name then e.1 else column name es

-- Conversions between int64 and float64, the test that a float64 is a number and finite, and fmt.
pub record Go : Type 1 where
  pub fl : Float
  pub of_int : ℤ → Float.F fl
  pub truncate : Float.F fl → ℤ
  pub finite : Float.F fl → Bool
  pub sprint : Value fl → Bytes

module _ (go : Go) where
  abbrev pub V : Type 0
  V = Value (Go.fl go)

  -- `asInt`.
  unfoldable pub as_int : V → ℤ
  as_int (Value.int n) = n
  as_int (Value.float x) = Go.truncate go x
  as_int _ = pos 0

  abbrev finite_or_zero : Float.F (Go.fl go) → Float.F (Go.fl go)
  finite_or_zero x = if Go.finite go x then x else Float.of_nat (Go.fl go) 0

  -- `asFloat`.
  unfoldable pub as_float : V → Float.F (Go.fl go)
  as_float (Value.float x) = finite_or_zero x
  as_float (Value.int n) = finite_or_zero (Go.of_int go n)
  as_float _ = Float.of_nat (Go.fl go) 0

  -- `asString`.
  unfoldable pub as_string : V → Bytes
  as_string Value.nil = []
  as_string (Value.text s) = s
  as_string v = Go.sprint go v

-- `ptrIf` on an int64.
unfoldable pub ptr_if : ℤ → Option ℤ
ptr_if n = if eqb_ℤ n (pos 0) then none else some n

-- `clampLimit`; the defaults and the greatest values are positive.
unfoldable pub clamp_limit : ℤ → ℕ → ℕ → ℕ
clamp_limit n default greatest =
    let m = if leb_ℤ n (pos 0) then default else pos_part n in
    if ltb greatest m then greatest else m

-- `asBool`.
unfoldable pub as_bool : {fl : Float} → Value fl → Bool
as_bool (Value.bool b) = b
as_bool _ = false
