-- ===== src/Api/Page.antt =====
-- `pageParams` and `respondPage` of internal/api/respond.go. `qInt` is `strconv.Atoi` with a default:
-- the parsed query parameter is an argument, `none` where it is missing or no integer.
pub mod Whole
use ripestream.Base.{ℕ, Bool, List, [], ◌∷◌, Option, none, some, ltb, if◌then◌else◌, length, take}
use ripestream.Base.Int.{ℤ, pos, ltb_ℤ, pos_part}

unfoldable pub q_int : Option ℤ → ℤ → ℤ
q_int none def = def
q_int (some n) def = n

pub record Page : Type 0 where
  pub limit : ℤ
  pub offset : ℤ

unfoldable pub bound_limit : ℤ → ℤ → ℤ
bound_limit limit default_limit =
    let n = if ltb_ℤ limit (pos 1) then default_limit else limit in
    if ltb_ℤ (pos 100) n then pos 100 else n

unfoldable pub page_params : Option ℤ → Option ℤ → ℤ → Page
unfolding q_int bound_limit
page_params limit_param offset_param default_limit =
    let offset = q_int offset_param (pos 0) in
    record {
      limit = bound_limit (q_int limit_param default_limit) default_limit;
      offset = if ltb_ℤ offset (pos 0) then pos 0 else offset;
    }

-- The data and the `has_more` of the envelope.
pub record Sent {ℓ} (A : Type ℓ) : Type ℓ where
  pub rows : List A
  pub has_more : Bool

unfoldable pub respond_page {ℓ} : {A : Type ℓ} → List A → ℕ → Sent A
respond_page rows limit =
    let more = ltb limit (length rows) in
    record { rows = if more then take limit rows else rows; has_more = more }
