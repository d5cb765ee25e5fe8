-- ===== src/Store/Escape.antt =====
-- `EscStr` of internal/store/query.go: a byte string as a ClickHouse string literal.
pub mod Literal
use ripestream.Base.{ℕ, Bytes, List, [], ◌∷◌, ◌++◌, ◌||◌, ◌==◌, if◌then◌else◌}

abbrev pub quote_byte : ℕ
quote_byte = 39

abbrev pub backslash : ℕ
backslash = 92

-- The loop: a quote or a backslash gets a backslash in front of it.
unfoldable pub escape_bytes : Bytes → Bytes
escape_bytes [] = []
escape_bytes (c ∷ cs) =
    let rest = escape_bytes cs in
    if c == quote_byte || c == backslash then backslash ∷ c ∷ rest else c ∷ rest

unfoldable pub esc_str : Bytes → Bytes
unfolding escape_bytes
esc_str s = quote_byte ∷ (escape_bytes s ++ quote_byte ∷ [])
