-- ===== src/Store/Escape/Literal.antt =====
-- What ClickHouse reads back from a literal of `EscStr`.
use ripestream.Base.{
  ℕ, Bytes, false, [], ◌∷◌, ◌++◌, ◌≡◌, refl, Option, none, some, arith, ◌==◌, if◌then◌else◌,
  Bool-cases, inl, inr, ◌||◌, append_assoc,
}
use ripestream.Store.Escape.{quote_byte, backslash, escape_bytes, esc_str}

-- A reader of string literals: a backslash takes the next byte as it is, two quotes are one, and a
-- single quote ends the literal. It returns the value and the text behind the literal.
abbrev push : ℕ → Option (Bytes × Bytes) → Option (Bytes × Bytes)
push c none = none
push c (some (v, rest)) = some (c ∷ v, rest)

unfoldable pub read_body : Bytes → Option (Bytes × Bytes)
read_body [] = none
read_body (c ∷ []) = if c == quote_byte then some ([], []) else none
read_body (c ∷ d ∷ cs) =
    let escaped = push d (read_body cs) in
    let doubled = push c (read_body cs) in
    let plain = push c (read_body (d ∷ cs)) in
    if c == backslash
    then escaped
    else if c == quote_byte
    then if d == quote_byte then doubled else some ([], d ∷ cs)
    else plain

unfoldable pub read_literal : Bytes → Option (Bytes × Bytes)
unfolding read_body
read_literal [] = none
read_literal (c ∷ cs) = if c == quote_byte then read_body cs else none

-- The text behind a literal does not go on with a quote.
abbrev pub NoQuote : Bytes → Type 0
NoQuote [] = Unit {0}
NoQuote (c ∷ cs) = (c == quote_byte) ≡ false

read_body-end : (rest : Bytes) → NoQuote rest → read_body (quote_byte ∷ rest) ≡ some ([], rest)
unfolding read_body
read_body-end [] h = refl
read_body-end (d ∷ cs) h = rw h

read_body-plain :
    (c d : ℕ) (cs : Bytes)
    → (c == quote_byte || c == backslash) ≡ false
    → read_body (c ∷ d ∷ cs) ≡ push c (read_body (d ∷ cs))
unfolding read_body
read_body-plain c d cs h = ground arith

read_body-escaped : (d : ℕ) (cs : Bytes) → read_body (backslash ∷ d ∷ cs) ≡ push d (read_body cs)
unfolding read_body
read_body-escaped d cs = refl

read_body-plain_any :
    (c : ℕ) (cs : Bytes) (v : Bytes) (rest : Bytes)
    → (c == quote_byte || c == backslash) ≡ false
    → read_body cs ≡ some (v, rest)
    → read_body (c ∷ cs) ≡ some (c ∷ v, rest)
read_body-plain_any c [] v rest h e = unfold read_body in cc e
read_body-plain_any c (d ∷ cs) v rest h e = rw (read_body-plain c d cs h, e)

read_body-escape_bytes :
    (s rest : Bytes)
    → NoQuote rest
    → read_body (escape_bytes s ++ quote_byte ∷ rest) ≡ some (s, rest)
unfolding escape_bytes
read_body-escape_bytes [] rest h = read_body-end rest h
read_body-escape_bytes (c ∷ cs) rest h = elim (Bool-cases (c == quote_byte || c == backslash)) [
  | inl e ↦ rw e (rw read_body-escaped (rw (read_body-escape_bytes cs rest h)))
  | inr e ↦ rw e (read_body-plain_any c _ cs rest e (read_body-escape_bytes cs rest h))
]

-- A text that `EscStr` quotes, in front of anything that does not begin with a quote, is read back by
-- the rules of a string literal (backslash escapes and doubled quotes) as the text itself, and the
-- reader stops right behind it.
pub read_literal-esc_str :
    (s rest : Bytes) → NoQuote rest → read_literal (esc_str s ++ rest) ≡ some (s, rest)
unfolding read_literal esc_str
read_literal-esc_str s rest h = rw append_assoc (read_body-escape_bytes s rest h)
