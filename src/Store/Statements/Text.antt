-- ===== src/Store/Statements/Text.antt =====
-- What `split_statements` does with a text written as tokens.
use ripestream.Base.{
  ℕ, Bytes, true, false, List, [], ◌∷◌, ◌++◌, ◌≡◌, refl, ◌∙◌, arith, ◌==◌, Bool-cases, inl, inr,
  ◌||◌, append_assoc, append-nil, All,
}
use ripestream.Store.Escape.{quote_byte, backslash, escape_bytes, esc_str}
use ripestream.Store.Escape.Literal.{NoQuote}
use ripestream.Store.Statements.{
  Scan, scan, split_statements, is_quote, newline, semicolon, dash, keep_part, trim_space,
}

-- A byte that means itself outside quotes and comments.
abbrev pub IsPlain : ℕ → Type 0
IsPlain c = (is_quote c ≡ false) × ((c == semicolon) ≡ false) × ((c == dash) ≡ false)

pub data Token : Type 0 where
  plain : ℕ → Token
  literal : Bytes → Token
  comment : Bytes → Token

-- How the token is written, and what it leaves in its statement.
abbrev pub render : Token → Bytes
render (plain c) = c ∷ []
render (literal s) = esc_str s
render (comment s) = dash ∷ dash ∷ (s ++ newline ∷ [])

abbrev pub meaning : Token → Bytes
meaning (plain c) = c ∷ []
meaning (literal s) = esc_str s
meaning (comment s) = newline ∷ []

abbrev pub NoNewline : ℕ → Type 0
NoNewline c = (c == newline) ≡ false

-- A literal is not followed at once by another, since two quotes in a row are one quoted quote.
abbrev pub NoLiteral : List Token → Type 0
NoLiteral (literal s ∷ ts) = ⊥
NoLiteral _ = Unit {0}

abbrev pub AreTokens : List Token → Type 0
AreTokens [] = Unit {0}
AreTokens (plain c ∷ ts) = IsPlain c × AreTokens ts
AreTokens (literal s ∷ ts) = NoLiteral ts × AreTokens ts
AreTokens (comment s ∷ ts) = All NoNewline s × AreTokens ts

abbrev pub render_all : List Token → Bytes
render_all [] = []
render_all (t ∷ ts) = render t ++ render_all ts

abbrev pub meaning_all : List Token → Bytes
meaning_all [] = []
meaning_all (t ∷ ts) = meaning t ++ meaning_all ts

-- Statements that each end in a semicolon.
abbrev pub script : List (List Token) → Bytes
script [] = []
script (ts ∷ rest) = render_all ts ++ (semicolon ∷ script rest)

-- The statements that are not blank, trimmed, in order.
abbrev pub parts : List Bytes → List (List Token) → List Bytes
parts out [] = out
parts out (ts ∷ rest) = parts (keep_part out (trim_space (meaning_all ts))) rest

abbrev at_rest : List Bytes → Bytes → Scan
at_rest out stmt = record { out = out; stmt = stmt; quote = 0; line_comment = false }

abbrev quoted : List Bytes → Bytes → Scan
quoted out stmt = record { out = out; stmt = stmt; quote = quote_byte; line_comment = false }

abbrev commented : List Bytes → Bytes → Scan
commented out stmt = record { out = out; stmt = stmt; quote = 0; line_comment = true }

module _ (out : List Bytes) where
  scan-plain :
      (a : Bytes) (c : ℕ) (rest : Bytes)
      → IsPlain c
      → scan (at_rest out a) (c ∷ rest) ≡ scan (at_rest out (a ++ c ∷ [])) rest
  unfolding scan
  scan-plain a c [] h = ground arith
  scan-plain a c (d ∷ cs) h = ground arith

  scan-open :
      (a : Bytes) (rest : Bytes)
      → scan (at_rest out a) (quote_byte ∷ rest) ≡ scan (quoted out (a ++ quote_byte ∷ [])) rest
  unfolding scan
  scan-open a [] = refl
  scan-open a (d ∷ cs) = refl

  scan-close :
      (a : Bytes) (rest : Bytes)
      → NoQuote rest
      → scan (quoted out a) (quote_byte ∷ rest) ≡ scan (at_rest out (a ++ quote_byte ∷ [])) rest
  unfolding scan
  scan-close a [] h = refl
  scan-close a (d ∷ cs) h = ground arith

  scan-escaped :
      (a : Bytes) (d : ℕ) (rest : Bytes)
      → scan (quoted out a) (backslash ∷ d ∷ rest)
        ≡ scan (quoted out (a ++ backslash ∷ [] ++ d ∷ [])) rest
  unfolding scan
  scan-escaped a d rest = refl

  scan-inside :
      (a : Bytes) (c : ℕ) (rest : Bytes)
      → (c == quote_byte || c == backslash) ≡ false
      → scan (quoted out a) (c ∷ rest) ≡ scan (quoted out (a ++ c ∷ [])) rest
  unfolding scan
  scan-inside a c [] h = ground arith
  scan-inside a c (d ∷ cs) h = ground arith

  scan-body :
      (s : Bytes) (a : Bytes) (rest : Bytes)
      → NoQuote rest
      → scan (quoted out a) (escape_bytes s ++ quote_byte ∷ rest)
        ≡ scan (at_rest out (a ++ (escape_bytes s ++ quote_byte ∷ []))) rest
  unfolding escape_bytes
  scan-body [] a rest h = scan-close a rest h
  scan-body (c ∷ cs) a rest h = elim (Bool-cases (c == quote_byte || c == backslash)) [
    | inl e ↦ rw e (scan-escaped a c _ ∙ scan-body cs _ rest h ∙ simp append_assoc)
    | inr e ↦ rw e (scan-inside a c _ e ∙ scan-body cs _ rest h ∙ simp append_assoc)
  ]

  -- In front of anything that does not begin with a quote, a literal of `esc_str` is taken whole into its
  -- statement, whatever bytes it holds.
  scan-esc_str :
      (s : Bytes) (a : Bytes) (rest : Bytes)
      → NoQuote rest
      → scan (at_rest out a) (esc_str s ++ rest) ≡ scan (at_rest out (a ++ esc_str s)) rest
  unfolding esc_str
  scan-esc_str s a rest h =
      rw append_assoc (scan-open a _ ∙ scan-body s _ rest h ∙ simp append_assoc)

  scan-comment_body :
      (s : Bytes) (a : Bytes) (rest : Bytes)
      → All NoNewline s
      → scan (commented out a) (s ++ newline ∷ rest) ≡ scan (at_rest out (a ++ newline ∷ [])) rest
  unfolding scan
  scan-comment_body [] a [] h = refl
  scan-comment_body [] a (d ∷ cs) h = refl
  scan-comment_body (c ∷ []) a rest h = rw h.0 (scan-comment_body [] a rest tt)
  scan-comment_body (c ∷ d ∷ cs) a rest h = rw h.0 (scan-comment_body (d ∷ cs) a rest h.1)

  scan-comment :
      (s : Bytes) (a : Bytes) (rest : Bytes)
      → All NoNewline s
      → scan (at_rest out a) (dash ∷ dash ∷ (s ++ newline ∷ rest))
        ≡ scan (at_rest out (a ++ newline ∷ [])) rest
  unfolding scan
  scan-comment s a rest h = scan-comment_body s a rest h

  scan-semicolon :
      (a : Bytes) (rest : Bytes)
      → scan (at_rest out a) (semicolon ∷ rest)
        ≡ scan (at_rest (keep_part out (trim_space a)) []) rest
  unfolding scan
  scan-semicolon a [] = refl
  scan-semicolon a (d ∷ cs) = refl

-- What follows a literal in the text does not begin with a quote.
NoQuote-render_all :
    (ts : List Token) (rest : Bytes)
    → AreTokens ts
    → NoLiteral ts
    → NoQuote rest
    → NoQuote (render_all ts ++ rest)
unfolding is_quote
NoQuote-render_all [] rest h n r = r
NoQuote-render_all (plain c ∷ ts) rest h n r = ground arith
NoQuote-render_all (literal s ∷ ts) rest h n r = absurd n
NoQuote-render_all (comment s ∷ ts) rest h n r = refl

module _ (out : List Bytes) where
  scan-tokens :
      (ts : List Token) (a : Bytes) (rest : Bytes)
      → AreTokens ts
      → NoQuote rest
      → scan (at_rest out a) (render_all ts ++ rest) ≡ scan (at_rest out (a ++ meaning_all ts)) rest
  scan-tokens [] a rest h r = rw append-nil
  scan-tokens (plain c ∷ ts) a rest h r =
      scan-plain out a c _ h.0 ∙ scan-tokens ts _ rest h.1 r ∙ simp append_assoc
  scan-tokens (literal s ∷ ts) a rest h r = rw append_assoc (
      scan-esc_str out s a _ (NoQuote-render_all ts rest h.1 h.0 r)
      ∙ scan-tokens ts _ rest h.1 r
      ∙ simp append_assoc)
  scan-tokens (comment s ∷ ts) a rest h r =
      simp append_assoc
        (scan-comment out s a _ h.0 ∙ scan-tokens ts _ rest h.1 r ∙ simp append_assoc)

scan-script :
    (stmts : List (List Token)) (out : List Bytes)
    → All AreTokens stmts
    → scan (at_rest out []) (script stmts) ≡ at_rest (parts out stmts) []
scan-script [] out h = unfold scan in refl
scan-script (ts ∷ rest) out h =
    scan-tokens out ts [] _ h.0 refl
    ∙ scan-semicolon out (meaning_all ts) (script rest)
    ∙ scan-script rest _ h.1

-- A script of statements made of plain bytes (no quotes, dashes or semicolons), literals of `EscStr`, no
-- two of them side by side, and line comments, each statement ended by a semicolon, is split into those
-- statements, trimmed, without the blank ones and without the comments: semicolons, dashes and quotes
-- within a literal or a comment do not split.
pub split_statements-script :
    (stmts : List (List Token))
    → All AreTokens stmts
    → split_statements (script stmts) ≡ parts [] stmts
unfolding split_statements
split_statements-script stmts h = rw (scan-script stmts [] h) (unfold trim_space keep_part in refl)
