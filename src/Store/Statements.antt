-- ===== src/Store/Statements.antt =====
-- `splitStatements` of internal/store/store.go: a schema text cut into statements at the
-- semicolons outside quotes and line comments. A text is its bytes.
pub mod Text
use mathlib.Core.List.{reverse}
use ripestream.Base.{
  ℕ, Bytes, Bool, true, false, not, ◌||◌, List, [], ◌∷◌, ◌++◌, ◌==◌, if◌then◌else◌,
}
use ripestream.Store.Escape.{quote_byte, backslash}

abbrev pub newline : ℕ
newline = 10

abbrev pub semicolon : ℕ
semicolon = 59

abbrev pub dash : ℕ
dash = 45

-- The quotes that open a quoted value: ' " and `.
unfoldable pub is_quote : ℕ → Bool
is_quote c = c == quote_byte || c == 34 || c == 96

-- White space as `strings.TrimSpace` sees it in ASCII: \t \n \v \f \r and the space.
unfoldable pub is_space : ℕ → Bool
is_space c = c == 9 || c == 10 || c == 11 || c == 12 || c == 13 || c == 32

unfoldable pub trim_left : Bytes → Bytes
trim_left [] = []
trim_left (c ∷ cs) = if is_space c then trim_left cs else c ∷ cs

unfoldable pub trim_space : Bytes → Bytes
unfolding trim_left is_space
trim_space s = reverse (trim_left (reverse (trim_left s)))

-- The variables of the loop. `quote` is 0 outside a quoted value.
pub record Scan : Type 0 where
  pub out : List Bytes
  pub stmt : Bytes
  pub quote : ℕ
  pub line_comment : Bool

unfoldable pub keep_part : List Bytes → Bytes → List Bytes
keep_part out [] = out
keep_part out (c ∷ cs) = out ++ (c ∷ cs) ∷ []

-- the closure `flush`
unfoldable pub flush : Scan → Scan
flush st = record st { out = keep_part st.out (trim_space st.stmt); stmt = [] }

abbrev pub write : Scan → ℕ → Scan
write st c = record st { stmt = st.stmt ++ c ∷ [] }

-- The bytes that one round of the loop takes: its own, or also the next (`i++` in the body).
pub data Round : Type 0 where
  one : Scan → Round
  two : Scan → Round

-- One round; `next` is the rest of the text behind the byte.
unfoldable pub in_comment : Scan → ℕ → Round
in_comment st c = one (if c == newline then write (record st { line_comment = false }) c else st)

unfoldable pub in_quote : Scan → ℕ → Bytes → Round
in_quote st c [] = one (if c == st.quote then record (write st c) { quote = 0 } else write st c)
in_quote st c (d ∷ ds) =
    if c == backslash
    then two (write (write st c) d)
    else if c == st.quote
    then if d == st.quote
      then two (write (write st c) d)
      else one (record (write st c) { quote = 0 })
    else one (write st c)

abbrev starts_with : ℕ → Bytes → Bool
starts_with c [] = false
starts_with c (d ∷ ds) = d == c

unfoldable pub outside : Scan → ℕ → Bytes → Round
unfolding is_quote flush
outside st c next =
    if c == dash
    then if starts_with dash next then two (record st { line_comment = true }) else one (write st c)
    else if is_quote c
    then one (write (record st { quote = c }) c)
    else if c == semicolon
    then one (flush st)
    else one (write st c)

unfoldable pub round : Scan → ℕ → Bytes → Round
unfolding in_comment in_quote outside
round st c next =
    if st.line_comment
    then in_comment st c
    else if not (st.quote == 0)
    then in_quote st c next
    else outside st c next

unfoldable pub scan : Scan → Bytes → Scan
unfolding round
scan st [] = st
scan st (c ∷ []) = elim (round st c []) [ one s ↦ s | two s ↦ s ]
scan st (c ∷ d ∷ cs) = elim (round st c (d ∷ cs)) [ one s ↦ scan s (d ∷ cs) | two s ↦ scan s cs ]

abbrev pub start : Scan
start = record { out = []; stmt = []; quote = 0; line_comment = false }

unfoldable pub split_statements : Bytes → List Bytes
unfolding scan flush
split_statements s = (flush (scan start s)).out
