-- ===== src/Text/Escape.antt =====
-- `html.EscapeString` of Go's standard library.
use porcelain.Prelude.{ℕ, [], ◌∷◌, ◌++◌, ◌≢◌, arith, eqb, if◌then◌else◌, All, All-append}
use porcelain.Text.{Text, codes}

unfoldable pub escape_char : ℕ → Text
escape_char c =
    if eqb c b'<'
    then codes "&lt;"
    else if eqb c b'>'
    then codes "&gt;"
    else if eqb c b'&'
    then codes "&amp;"
    else if eqb c b'"'
    then codes "&#34;"
    else if eqb c 39
    then codes "&#39;"
    else c ∷ []

unfoldable pub escape_html : Text → Text
unfolding escape_char
escape_html [] = []
escape_html (c ∷ s) = escape_char c ++ escape_html s

-- A character that opens no tag and closes no tag or quoted attribute.
abbrev pub IsInert : ℕ → Type 0
IsInert c = (c ≢ b'<') × (c ≢ b'>') × (c ≢ b'"') × (c ≢ 39)

escape_char-IsInert : (c : ℕ) → All IsInert (escape_char c)
unfolding escape_char
escape_char-IsInert c = ground arith

-- Escaped text holds no character that could end the text it stands in.
pub escape_html-IsInert : (s : Text) → All IsInert (escape_html s)
unfolding escape_html
escape_html-IsInert [] = tt
escape_html-IsInert (c ∷ s) =
    All-append IsInert (escape_char c) (escape_html s) (escape_char-IsInert c)
      (escape_html-IsInert s)
