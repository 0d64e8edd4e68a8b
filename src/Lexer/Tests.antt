-- ===== src/Lexer/Tests.antt =====
-- Runs of the lexer on small sources.
use uinx.Prelude.{Bytes, codes, List, [], ◌∷◌, Option, none, some, map, ◌++◌, ◌≡◌, refl}
use uinx.Token.{Token}
use uinx.Token.Names.{token_name}
use uinx.Diagnostic.{Diagnostics}
use uinx.Lexer.Cursor.{Cursor}
use uinx.Lexer.Literals.{string_literal}
use uinx.Lexer.Literals.RoundTrip.{escaped, string_literal-escaped}
use uinx.Lexer.Run.{lex, start_cursor}
use uinx.Lexer.Run.Total.{IsTokens}
use uinx.Lexer.Run.Total.{lex-IsTokens}

abbrev shown : Option (List Token × Diagnostics) → List Bytes
shown none = []
shown (some (ts, ds)) = map (λ t. token_name t.kind) ts ++ map (λ d. d.code) ds

-- a block, a comment, and a line behind them
abbrev small : Bytes
small = codes "if x:\n  y\n\n# c\nz"

lex-IsTokens_example :
    (ts : List Token) × (ds' : Diagnostics) × (lex (codes "a.ux") small [] ≡ some (ts, ds'))
    × IsTokens (start_cursor (codes "a.ux") small) ts
lex-IsTokens_example = lex-IsTokens (codes "a.ux") small []

-- the literal `"a\"b"`, with `;` behind it
abbrev literal : Bytes
literal = codes "a\"b"

abbrev before_literal : Cursor
before_literal = start_cursor [] (b'"' ∷ (escaped literal ++ b'"' ∷ codes ";"))

string_literal-escaped_example :
    ((string_literal before_literal []).0.text ≡ literal)
    × ((string_literal before_literal []).1.rest ≡ codes ";")
    × ((string_literal before_literal []).2 ≡ [])
string_literal-escaped_example = string_literal-escaped before_literal [] literal (codes ";") refl
