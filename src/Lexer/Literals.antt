-- ===== src/Lexer/Literals.antt =====
-- string_literal, char_literal and skip_comment of src/lexer.cpp.
pub mod Moves
pub mod RoundTrip
use uinx.Prelude.{
  ℕ, zero, suc, Bool, true, false, not, ◌&&◌, ◌||◌, [], ◌∷◌, ◌++◌, Bytes, codes, ◌==◌,
  if◌then◌else◌,
}
use uinx.Diagnostic.{Diagnostics, report_error}
use uinx.Token.{TokenKind, Token}
use uinx.Lexer.Cursor.{
  Cursor, peek, eof, advance, advance_on, advance_while, match_byte, text_between,
}
use uinx.Lexer.Words.{make, range_of}

-- the escapes of a string literal
unfoldable pub unescape : ℕ → ℕ
unescape e =
    if e == b'n'
    then b'\n'
    else if e == b'r'
    then b'\r'
    else if e == b't'
    then b'\t'
    else if e == b'\\'
    then b'\\'
    else if e == b'"'
    then b'"'
    else if e == b'0'
    then 0
    else e

-- the loop of `string_literal`: the position where it stops, and the value so far
unfoldable pub string_body : Bytes → Cursor → Bytes → Cursor × Bytes
unfolding unescape advance_on
string_body [] c value = (c, value)
string_body (b ∷ []) c value = elim (b == b'"') [
  | true ↦ (c, value)
  | false ↦ elim (b == b'\\') [ true ↦ (advance c, value) | false ↦ (advance c, value ++ b ∷ []) ]
]
string_body (b ∷ e ∷ bs) c value = elim (b == b'"') [
  | true ↦ (c, value)
  | false ↦ elim (b == b'\\') [
    | true ↦ string_body bs (advance (advance c)) (value ++ unescape e ∷ [])
    | false ↦ string_body (e ∷ bs) (advance c) (value ++ b ∷ [])
  ]
]

-- the end of `string_literal`, at the closing quote or at the end of the source
unfoldable pub close_string : Cursor → Cursor → Bytes → Diagnostics → Token × Cursor × Diagnostics
unfolding match_byte report_error
close_string from c value ds =
    let (closed, c') = match_byte b'"' c in
    (
      record { kind = TokenKind.string; text = value; range = range_of from c' },
      c',
      if closed
          then ds
          else report_error ds (range_of from c') (codes "E0002")
              (codes "unterminated string literal"),
    )

-- `Lexer::string_literal`, at the opening quote
unfoldable pub string_literal : Cursor → Diagnostics → Token × Cursor × Diagnostics
unfolding string_body close_string advance_on
string_literal c ds =
    let (c', value) = string_body (advance c).rest (advance c) [] in close_string c c' value ds

-- the escapes of a character literal
unfoldable pub unescape_char : ℕ → ℕ
unescape_char e = if e == b'n' then b'\n' else if e == b't' then b'\t' else e

-- what stands between the quotes of a character literal
unfoldable pub char_body : Cursor → Cursor → Diagnostics → Bytes × Cursor × Diagnostics
unfolding unescape_char advance_on report_error
char_body from c ds =
    if eof c || peek c 0 == b'\''
    then (
      [],
      c,
      report_error ds (range_of from c) (codes "E0003") (codes "empty character literal"),
    )
    else if peek c 0 == b'\\'
    then (unescape_char (peek (advance c) 0) ∷ [], advance (advance c), ds)
    else (peek c 0 ∷ [], advance c, ds)

-- `Lexer::char_literal`, at the opening quote
unfoldable pub char_literal : Cursor → Diagnostics → Token × Cursor × Diagnostics
unfolding char_body match_byte make report_error text_between advance_on
char_literal c ds =
    let (value, c', ds') = char_body c (advance c) ds in
    let (closed, c'') = match_byte b'\'' c' in
    (
      make TokenKind.char c c'' value,
      c'',
      if closed
          then ds'
          else report_error ds' (range_of c c'') (codes "E0004")
              (codes "unterminated character literal"),
    )

-- the loop over a block comment, on the depth of the comments that are open
unfoldable pub block_body : Bytes → ℕ → Cursor → ℕ × Cursor
unfolding advance_on
block_body [] depth c = (depth, c)
block_body (a ∷ bs) zero c = (zero, c)
block_body (a ∷ []) (suc depth) c = (suc depth, advance c)
block_body (a ∷ b ∷ bs) (suc depth) c = elim (a == b'/' && b == b'*') [
  | true ↦ block_body bs (suc (suc depth)) (advance (advance c))
  | false ↦ elim (a == b'*' && b == b'/') [
    | true ↦ block_body bs depth (advance (advance c))
    | false ↦ block_body (b ∷ bs) (suc depth) (advance c)
  ]
]

unfoldable pub block_comment : Cursor → Diagnostics → Cursor × Diagnostics
unfolding block_body report_error advance_on
block_comment c ds =
    let (depth, c') = block_body (advance (advance c)).rest 1 (advance (advance c)) in
    (
      c',
      if depth == 0
          then ds
          else report_error ds (range_of c c') (codes "E0001") (codes "unterminated block comment"),
    )

abbrev pub at_line_comment : Cursor → Bool
at_line_comment c = peek c 0 == b'#' || (peek c 0 == b'/' && peek c 1 == b'/')

abbrev pub at_block_comment : Cursor → Bool
at_block_comment c = peek c 0 == b'/' && peek c 1 == b'*'

unfoldable pub line_comment : Cursor → Cursor
unfolding advance_while advance_on
line_comment c =
    advance_while (λ b. not (b == b'\n'))
      (if peek c 0 == b'/' then advance (advance c) else advance c)

-- `Lexer::skip_comment`: whether a comment was there
unfoldable pub skip_comment : Cursor → Diagnostics → Bool × Cursor × Diagnostics
unfolding line_comment block_comment
skip_comment c ds =
    if at_line_comment c
    then (true, line_comment c, ds)
    else if at_block_comment c
    then (let (c', ds') = block_comment c ds in (true, c', ds'))
    else (false, c, ds)
