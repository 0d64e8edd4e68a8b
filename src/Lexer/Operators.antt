-- ===== src/Lexer/Operators.antt =====
-- The switch over punctuation in `Lexer::lex` of src/lexer.cpp.
pub mod Moves
use uinx.Prelude.{
  ℕ, ◌+◌, ◌-◌, Bool, not, ◌&&◌, ◌||◌, codes, str_eq, is_alnum, ◌==◌, if◌then◌else◌, Option, none,
  some, take,
}
use uinx.Token.{TokenKind}
use uinx.Lexer.Cursor.{Cursor, peek, eof_at, advance, advance_on, match_byte}

-- `match(b) ? long : short`
unfoldable pub one_or_two : ℕ → TokenKind → TokenKind → Cursor → TokenKind × Cursor
unfolding match_byte
one_or_two b long short c = let (there, c') = match_byte b c in (if there then long else short, c')

-- `match(b) ? long : (match(b') ? other : short)`
unfoldable pub one_of_three :
    ℕ → TokenKind → ℕ → TokenKind → TokenKind → Cursor → TokenKind × Cursor
unfolding match_byte one_or_two
one_of_three b long b' other short c =
    let (there, c') = match_byte b c in if there then (long, c') else one_or_two b' other short c

-- `match(b)`, and then `match('=')` on both sides
unfoldable pub doubled :
    ℕ → TokenKind → TokenKind → TokenKind → TokenKind → Cursor → TokenKind × Cursor
unfolding match_byte one_or_two
doubled b long_eq long short_eq short c =
    let (there, c') = match_byte b c in
    if there then one_or_two b'=' long_eq long c' else one_or_two b'=' short_eq short c

-- `mut` behind an ampersand, with no letter or digit behind it
unfoldable pub at_mut : Cursor → Bool
at_mut c = str_eq (take 3 c.rest) (codes "mut") && (eof_at c.rest 3 || not (is_alnum (peek c 3)))

unfoldable pub ampersand : Cursor → TokenKind × Cursor
unfolding match_byte one_or_two at_mut advance_on
ampersand c =
    let (there, c') = match_byte b'&' c in
    if there
    then (TokenKind.and_and, c')
    else if at_mut c
    then (TokenKind.amp_mut, advance (advance (advance c)))
    else one_or_two b'=' TokenKind.amp_eq TokenKind.amp c

unfoldable pub dots : Cursor → TokenKind × Cursor
unfolding match_byte one_or_two
dots c =
    let (there, c') = match_byte b'.' c in
    if there then one_or_two b'=' TokenKind.dot_dot_eq TokenKind.dot_dot c' else (TokenKind.dot, c)

-- `||`, `|=` and `|`
unfoldable pub bars : Cursor → TokenKind × Cursor
unfolding one_of_three
bars c = one_of_three b'|' TokenKind.or_or b'=' TokenKind.pipe_eq TokenKind.pipe c

abbrev pub found : TokenKind × Cursor → Option TokenKind × Cursor
found (k, c) = (some k, c)

-- The kind that starts with the byte `b`, which stands before `c`; nothing is the default branch.
unfoldable pub operator_kind : ℕ → Cursor → Option TokenKind × Cursor
unfolding one_or_two one_of_three doubled ampersand dots bars
operator_kind b c =
    if b == b'('
    then (some TokenKind.l_paren, c)
    else if b == b')'
    then (some TokenKind.r_paren, c)
    else if b == b'{'
    then (some TokenKind.l_brace, c)
    else if b == b'}'
    then (some TokenKind.r_brace, c)
    else if b == b'['
    then (some TokenKind.l_bracket, c)
    else if b == b']'
    then (some TokenKind.r_bracket, c)
    else if b == b','
    then (some TokenKind.comma, c)
    else if b == b'.'
    then found (dots c)
    else if b == b';'
    then (some TokenKind.semicolon, c)
    else if b == b'?'
    then (some TokenKind.question, c)
    else if b == b'~'
    then (some TokenKind.tilde, c)
    else if b == b'%'
    then found (one_or_two b'=' TokenKind.percent_eq TokenKind.percent c)
    else if b == b'^'
    then found (one_or_two b'=' TokenKind.caret_eq TokenKind.caret c)
    else if b == b':'
    then found (one_or_two b':' TokenKind.colon_colon TokenKind.colon c)
    else if b == b'-'
    then found (one_of_three b'>' TokenKind.arrow b'=' TokenKind.minus_eq TokenKind.minus c)
    else if b == b'='
    then found (one_of_three b'=' TokenKind.eq_eq b'>' TokenKind.fat_arrow TokenKind.eq c)
    else if b == b'+'
    then found (one_or_two b'=' TokenKind.plus_eq TokenKind.plus c)
    else if b == b'*'
    then found (one_or_two b'=' TokenKind.star_eq TokenKind.star c)
    else if b == b'/'
    then found (one_or_two b'=' TokenKind.slash_eq TokenKind.slash c)
    else if b == b'&'
    then found (ampersand c)
    else if b == b'|'
    then found (bars c)
    else if b == b'!'
    then found (one_or_two b'=' TokenKind.bang_eq TokenKind.bang c)
    else if b == b'<'
    then found (
        doubled b'<' TokenKind.shift_left_eq TokenKind.shift_left TokenKind.less_eq TokenKind.less
          c)
    else if b == b'>'
    then found (
        doubled b'>' TokenKind.shift_right_eq TokenKind.shift_right TokenKind.greater_eq
          TokenKind.greater c)
    else (none, c)

-- how the byte changes `delimiter_depth_`; `-` stops at 0, as `std::max(0, depth - 1)` does
unfoldable pub delimiter_depth_after : ℕ → ℕ → ℕ
delimiter_depth_after b depth =
    if b == b'(' || b == b'{' || b == b'['
    then depth + 1
    else if b == b')' || b == b'}' || b == b']'
    then depth - 1
    else depth
