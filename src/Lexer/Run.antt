-- ===== src/Lexer/Run.antt =====
-- `Lexer::lex` of src/lexer.cpp: the loop over the source, and the tokens behind its end.
pub mod Invariant
pub mod Progress
pub mod Total
use uinx.Prelude.{
  find, ℕ, zero, suc, ◌+◌, true, false, not, ◌&&◌, ◌||◌, List, [], ◌∷◌, ◌++◌, Bytes, codes, ◌==◌,
  is_digit, is_alpha, if◌then◌else◌, Option, none, some, get_last?, length,
}
use uinx.Diagnostic.{SourceRange, Diagnostics, report_error}
use uinx.Token.{TokenKind, Token}
use uinx.Lexer.Cursor.{Cursor, peek, eof, advance, advance_on, skip_horizontal_space}
use uinx.Lexer.Layout.{Lexer, layout_token, emit_indentation, emit_newline, ends_in_word}
use uinx.Lexer.Literals.{skip_comment, string_literal, char_literal}
use uinx.Lexer.Operators.{operator_kind, delimiter_depth_after}
use uinx.Lexer.Words.{keywords, make, range_of, identifier_or_keyword, number}

-- `out.push_back(token)`, at the position behind the token
unfoldable pub push : Lexer → Token × Cursor → Lexer
push s (t, c) = record s { cursor = c; out = s.out ++ t ∷ [] }

unfoldable pub push_checked : Lexer → Token × Cursor × Diagnostics → Lexer
push_checked s (t, c, ds) = record s { cursor = c; diags = ds; out = s.out ++ t ∷ [] }

abbrev unexpected : ℕ → Bytes
unexpected b = codes "unexpected character '" ++ b ∷ codes "'"

-- what follows the switch; its default branch reports the byte and goes on
unfoldable pub after_switch : Lexer → Option TokenKind × Cursor → Lexer
unfolding make delimiter_depth_after report_error
after_switch s (some k, c) = record s {
  cursor = c;
  out = s.out ++ make k s.cursor c [] ∷ [];
  delimiter_depth = delimiter_depth_after (peek s.cursor 0) s.delimiter_depth;
}
after_switch s (none, c) = record s {
  cursor = c;
  diags = report_error s.diags (range_of s.cursor c) (codes "E0005") (unexpected (peek s.cursor 0));
}

unfoldable pub lex_operator : Lexer → Lexer
unfolding advance_on operator_kind after_switch
lex_operator s =
    let behind = advance s.cursor in after_switch s (operator_kind (peek s.cursor 0) behind)

unfoldable pub lex_token : Lexer → Lexer
unfolding lex_operator identifier_or_keyword number string_literal char_literal push push_checked
lex_token s =
    let b = peek s.cursor 0 in
    if is_alpha b || b == b'_'
    then push s (identifier_or_keyword s.cursor)
    else if is_digit b
    then push s (number s.cursor)
    else if b == b'"'
    then push_checked s (string_literal s.cursor s.diags)
    else if b == b'\''
    then push_checked s (char_literal s.cursor s.diags)
    else lex_operator s

-- at a newline
unfoldable pub lex_newline : Lexer → Lexer
unfolding emit_newline advance_on
lex_newline s =
    let c = advance s.cursor in
    record s {
      cursor = c;
      out = emit_newline (range_of s.cursor c) s.delimiter_depth s.out;
      line_start = true;
    }

-- one round of the loop behind the indentation
unfoldable pub lex_rest : Lexer → Lexer
unfolding lex_newline lex_token skip_horizontal_space skip_comment
lex_rest s =
    let spaced = skip_horizontal_space s.cursor in
    let (found, c, ds) = skip_comment spaced s.diags in
    let s' = record s { cursor = c; diags = ds } in
    if found
    then s'
    else if eof c
    then s'
    else if peek c 0 == b'\n'
    then lex_newline s'
    else (let within = record s' { line_start = false } in lex_token within)

-- One round of the loop. `continue` and `break` return: both are followed by the test for the end.
unfoldable pub lex_step : Lexer → Lexer
unfolding emit_indentation lex_rest
lex_step s =
    if s.line_start && s.delimiter_depth == 0
    then (let s' = emit_indentation s in
        if not (s'.cursor.pos == s.cursor.pos) && s'.line_start
        then s'
        else if eof s'.cursor
        then s'
        else lex_rest s')
    else lex_rest s

-- `while (!eof())`, on fuel; nothing means that the fuel ran out
unfoldable pub lex_loop : ℕ → Lexer → Option Lexer
lex_loop zero s = none
lex_loop (suc fuel) s = elim (eof s.cursor) [
  | true ↦ some s
  | false ↦ let s' = lex_step s in lex_loop fuel s'
]

-- the `Dedent` tokens behind the end of the source
unfoldable pub close_all : SourceRange → List ℕ → List Token → List Token
close_all r (top ∷ next ∷ ws) out =
    close_all r (next ∷ ws) (out ++ layout_token TokenKind.dedent [] r ∷ [])
close_all r ws out = out

unfoldable pub last_newline : SourceRange → List Token → List Token
last_newline r out =
    if ends_in_word (get_last? out)
    then out ++ layout_token TokenKind.newline (codes "\n") r ∷ []
    else out

unfoldable pub lex_end : Lexer → List Token
unfolding close_all last_newline
lex_end s =
    let r = range_of s.cursor s.cursor in
    close_all r s.indent_stack (last_newline r s.out) ++ layout_token TokenKind.end [] r ∷ []

-- the members of a fresh lexer
abbrev pub start_cursor : Bytes → Bytes → Cursor
start_cursor file source = record {
  rest = source;
  pos = 0;
  loc = record { file = file; line = 1; column = 1; offset = 0 };
}

abbrev pub start_lexer : Bytes → Bytes → Diagnostics → Lexer
start_lexer file source ds = record {
  cursor = start_cursor file source;
  diags = ds;
  indent_stack = 0 ∷ [];
  delimiter_depth = 0;
  line_start = true;
  out = [];
}

abbrev pub lexed : Lexer → List Token × Diagnostics
lexed s = (lex_end s, s.diags)

abbrev pub lexed? : Option Lexer → Option (List Token × Diagnostics)
lexed? none = none
lexed? (some s) = some (lexed s)

-- `Lexer::lex`; a round for each byte of the source, and one for the last test, are enough.
unfoldable pub lex : Bytes → Bytes → Diagnostics → Option (List Token × Diagnostics)
unfolding lex_loop lex_step lex_end keywords find
lex file source ds = lexed? (lex_loop (length source + 1) (start_lexer file source ds))
