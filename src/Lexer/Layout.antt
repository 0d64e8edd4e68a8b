-- ===== src/Lexer/Layout.antt =====
-- The state of the lexer, and its layout tokens: consume_blank_or_comment_line, emit_indentation and
-- emit_newline of src/lexer.cpp.
pub mod Moves
pub mod Nesting
use uinx.Prelude.{
  ℕ, ◌+◌, Bool, true, false, not, ◌||◌, List, [], ◌∷◌, ◌++◌, Bytes, codes, ◌==◌, ltb, if◌then◌else◌,
  Option, none, some, get_last?,
}
use uinx.Diagnostic.{SourceRange, Diagnostics, report_error}
use uinx.Token.{TokenKind, Token}
use uinx.Lexer.Cursor.{Cursor, peek, eof, advance, advance_on, skip_horizontal_space}
use uinx.Lexer.Literals.{skip_comment, at_line_comment}
use uinx.Lexer.Words.{range_of}

-- `indent_stack` has the back of the vector at its head. `out` is the vector that `lex` builds.
pub record Lexer : Type 0 where
  pub cursor : Cursor
  pub diags : Diagnostics
  pub indent_stack : List ℕ
  pub delimiter_depth : ℕ
  pub line_start : Bool
  pub out : List Token

abbrev pub layout_token : TokenKind → Bytes → SourceRange → Token
layout_token k t r = record { kind = k; text = t; range = r }

-- `indent_stack_.back()`; the stack is never empty.
abbrev pub back : List ℕ → ℕ
back [] = 0
back (w ∷ ws) = w

unfoldable pub skip_line_comment : Cursor → Diagnostics → Cursor × Diagnostics
unfolding skip_comment
skip_line_comment c ds =
    if at_line_comment c then (let (_, c', ds') = skip_comment c ds in (c', ds')) else (c, ds)

-- `Lexer::consume_blank_or_comment_line`; where it answers no, the position is the saved one.
unfoldable pub consume_blank_or_comment_line : Lexer → Bool × Lexer
unfolding skip_line_comment skip_horizontal_space advance_on
consume_blank_or_comment_line s =
    let spaced = skip_horizontal_space s.cursor in
    let (c, ds) = skip_line_comment spaced s.diags in
    if peek c 0 == b'\n'
    then (true, record s { cursor = advance c; diags = ds; line_start = true })
    else if eof c
    then (true, record s { cursor = c; diags = ds })
    else (false, record s { diags = ds })

-- the loop that measures the indentation: a tab is an error, and counts for four
unfoldable pub indent_width : Bytes → Cursor → ℕ → Diagnostics → ℕ × Cursor × Diagnostics
unfolding report_error advance_on
indent_width [] c width ds = (width, c, ds)
indent_width (b ∷ bs) c width ds = elim (b == b'\t') [
  | true ↦ indent_width bs (advance c) (width + 4) (
      report_error ds (range_of c c) (codes "E0006")
        (codes "tabs are not allowed for indentation; use spaces"))
  | false ↦ elim (b == b' ') [
    | true ↦ indent_width bs (advance c) (width + 1) ds
    | false ↦ (width, c, ds)
  ]
]

-- the loop that closes blocks deeper than `width`, a `Dedent` for each
unfoldable pub close_blocks : ℕ → SourceRange → List ℕ → List Token → List ℕ × List Token
close_blocks width r (top ∷ next ∷ ws) out = elim (ltb width top) [
  | true ↦ close_blocks width r (next ∷ ws) (out ++ layout_token TokenKind.dedent [] r ∷ [])
  | false ↦ (top ∷ next ∷ ws, out)
]
close_blocks width r ws out = (ws, out)

-- `emit_indentation` on the width measured
unfoldable pub indent_to : ℕ → SourceRange → Lexer → Lexer
unfolding close_blocks report_error
indent_to width r s =
    if ltb (back s.indent_stack) width
    then record s {
      indent_stack = width ∷ s.indent_stack;
      out = s.out ++ layout_token TokenKind.indent [] r ∷ [];
      line_start = false;
    }
    else if ltb width (back s.indent_stack)
    then (let (stack, out) = close_blocks width r s.indent_stack s.out in
        record s {
          indent_stack = stack;
          out = out;
          line_start = false;
          diags =
              if width == back stack
              then s.diags
              else report_error s.diags r (codes "E0007") (codes "inconsistent indentation level");
        })
    else record s { line_start = false }

unfoldable pub measure_indentation : Lexer → Lexer
unfolding indent_width indent_to
measure_indentation s =
    let (width, c, ds) = indent_width s.cursor.rest s.cursor 0 s.diags in
    let s' = record s { cursor = c; diags = ds } in indent_to width (range_of s.cursor c) s'

-- `Lexer::emit_indentation`
unfoldable pub emit_indentation : Lexer → Lexer
unfolding consume_blank_or_comment_line measure_indentation
emit_indentation s =
    if not s.line_start || not (s.delimiter_depth == 0) || eof s.cursor
    then s
    else (let (consumed, s') = consume_blank_or_comment_line s in
        if consumed then s' else measure_indentation s')

abbrev pub is_layout : TokenKind → Bool
is_layout TokenKind.newline = true
is_layout TokenKind.indent = true
is_layout TokenKind.dedent = true
is_layout _ = false

-- whether the vector ends in a token other than a layout token
abbrev pub ends_in_word : Option Token → Bool
ends_in_word none = false
ends_in_word (some t) = not (is_layout t.kind)

-- `Lexer::emit_newline`, on `delimiter_depth_` and the vector
unfoldable pub emit_newline : SourceRange → ℕ → List Token → List Token
emit_newline r depth out =
    if not (depth == 0)
    then out
    else if ends_in_word (get_last? out)
    then out ++ layout_token TokenKind.newline (codes "\n") r ∷ []
    else out
