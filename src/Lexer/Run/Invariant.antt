-- ===== src/Lexer/Run/Invariant.antt =====
-- What every round of `lex` keeps.
use uinx.Prelude.{◌∷◌, ◌==◌, ◌||◌, ◌++◌, not, sym, subst, if_keeps, arith, ◌≡◌, ℕ, []}
use uinx.Token.{Token}
use uinx.Lexer.Cursor.{Cursor, eof}
use uinx.Lexer.Cursor.Moves.{advance-Moves, Moves, Moves-refl, Moves-trans}
use uinx.Lexer.Layout.{
  Lexer, consume_blank_or_comment_line, indent_width, indent_to, measure_indentation,
  emit_indentation,
}
use uinx.Lexer.Layout.Moves.{
  indent_width-Moves, indent_to-AllLocated, emit_newline-AllLocated,
  consume_blank_or_comment_line-IsConsumed,
}
use uinx.Lexer.Layout.Nesting.{Agrees, indent_to-Agrees, emit_newline-Agrees, push-Agrees}
use uinx.Lexer.Located.{AllLocated, push-AllLocated, Reads, Reads-IsLocated}
use uinx.Lexer.Words.{range_of}
use uinx.Lexer.Run.{Diagnostics, SourceRange, lex_newline}

-- The position lies behind `c`, all tokens lie behind `c`, and they open the blocks of the stack.
pub record IsSound (c : Cursor) (s : Lexer) : Type 0 where
  pub moved : Moves c s.cursor
  pub located : AllLocated c s.out
  pub agrees : Agrees s.indent_stack s.out

indent_to-cursor : (w : ℕ) (r : SourceRange) (s : Lexer) → (indent_to w r s).cursor ≡ s.cursor
unfolding indent_to
indent_to-cursor w r s = ground arith

measure_indentation-IsSound :
    {c : Cursor} (s : Lexer)
    → IsSound c s
    → IsSound c (measure_indentation s) × Moves s.cursor (measure_indentation s).cursor
unfolding measure_indentation
measure_indentation-IsSound {c} s h =
    let found = indent_width s.cursor.rest s.cursor 0 s.diags in
    let s' : Lexer = record s { cursor = found.1; diags = found.2 } in
    let r = range_of s.cursor found.1 in
    let m : Moves s.cursor found.1 = indent_width-Moves s.cursor.rest s.cursor 0 s.diags in
    let e : (indent_to found.0 r s').cursor ≡ found.1 = indent_to-cursor found.0 r s' in
    (
      record {
        moved = subst (Moves c) (sym e) (Moves-trans h.moved m);
        located = indent_to-AllLocated found.0 s' h.moved m h.located;
        agrees = indent_to-Agrees found.0 r s' h.agrees;
      },
      subst (Moves s.cursor) (sym e) m,
    )

-- A state is sound and lies behind another.
abbrev pub Follows : Cursor → Lexer → Lexer → Type 0
Follows c s s' = IsSound c s' × Moves s.cursor s'.cursor

consumed-Follows :
    {c : Cursor} (s : Lexer) → IsSound c s → Follows c s (consume_blank_or_comment_line s).1
consumed-Follows {c} s h =
    let k = consume_blank_or_comment_line-IsConsumed s in
    (
      record {
        moved = Moves-trans h.moved k.across;
        located = subst (AllLocated c) (sym k.tokens) h.located;
        agrees = rw (k.stack, k.tokens) h.agrees;
      },
      k.across,
    )

pub emit_indentation-Follows :
    {c : Cursor} (s : Lexer) → IsSound c s → Follows c s (emit_indentation s)
unfolding emit_indentation
emit_indentation-Follows {c} s h =
    let s' = (consume_blank_or_comment_line s).1 in
    let k : Follows c s s' = consumed-Follows s h in
    let m : Follows c s' (measure_indentation s') = measure_indentation-IsSound s' k.0 in
    if_keeps (λ (t : Lexer). Follows c s t)
      (not s.line_start || not (s.delimiter_depth == 0) || eof s.cursor) (h, Moves-refl s.cursor)
      (if_keeps (λ (t : Lexer). Follows c s t) (consume_blank_or_comment_line s).0 k
        (m.0, Moves-trans k.1 m.1))

-- One more token that a scanner read.
pub push-IsSound :
    {c d : Cursor} (s : Lexer) (t : Token) (ds : Diagnostics) (depth : ℕ)
    → IsSound c s
    → Reads s.cursor t d
    → IsSound c
        (record s { cursor = d; diags = ds; delimiter_depth = depth; out = s.out ++ t ∷ [] })
push-IsSound s t ds depth h r = record {
  moved = Moves-trans h.moved r.across;
  located = push-AllLocated s.out t h.located (Reads-IsLocated h.moved r);
  agrees = push-Agrees s.indent_stack s.out t r.plain h.agrees;
}

pub lex_newline-IsSound : {c : Cursor} (s : Lexer) → IsSound c s → IsSound c (lex_newline s)
unfolding lex_newline
lex_newline-IsSound s h =
    let m = advance-Moves s.cursor in
    record {
      moved = Moves-trans h.moved m;
      located = emit_newline-AllLocated s.delimiter_depth s.out h.moved m h.located;
      agrees = emit_newline-Agrees s.indent_stack _ s.delimiter_depth s.out h.agrees;
    }
