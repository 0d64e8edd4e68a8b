-- ===== src/Lexer/Layout/Moves.antt =====
-- The layout operations only advance, and they add tokens that lie in the source.
use uinx.Lexer.Located.{IsLocated, AllLocated, push-AllLocated, layout-IsLocated}
use uinx.Prelude.{
  length-append, ap, arith, ◌≢◌, ◌<◌, length, get_last?, false, not, ◌≡◌, Bool, codes, ℕ, ◌+◌, List,
  [], ◌∷◌, refl, Bytes, ◌==◌, ltb, if_keeps, Bool-cases, inl, inr,
}
use uinx.Diagnostic.{SourceRange, Diagnostics}
use uinx.Token.{TokenKind, Token}
use uinx.Lexer.Cursor.{eof, peek, skip_horizontal_space, Cursor, advance}
use uinx.Lexer.Cursor.Moves.{
  skip_horizontal_space-Moves, Moves, Moves-refl, Moves-trans, advance-Moves,
}
use uinx.Lexer.Literals.{at_line_comment}
use uinx.Lexer.Literals.Moves.{skip_comment-Skips}
use uinx.Lexer.Layout.{
  ends_in_word, consume_blank_or_comment_line, Lexer, layout_token, skip_line_comment, indent_width,
  close_blocks, indent_to, emit_newline, back,
}
use uinx.Lexer.Words.{range_of}

pub skip_line_comment-Moves : (c : Cursor) (ds : Diagnostics) → Moves c (skip_line_comment c ds).0
unfolding skip_line_comment
skip_line_comment-Moves c ds =
    if_keeps (λ (r : Cursor × Diagnostics). Moves c r.0) (at_line_comment c)
      (skip_comment-Skips c ds).0 (Moves-refl c)

pub indent_width-Moves :
    (bs : Bytes) (c : Cursor) (w : ℕ) (ds : Diagnostics) → Moves c (indent_width bs c w ds).1
unfolding indent_width
indent_width-Moves [] c w ds = Moves-refl c
indent_width-Moves (b ∷ bs) c w ds = elim (Bool-cases (b == b'\t')) [
  | inl t ↦
      rw (t, indent_width)
        (Moves-trans (advance-Moves c) (indent_width-Moves bs (advance c) (w + 4) _))
  | inr t ↦ elim (Bool-cases (b == b' ')) [
    | inl u ↦
        rw (t, u, indent_width)
          (Moves-trans (advance-Moves c) (indent_width-Moves bs (advance c) (w + 1) ds))
    | inr u ↦ rw (t, u, indent_width) (Moves-refl c)
  ]
]

pub close_blocks-AllLocated :
    {c : Cursor} (width : ℕ) (r : SourceRange) (ws : List ℕ) (out : List Token)
    → IsLocated c (layout_token TokenKind.dedent [] r)
    → AllLocated c out
    → AllLocated c (close_blocks width r ws out).1
unfolding close_blocks
close_blocks-AllLocated width r [] out l h = h
close_blocks-AllLocated width r (w ∷ []) out l h = h
close_blocks-AllLocated width r (w ∷ v ∷ ws) out l h = elim (Bool-cases (ltb width w)) [
  | inl lt ↦
      rw (lt, close_blocks)
        (close_blocks-AllLocated width r (v ∷ ws) _ l (push-AllLocated out _ h l))
  | inr ge ↦ rw (ge, close_blocks) h
]

pub indent_to-AllLocated :
    {c from to : Cursor} (width : ℕ) (s : Lexer)
    → Moves c from
    → Moves from to
    → AllLocated c s.out
    → AllLocated c (indent_to width (range_of from to) s).out
unfolding indent_to
indent_to-AllLocated {c} {from} {to} width s b a h =
    elim (Bool-cases (ltb (back s.indent_stack) width)) [
      | inl lt ↦ rw lt (push-AllLocated s.out _ h (layout-IsLocated TokenKind.indent [] refl b a))
      | inr ge ↦ elim (Bool-cases (ltb width (back s.indent_stack))) [
        | inl lt ↦
            rw (ge, lt)
              (close_blocks-AllLocated width (range_of from to) s.indent_stack s.out
                (layout-IsLocated TokenKind.dedent [] refl b a) h)
        | inr eq ↦ rw (ge, eq) h
      ]
    ]

pub emit_newline-AllLocated :
    {c from to : Cursor} (depth : ℕ) (out : List Token)
    → Moves c from
    → Moves from to
    → AllLocated c out
    → AllLocated c (emit_newline (range_of from to) depth out)
unfolding emit_newline
emit_newline-AllLocated {c} {from} {to} depth out b a h = elim (Bool-cases (not (depth == 0))) [
  | inl inside ↦ rw inside h
  | inr outside ↦ elim (Bool-cases (ends_in_word (get_last? out))) [
    | inl word ↦
        rw (outside, word)
          (push-AllLocated out _ h (layout-IsLocated TokenKind.newline (codes "\n") refl b a))
    | inr other ↦ rw (outside, other) h
  ]
]

pub Moves-shorter :
    {c d : Cursor} → Moves c d → (d.pos == c.pos) ≡ false → length d.rest < length c.rest
Moves-shorter {c} {d} m e =
    let ne : d.pos ≢ c.pos = ground (arith, e) in
    omega (arith, m.position, ap length m.splits, length-append m.read d.rest)

-- What `consume_blank_or_comment_line` gives: it moves only where it answers yes, and changes
-- neither the tokens nor the stack.
pub record IsConsumed (s : Lexer) (r : Bool × Lexer) : Type 0 where
  pub across : Moves s.cursor r.1.cursor
  pub stack : r.1.indent_stack ≡ s.indent_stack
  pub tokens : r.1.out ≡ s.out

pub consume_blank_or_comment_line-IsConsumed :
    (s : Lexer) → IsConsumed s (consume_blank_or_comment_line s)
unfolding consume_blank_or_comment_line
consume_blank_or_comment_line-IsConsumed s =
    let c = (skip_line_comment (skip_horizontal_space s.cursor) s.diags).0 in
    let m : Moves s.cursor c =
      Moves-trans (skip_horizontal_space-Moves s.cursor)
        (skip_line_comment-Moves (skip_horizontal_space s.cursor) s.diags) in
    elim (Bool-cases (peek c 0 == b'\n')) [
      | inl nl ↦
          rw nl (record { across = Moves-trans m (advance-Moves c); stack = refl; tokens = refl })
      | inr other ↦ elim (Bool-cases (eof c)) [
        | inl at_end ↦ rw (other, at_end) (record { across = m; stack = refl; tokens = refl })
        | inr more ↦
            rw (other, more) (record { across = Moves-refl s.cursor; stack = refl; tokens = refl })
      ]
    ]
