-- ===== src/Lexer/Run/Progress.antt =====
-- A round of `lex` keeps the invariant and leaves fewer bytes, so the loop ends.
use uinx.Lexer.Layout.Moves.{Moves-shorter}
use uinx.Prelude.{
  refl, not, ◌&&◌, inr, inl, Bool-cases, Bytes, true, Bool, ◌<◌, ◌≡◌, ◌==◌, ◌||◌, false, [], arith,
  length, if_keeps, if_cases, Option, none, some, is_digit, is_alpha,
}
use uinx.Diagnostic.{Diagnostics}
use uinx.Token.{TokenKind, Token}
use uinx.Lexer.Cursor.{skip_horizontal_space, eof_at, Cursor, eof, peek, advance}
use uinx.Lexer.Cursor.Moves.{
  skip_horizontal_space-Moves, Moves, Moves-trans, Moves-length, advance-Moves, advance-shorter,
}
use uinx.Lexer.Layout.{emit_indentation, Lexer}
use uinx.Lexer.Literals.Moves.{
  skip_comment-Skips, Skips, string_literal-shorter, char_literal-shorter,
}
use uinx.Lexer.Located.{Reads, word-Reads, number-Reads, string-Reads, char-Reads, operator-Reads}
use uinx.Lexer.Operators.{operator_kind}
use uinx.Lexer.Operators.Moves.{IsStep?, operator_kind-IsStep}
use uinx.Lexer.Words.Moves.{word_end-shorter, number-shorter}
use uinx.Lexer.Run.{
  skip_comment, ◌∷◌, lex_step, lex_rest, lex_newline, make, after_switch, push_checked,
  lex_operator, lex_token,
}
use uinx.Lexer.Run.Invariant.{
  emit_indentation-Follows, lex_newline-IsSound, Follows, IsSound, push-IsSound,
}

-- Sound, and with fewer bytes to read.
abbrev pub Gains : Cursor → Lexer → Lexer → Type 0
Gains c s s' = IsSound c s' × (length s'.cursor.rest < length s.cursor.rest)

after_switch-Gains :
    {c : Cursor} (s : Lexer) (r : Option TokenKind × Cursor)
    → IsSound c s
    → eof s.cursor ≡ false
    → IsStep? (advance s.cursor) r
    → Gains c s (after_switch s r)
unfolding after_switch
after_switch-Gains s (some k, d) h e (p, m) = (
  push-IsSound s (make k s.cursor d []) s.diags _ h
      (operator-Reads s.cursor d k (Moves-trans (advance-Moves s.cursor) m) p),
  omega (arith, advance-shorter s.cursor e, Moves-length m),
)
after_switch-Gains s (none, d) h e m = (
  record {
    moved = Moves-trans h.moved (Moves-trans (advance-Moves s.cursor) m);
    located = h.located;
    agrees = h.agrees;
  },
  omega (arith, advance-shorter s.cursor e, Moves-length m),
)

lex_operator-Gains :
    {c : Cursor} (s : Lexer) → IsSound c s → eof s.cursor ≡ false → Gains c s (lex_operator s)
unfolding lex_operator
lex_operator-Gains s h e =
    after_switch-Gains s (operator_kind (peek s.cursor 0) (advance s.cursor)) h e
      (operator_kind-IsStep (peek s.cursor 0) (advance s.cursor))

push-Gains :
    {c d : Cursor} (s : Lexer) (t : Token) (ds : Diagnostics)
    → IsSound c s
    → Reads s.cursor t d
    → length d.rest < length s.cursor.rest
    → Gains c s (push_checked s (t, d, ds))
unfolding push_checked
push-Gains s t ds h r l = (push-IsSound s t ds s.delimiter_depth h r, l)

lex_token-Gains :
    {c : Cursor} (s : Lexer) → IsSound c s → eof s.cursor ≡ false → Gains c s (lex_token s)
unfolding lex_token
lex_token-Gains {c} s h e =
    if_keeps (Gains c s) (is_alpha (peek s.cursor 0) || peek s.cursor 0 == b'_')
      (push-Gains s _ s.diags h (word-Reads s.cursor) (word_end-shorter s.cursor e))
      (if_cases (Gains c s) (is_digit (peek s.cursor 0))
        (λ d. push-Gains s _ s.diags h (number-Reads s.cursor) (number-shorter s.cursor e d))
        (λ _.
          if_keeps (Gains c s) (peek s.cursor 0 == b'"')
            (push-Gains s _ _ h (string-Reads s.cursor s.diags)
              (string_literal-shorter s.cursor s.diags e))
            (if_keeps (Gains c s) (peek s.cursor 0 == b'\'')
              (push-Gains s _ _ h (char-Reads s.cursor s.diags)
                (char_literal-shorter s.cursor s.diags e))
              (lex_operator-Gains s h e))))

lex_newline-Gains :
    {c : Cursor} (s : Lexer) → IsSound c s → eof s.cursor ≡ false → Gains c s (lex_newline s)
lex_newline-Gains s h e =
    (lex_newline-IsSound s h, unfold lex_newline in advance-shorter s.cursor e)

eof-empty : (xs : Bytes) → eof_at xs 0 ≡ true → length xs ≡ 0
eof-empty [] e = refl
eof-empty (x ∷ xs) e = cc

more-pos : (xs : Bytes) → eof_at xs 0 ≡ false → 0 < length xs
more-pos [] e = cc
more-pos (x ∷ xs) e = omega arith

eof-shorter : (c d : Cursor) → eof c ≡ false → eof d ≡ true → length d.rest < length c.rest
eof-shorter c d e f = omega (arith, eof-empty d.rest f, more-pos c.rest e)

-- A comment behind spaces leaves fewer bytes.
skipped-shorter :
    (c d : Cursor) (r : Bool × Cursor × Diagnostics)
    → eof c ≡ false
    → Moves c d
    → Skips d r
    → r.0 ≡ true
    → length r.1.rest < length c.rest
skipped-shorter c d r e m k f = elim (Bool-cases (eof d)) [
  | inl over ↦
      omega (arith, eof-empty d.rest over, more-pos c.rest e, Moves-length m, Moves-length k.0)
  | inr more ↦ omega (arith, k.1 f more, Moves-length m)
]

onwards :
    {c : Cursor} (s s' : Lexer) {t : Lexer} → Moves s.cursor s'.cursor → Gains c s' t → Gains c s t
onwards s s' m g = (g.0, omega (arith, g.1, Moves-length m))

pub lex_rest-Gains :
    {c : Cursor} (s : Lexer) → IsSound c s → eof s.cursor ≡ false → Gains c s (lex_rest s)
unfolding lex_rest
lex_rest-Gains {c} s h e =
    let spaced = skip_horizontal_space s.cursor in
    let m : Moves s.cursor spaced = skip_horizontal_space-Moves s.cursor in
    let skipped = skip_comment spaced s.diags in
    let k : Skips spaced skipped = skip_comment-Skips spaced s.diags in
    let across : Moves s.cursor skipped.1 = Moves-trans m k.0 in
    let s' : Lexer = record s { cursor = skipped.1; diags = skipped.2 } in
    let h' : IsSound c s' = record {
      moved = Moves-trans h.moved across;
      located = h.located;
      agrees = h.agrees;
    } in
    if_cases (Gains c s) skipped.0
      (λ found. (h', skipped-shorter s.cursor spaced skipped e m k found))
      (λ _.
        if_cases (Gains c s) (eof skipped.1) (λ over. (h', eof-shorter s.cursor skipped.1 e over))
          (λ more.
            if_keeps (Gains c s) (peek skipped.1 0 == b'\n')
              (onwards s s' across (lex_newline-Gains s' h' more))
              (onwards s (record s' { line_start = false }) across
                (lex_token-Gains (record s' { line_start = false })
                  (record { moved = h'.moved; located = h.located; agrees = h.agrees }) more))))

-- One round at a position that is not the end keeps the invariant and leaves fewer bytes.
pub lex_step-Gains :
    {c : Cursor} (s : Lexer) → IsSound c s → eof s.cursor ≡ false → Gains c s (lex_step s)
unfolding lex_step
lex_step-Gains {c} s h e =
    let s' = emit_indentation s in
    let k : Follows c s s' = emit_indentation-Follows s h in
    if_keeps (Gains c s) (s.line_start && s.delimiter_depth == 0)
      (if_cases (Gains c s) (not (s'.cursor.pos == s.cursor.pos) && s'.line_start)
        (λ moved. (k.0, Moves-shorter k.1 (ground (arith, moved))))
        (λ _.
          if_cases (Gains c s) (eof s'.cursor)
            (λ over. (k.0, eof-shorter s.cursor s'.cursor e over))
            (λ more. onwards s s' k.1 (lex_rest-Gains s' k.0 more))))
      (lex_rest-Gains s h e)
