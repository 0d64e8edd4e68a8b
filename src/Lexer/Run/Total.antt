-- ===== src/Lexer/Run/Total.antt =====
-- `lex` ends on every source, and what it returns.
use uinx.Prelude.{
  codes, get_last?, ap, ℕ, zero, suc, ◌+◌, ◌<◌, ◌≡◌, ◌++◌, ◌∷◌, List, [], Bytes, length, some, true,
  refl, arith, Bool-cases, inl, inr,
}
use uinx.Diagnostic.{Diagnostics, SourceRange}
use uinx.Token.{TokenKind, Token}
use uinx.Lexer.Cursor.{Cursor, eof}
use uinx.Lexer.Cursor.Moves.{Moves, Moves-refl}
use uinx.Lexer.Layout.{ends_in_word, Lexer, layout_token}
use uinx.Lexer.Layout.Nesting.{Agrees, nesting, nesting-push, close_block-Agrees}
use uinx.Lexer.Located.{IsLocated, AllLocated, push-AllLocated, layout-IsLocated}
use uinx.Lexer.Words.{range_of}
use uinx.Lexer.Run.{
  lex_step, lex_loop, close_all, last_newline, lex_end, start_cursor, start_lexer, lexed?, lex,
}
use uinx.Lexer.Run.Invariant.{IsSound}
use uinx.Lexer.Run.Progress.{Gains, lex_step-Gains}

-- With a round for each byte that is left and one more, the loop reaches the end.
lex_loop_total :
    {c : Cursor} (fuel : ℕ) (s : Lexer)
    → IsSound c s
    → length s.cursor.rest < fuel
    → (t : Lexer) × (lex_loop fuel s ≡ some t) × IsSound c t × (eof t.cursor ≡ true)
unfolding lex_loop
lex_loop_total zero s h l = absurd (omega arith)
lex_loop_total {c} (suc fuel) s h l = elim (Bool-cases (eof s.cursor)) [
  | inl over ↦ (s, rw (over, lex_loop), h, over)
  | inr more ↦
      let g : Gains c s (lex_step s) = lex_step-Gains s h more in
      let (t, e, h', over) = lex_loop_total fuel (lex_step s) g.0 (omega (arith, g.1)) in
      (t, rw (more, lex_loop) e, h', over)
]

start_lexer-IsSound :
    (file source : Bytes) (ds : Diagnostics)
    → IsSound (start_cursor file source) (start_lexer file source ds)
unfolding nesting
start_lexer-IsSound file source ds = record {
  moved = Moves-refl _;
  located = tt;
  agrees = (refl, refl);
}

-- The tokens returned: all lie in the source behind `c`, the last is the only `End`, and every
-- `Indent` before it is closed by one `Dedent` behind it.
pub record IsTokens (c : Cursor) (ts : List Token) : Type 0 where
  pub body : List Token
  pub last : Token
  pub splits : ts ≡ body ++ last ∷ []
  pub ends : last.kind ≡ TokenKind.end
  pub located : AllLocated c ts
  pub nested : nesting 0 body ≡ some 0

close_all-AllLocated :
    {c : Cursor} (r : SourceRange) (ws : List ℕ) (out : List Token)
    → IsLocated c (layout_token TokenKind.dedent [] r)
    → AllLocated c out
    → AllLocated c (close_all r ws out)
unfolding close_all
close_all-AllLocated r [] out l h = h
close_all-AllLocated r (w ∷ []) out l h = h
close_all-AllLocated r (w ∷ v ∷ ws) out l h =
    close_all-AllLocated r (v ∷ ws) _ l (push-AllLocated out _ h l)

close_all-nested :
    (r : SourceRange) (ws : List ℕ) (out : List Token)
    → Agrees ws out
    → nesting 0 (close_all r ws out) ≡ some 0
unfolding close_all
close_all-nested r [] out (i, a) = absurd i
close_all-nested r (w ∷ []) out (i, a) = a
close_all-nested r (w ∷ v ∷ ws) out h =
    close_all-nested r (v ∷ ws) _ (close_block-Agrees w v ws out r h)

abbrev Ready : Cursor → List ℕ → List Token → Type 0
Ready c ws out = AllLocated c out × Agrees ws out

last_newline-Ready :
    {c : Cursor} (d : Cursor) (ws : List ℕ) (out : List Token)
    → Moves c d
    → Ready c ws out
    → Ready c ws (last_newline (range_of d d) out)
unfolding last_newline
last_newline-Ready {c} d ws out m h = elim (Bool-cases (ends_in_word (get_last? out))) [
  | inl word ↦ rw word (
    push-AllLocated out _ h.0
        (layout-IsLocated TokenKind.newline (codes "\n") refl m (Moves-refl d)),
    (h.1.0, nesting-push 0 out _ h.1.1 refl),
  )
  | inr other ↦ rw other h
]

lex_end-IsTokens : {c : Cursor} (s : Lexer) → IsSound c s → IsTokens c (lex_end s)
unfolding lex_end
lex_end-IsTokens {c} s h =
    let r = range_of s.cursor s.cursor in
    let dedent : IsLocated c (layout_token TokenKind.dedent [] r) =
      layout-IsLocated TokenKind.dedent [] refl h.moved (Moves-refl s.cursor) in
    let ended : IsLocated c (layout_token TokenKind.end [] r) =
      layout-IsLocated TokenKind.end [] refl h.moved (Moves-refl s.cursor) in
    let k : Ready c s.indent_stack (last_newline r s.out) =
      last_newline-Ready s.cursor s.indent_stack s.out h.moved (h.located, h.agrees) in
    let all = close_all-AllLocated r s.indent_stack (last_newline r s.out) dedent k.0 in
    record {
      body = close_all r s.indent_stack (last_newline r s.out);
      last = layout_token TokenKind.end [] r;
      splits = refl;
      ends = refl;
      located = push-AllLocated _ _ all ended;
      nested = close_all-nested r s.indent_stack (last_newline r s.out) k.1;
    }

lex-lexed :
    (file source : Bytes) (ds : Diagnostics) (t : Lexer)
    → lex_loop (length source + 1) (start_lexer file source ds) ≡ some t
    → lex file source ds ≡ some (lex_end t, t.diags)
unfolding lex
lex-lexed file source ds t e = ap lexed? e

-- On every source `lex` ends within a round for each byte and one more. The tokens that it returns
-- end in the only `End`; before it every `Dedent` closes an `Indent` and every `Indent` is closed;
-- each token's range is that of a part of the source, and the text of each word that is neither
-- `and`, `or` nor `not`, of each number and of each other operator but `&&`, `||` and `!` is that
-- part.
pub lex-IsTokens :
    (file source : Bytes) (ds : Diagnostics)
    → (ts : List Token) × (ds' : Diagnostics) × (lex file source ds ≡ some (ts, ds'))
      × IsTokens (start_cursor file source) ts
lex-IsTokens file source ds =
    let s = start_lexer file source ds in
    let (t, e, h, _) =
      lex_loop_total (length source + 1) s (start_lexer-IsSound file source ds) (omega arith) in
    (lex_end t, t.diags, lex-lexed file source ds t e, lex_end-IsTokens t h)
