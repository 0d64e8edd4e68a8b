-- ===== src/Lexer/Operators/Moves.antt =====
-- Operators: the position moves on, and the kind is no layout kind.
use uinx.Prelude.{ℕ, true, ◌≡◌, refl, ◌==◌, if_keeps, Option, none, some}
use uinx.Token.{TokenKind}
use uinx.Lexer.Cursor.{Cursor, advance}
use uinx.Lexer.Cursor.Moves.{Moves, Moves-refl, Moves-trans, advance-Moves, match_byte-Moves}
use uinx.Lexer.Operators.{
  one_or_two, one_of_three, doubled, ampersand, dots, bars, operator_kind, at_mut,
}
use uinx.Lexer.Words.Moves.{is_plain}

abbrev IsStep : Cursor → TokenKind × Cursor → Type 0
IsStep c (k, d) = (is_plain k ≡ true) × Moves c d

abbrev pub IsStep? : Cursor → Option TokenKind × Cursor → Type 0
IsStep? c (none, d) = Moves c d
IsStep? c (some k, d) = (is_plain k ≡ true) × Moves c d

one_or_two-IsStep :
    (b : ℕ) (l s : TokenKind) (c : Cursor)
    → is_plain l ≡ true
    → is_plain s ≡ true
    → IsStep c (one_or_two b l s c)
unfolding one_or_two
one_or_two-IsStep b l s c p q =
    (if_keeps (λ (k : TokenKind). is_plain k ≡ true) _ p q, match_byte-Moves b c)

-- a second test at a position reached from `c`
after :
    {c d : Cursor} (b : ℕ) (l s : TokenKind)
    → Moves c d
    → is_plain l ≡ true
    → is_plain s ≡ true
    → IsStep c (one_or_two b l s d)
after {c} {d} b l s m p q = let h = one_or_two-IsStep b l s d p q in (h.0, Moves-trans m h.1)

one_of_three-IsStep :
    (b : ℕ) (l : TokenKind) (b' : ℕ) (o s : TokenKind) (c : Cursor)
    → is_plain l ≡ true
    → is_plain o ≡ true
    → is_plain s ≡ true
    → IsStep c (one_of_three b l b' o s c)
unfolding one_of_three
one_of_three-IsStep b l b' o s c p q r =
    if_keeps (IsStep c) _ (p, match_byte-Moves b c) (one_or_two-IsStep b' o s c q r)

doubled-IsStep :
    (b : ℕ) (le l se s : TokenKind) (c : Cursor)
    → is_plain le ≡ true
    → is_plain l ≡ true
    → is_plain se ≡ true
    → is_plain s ≡ true
    → IsStep c (doubled b le l se s c)
unfolding doubled
doubled-IsStep b le l se s c p q r t =
    if_keeps (IsStep c) _ (after b'=' le l (match_byte-Moves b c) p q)
      (one_or_two-IsStep b'=' se s c r t)

ampersand-IsStep : (c : Cursor) → IsStep c (ampersand c)
unfolding ampersand
ampersand-IsStep c =
    if_keeps (IsStep c) _ (refl, match_byte-Moves b'&' c)
      (if_keeps (IsStep c) (at_mut c)
        (
          refl,
          Moves-trans (advance-Moves c)
              (Moves-trans (advance-Moves (advance c)) (advance-Moves (advance (advance c)))),
        )
        (one_or_two-IsStep b'=' TokenKind.amp_eq TokenKind.amp c refl refl))

dots-IsStep : (c : Cursor) → IsStep c (dots c)
unfolding dots
dots-IsStep c =
    if_keeps (IsStep c) _
      (after b'=' TokenKind.dot_dot_eq TokenKind.dot_dot (match_byte-Moves b'.' c) refl refl)
      (refl, Moves-refl c)

bars-IsStep : (c : Cursor) → IsStep c (bars c)
unfolding bars
bars-IsStep c =
    one_of_three-IsStep b'|' TokenKind.or_or b'=' TokenKind.pipe_eq TokenKind.pipe c refl refl refl

-- The kind of an operator is plain, and its bytes are behind the position.
pub operator_kind-IsStep : (b : ℕ) (c : Cursor) → IsStep? c (operator_kind b c)
unfolding operator_kind
operator_kind-IsStep b c =
    if_keeps (IsStep? c) (b == b'(') (refl, Moves-refl c)
      (if_keeps (IsStep? c) (b == b')') (refl, Moves-refl c)
        (if_keeps (IsStep? c) (b == b'{') (refl, Moves-refl c)
          (if_keeps (IsStep? c) (b == b'}') (refl, Moves-refl c)
            (if_keeps (IsStep? c) (b == b'[') (refl, Moves-refl c)
              (if_keeps (IsStep? c) (b == b']') (refl, Moves-refl c)
                (if_keeps (IsStep? c) (b == b',') (refl, Moves-refl c)
                  (if_keeps (IsStep? c) (b == b'.') (dots-IsStep c) (
                    if_keeps (IsStep? c) (b == b';') (refl, Moves-refl c)
                      (if_keeps (IsStep? c) (b == b'?') (refl, Moves-refl c)
                        (if_keeps (IsStep? c) (b == b'~') (refl, Moves-refl c)
                          (if_keeps (IsStep? c) (b == b'%')
                            (one_or_two-IsStep b'=' TokenKind.percent_eq TokenKind.percent c refl
                              refl)
                            (if_keeps (IsStep? c) (b == b'^')
                              (one_or_two-IsStep b'=' TokenKind.caret_eq TokenKind.caret c refl
                                refl)
                              (if_keeps (IsStep? c) (b == b':')
                                (one_or_two-IsStep b':' TokenKind.colon_colon TokenKind.colon c refl
                                  refl)
                                (if_keeps (IsStep? c) (b == b'-')
                                  (one_of_three-IsStep b'>' TokenKind.arrow b'=' TokenKind.minus_eq
                                    TokenKind.minus c refl refl refl)
                                  (if_keeps (IsStep? c) (b == b'=')
                                    (one_of_three-IsStep b'=' TokenKind.eq_eq b'>'
                                      TokenKind.fat_arrow TokenKind.eq c refl refl refl)
                                    (if_keeps (IsStep? c) (b == b'+')
                                      (one_or_two-IsStep b'=' TokenKind.plus_eq TokenKind.plus c
                                        refl refl)
                                      (if_keeps (IsStep? c) (b == b'*')
                                        (one_or_two-IsStep b'=' TokenKind.star_eq TokenKind.star c
                                          refl refl)
                                        (if_keeps (IsStep? c) (b == b'/')
                                          (one_or_two-IsStep b'=' TokenKind.slash_eq TokenKind.slash
                                            c refl refl)
                                          (if_keeps (IsStep? c) (b == b'&') (ampersand-IsStep c) (
                                            if_keeps (IsStep? c) (b == b'|') (bars-IsStep c) (
                                              if_keeps (IsStep? c) (b == b'!')
                                                (one_or_two-IsStep b'=' TokenKind.bang_eq
                                                  TokenKind.bang c refl refl)
                                                (if_keeps (IsStep? c) (b == b'<')
                                                  (doubled-IsStep b'<' TokenKind.shift_left_eq
                                                    TokenKind.shift_left TokenKind.less_eq
                                                    TokenKind.less c refl refl refl refl)
                                                  (if_keeps (IsStep? c) (b == b'>')
                                                    (doubled-IsStep b'>' TokenKind.shift_right_eq
                                                      TokenKind.shift_right TokenKind.greater_eq
                                                      TokenKind.greater c refl refl refl refl)
                                                    (Moves-refl c))))))))))))))))))))))))
