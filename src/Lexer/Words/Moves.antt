-- ===== src/Lexer/Words/Moves.antt =====
-- Words and numbers: the position moves on, and the token is no layout token.
use uinx.Prelude.{
  str_eq, is_digit, Bool-cases, and_left, and_right, inl, inr, ◌<◌, Bool, true, false, ◌&&◌, ◌||◌,
  List, [], ◌∷◌, ◌≡◌, refl, arith, Bytes, find, ◌==◌, if_keeps, length, some, Option-cases,
}
use uinx.Token.{TokenKind, Token}
use uinx.Lexer.Cursor.{Cursor, peek, eof, advance}
use uinx.Lexer.Cursor.Moves.{
  Moves, Moves-refl, Moves-trans, advance-Moves, advance_while-Moves, Moves-length, advance-shorter,
  advance_while-shorter,
}
use uinx.Lexer.Words.{
  is_digit_or_bar, is_word, keywords, word_token, word_end, has_radix, fraction, exponent,
  plain_number, number,
}

-- A kind that is neither a layout kind nor the end.
abbrev pub is_plain : TokenKind → Bool
is_plain TokenKind.end = false
is_plain TokenKind.newline = false
is_plain TokenKind.indent = false
is_plain TokenKind.dedent = false
is_plain _ = true

abbrev all_plain : List (Bytes × TokenKind) → Bool
all_plain [] = true
all_plain ((_, k) ∷ m) = is_plain k && all_plain m

keywords_plain : all_plain keywords ≡ true
unfolding keywords
keywords_plain = refl

find-is_plain :
    (w : Bytes) (m : List (Bytes × TokenKind)) (k : TokenKind)
    → all_plain m ≡ true
    → find w m ≡ some k
    → is_plain k ≡ true
unfolding find
find-is_plain w [] k h e = cc
find-is_plain w ((j, i) ∷ m) k h e = elim (Bool-cases (str_eq j w)) [
  | inl same ↦
      let found : some i ≡ some k = rw (same, find) at e in
      let i=k : i ≡ k = cc in rw (← i=k) (and_left _ _ h)
  | inr other ↦ find-is_plain w m k (and_right _ _ h) (rw (other, find) at e)
]

pub word_token-is_plain :
    (w : Bytes) (from to : Cursor) → is_plain (word_token w from to).kind ≡ true
unfolding word_token
word_token-is_plain w from to = elim (Option-cases (find w keywords)) [
  | inl n ↦ ground (arith, n)
  | inr (k, e) ↦ ground (arith, e, find-is_plain w keywords k keywords_plain e)
]

pub word_end-Moves : (c : Cursor) → Moves c (word_end c)
unfolding word_end
word_end-Moves c = Moves-trans (advance-Moves c) (advance_while-Moves is_word (advance c))

pub word_end-shorter : (c : Cursor) → eof c ≡ false → length (word_end c).rest < length c.rest
unfolding word_end
word_end-shorter c e =
    omega (arith, advance-shorter c e, Moves-length (advance_while-Moves is_word (advance c)))

fraction-Moves : (c : Cursor) → Moves c (fraction c).1
unfolding fraction
fraction-Moves c =
    if_keeps (λ (r : Bool × Cursor). Moves c r.1) _
      (Moves-trans (advance-Moves c) (advance_while-Moves _ (advance c))) (Moves-refl c)

exponent-Moves : (c : Cursor) → Moves c (exponent c).1
unfolding exponent
exponent-Moves c =
    if_keeps (λ (r : Bool × Cursor). Moves c r.1) _
      (Moves-trans
        (if_keeps (λ (d : Cursor). Moves c d)
          (peek (advance c) 0 == b'+' || peek (advance c) 0 == b'-')
          (Moves-trans (advance-Moves c) (advance-Moves (advance c))) (advance-Moves c))
        (advance_while-Moves _ _))
      (Moves-refl c)

plain_number-Moves : (c : Cursor) → Moves c (plain_number c).1
unfolding plain_number
plain_number-Moves c = Moves-trans (advance_while-Moves _ c) (
    Moves-trans (fraction-Moves _) (Moves-trans (exponent-Moves _) (advance_while-Moves is_word _)))

pub number-Moves : (c : Cursor) → Moves c (number c).1
unfolding number
number-Moves c =
    if_keeps (λ (r : Token × Cursor). Moves c r.1) (has_radix c)
      (Moves-trans (advance-Moves c)
        (Moves-trans (advance-Moves (advance c)) (advance_while-Moves is_word _)))
      (plain_number-Moves c)

pub number-is_plain : (c : Cursor) → is_plain (number c).0.kind ≡ true
unfolding number
number-is_plain c = ground arith

pub number-shorter :
    (c : Cursor)
    → eof c ≡ false
    → is_digit (peek c 0) ≡ true
    → length (number c).1.rest < length c.rest
unfolding number
number-shorter c e d =
    if_keeps (λ (r : Token × Cursor). length r.1.rest < length c.rest) (has_radix c)
      (omega (
        arith,
        advance-shorter c e,
        Moves-length (advance-Moves (advance c)),
        Moves-length (advance_while-Moves is_word (advance (advance c))),
      ))
      (omega (
        arith,
        advance_while-shorter is_digit_or_bar c e (rw d),
        Moves-length (fraction-Moves _),
        Moves-length (exponent-Moves _),
        Moves-length (advance_while-Moves is_word _),
      ))
