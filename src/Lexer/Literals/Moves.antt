-- ===== src/Lexer/Literals/Moves.antt =====
-- Literals and comments: the position moves on, and behind the first byte it does so strictly.
use uinx.Prelude.{
  ℕ, zero, suc, ◌<◌, Bool, true, false, [], ◌∷◌, ◌++◌, ◌≡◌, refl, arith, Bytes, ◌==◌, ◌&&◌,
  if_keeps, length, Bool-cases, inl, inr,
}
use uinx.Diagnostic.{Diagnostics}
use uinx.Lexer.Cursor.{Cursor, peek, eof, advance}
use uinx.Lexer.Cursor.Moves.{
  Moves, Moves-refl, Moves-trans, advance-Moves, advance_while-Moves, match_byte-Moves,
  Moves-length, advance-shorter,
}
use uinx.Lexer.Literals.{
  string_body, string_literal, char_body, char_literal, block_body, block_comment, line_comment,
  skip_comment, at_line_comment, at_block_comment, unescape,
}

two-Moves : (c : Cursor) → Moves c (advance (advance c))
two-Moves c = Moves-trans (advance-Moves c) (advance-Moves (advance c))

string_body-Moves : (bs : Bytes) (c : Cursor) (v : Bytes) → Moves c (string_body bs c v).0
unfolding string_body
string_body-Moves [] c v = Moves-refl c
string_body-Moves (b ∷ []) c v = elim (Bool-cases (b == b'"')) [
  | inl q ↦ rw (q, string_body) (Moves-refl c)
  | inr q ↦ elim (Bool-cases (b == b'\\')) [
    | inl s ↦ rw (q, s, string_body) (advance-Moves c)
    | inr s ↦ rw (q, s, string_body) (advance-Moves c)
  ]
]
string_body-Moves (b ∷ e ∷ bs) c v = elim (Bool-cases (b == b'"')) [
  | inl q ↦ rw (q, string_body) (Moves-refl c)
  | inr q ↦ elim (Bool-cases (b == b'\\')) [
    | inl s ↦
        rw (q, s, string_body)
          (Moves-trans (two-Moves c)
            (string_body-Moves bs (advance (advance c)) (v ++ unescape e ∷ [])))
    | inr s ↦
        rw (q, s, string_body)
          (Moves-trans (advance-Moves c) (string_body-Moves (e ∷ bs) (advance c) (v ++ b ∷ [])))
  ]
]

-- behind the opening quote
string_tail-Moves : (c : Cursor) (ds : Diagnostics) → Moves (advance c) (string_literal c ds).1
unfolding string_literal
string_tail-Moves c ds =
    Moves-trans (string_body-Moves (advance c).rest (advance c) []) (match_byte-Moves b'"' _)

pub string_literal-Moves : (c : Cursor) (ds : Diagnostics) → Moves c (string_literal c ds).1
string_literal-Moves c ds = Moves-trans (advance-Moves c) (string_tail-Moves c ds)

pub string_literal-shorter :
    (c : Cursor) (ds : Diagnostics)
    → eof c ≡ false
    → length (string_literal c ds).1.rest < length c.rest
string_literal-shorter c ds e =
    omega (arith, advance-shorter c e, Moves-length (string_tail-Moves c ds))

char_body-Moves : (f c : Cursor) (ds : Diagnostics) → Moves c (char_body f c ds).1
unfolding char_body
char_body-Moves f c ds = ground (arith, two-Moves c, advance-Moves c, Moves-refl c)

char_tail-Moves : (c : Cursor) (ds : Diagnostics) → Moves (advance c) (char_literal c ds).1
unfolding char_literal
char_tail-Moves c ds = Moves-trans (char_body-Moves c (advance c) ds) (match_byte-Moves b'\'' _)

pub char_literal-Moves : (c : Cursor) (ds : Diagnostics) → Moves c (char_literal c ds).1
char_literal-Moves c ds = Moves-trans (advance-Moves c) (char_tail-Moves c ds)

pub char_literal-shorter :
    (c : Cursor) (ds : Diagnostics)
    → eof c ≡ false
    → length (char_literal c ds).1.rest < length c.rest
char_literal-shorter c ds e =
    omega (arith, advance-shorter c e, Moves-length (char_tail-Moves c ds))

pub block_body-Moves : (bs : Bytes) (depth : ℕ) (c : Cursor) → Moves c (block_body bs depth c).1
unfolding block_body
block_body-Moves [] depth c = Moves-refl c
block_body-Moves (a ∷ bs) zero c = Moves-refl c
block_body-Moves (a ∷ []) (suc depth) c = advance-Moves c
block_body-Moves (a ∷ b ∷ bs) (suc depth) c = elim (Bool-cases (a == b'/' && b == b'*')) [
  | inl o ↦
      rw (o, block_body)
        (Moves-trans (two-Moves c) (block_body-Moves bs (suc (suc depth)) (advance (advance c))))
  | inr o ↦ elim (Bool-cases (a == b'*' && b == b'/')) [
    | inl q ↦
        rw (o, q, block_body)
          (Moves-trans (two-Moves c) (block_body-Moves bs depth (advance (advance c))))
    | inr q ↦
        rw (o, q, block_body)
          (Moves-trans (advance-Moves c) (block_body-Moves (b ∷ bs) (suc depth) (advance c)))
  ]
]

line_tail-Moves : (c : Cursor) → Moves (advance c) (line_comment c)
unfolding line_comment
line_tail-Moves c =
    Moves-trans
      (if_keeps (λ (d : Cursor). Moves (advance c) d) (peek c 0 == b'/') (advance-Moves (advance c))
        (Moves-refl (advance c)))
      (advance_while-Moves _ _)

block_tail-Moves : (c : Cursor) (ds : Diagnostics) → Moves (advance c) (block_comment c ds).0
unfolding block_comment
block_tail-Moves c ds =
    Moves-trans (advance-Moves (advance c))
      (block_body-Moves (advance (advance c)).rest 1 (advance (advance c)))

-- A comment moves on by one byte at least; where there is none, nothing changes.
abbrev pub Skips : Cursor → Bool × Cursor × Diagnostics → Type 0
Skips c (found, d, ds) =
    Moves c d
    × (found ≡ true → eof c ≡ false → length d.rest < length c.rest)
    × (found ≡ false → d ≡ c)

pub skip_comment-Skips : (c : Cursor) (ds : Diagnostics) → Skips c (skip_comment c ds)
unfolding skip_comment
skip_comment-Skips c ds =
    if_keeps (Skips c) (at_line_comment c)
      (
        Moves-trans (advance-Moves c) (line_tail-Moves c),
        (λ f e. omega (arith, advance-shorter c e, Moves-length (line_tail-Moves c))),
        (λ f. cc),
      )
      (if_keeps (Skips c) (at_block_comment c)
        (
          Moves-trans (advance-Moves c) (block_tail-Moves c ds),
          (λ f e. omega (arith, advance-shorter c e, Moves-length (block_tail-Moves c ds))),
          (λ f. cc),
        )
        (Moves-refl c, (λ f e. cc), (λ f. refl)))
