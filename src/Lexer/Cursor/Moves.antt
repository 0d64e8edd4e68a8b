-- ===== src/Lexer/Cursor/Moves.antt =====
-- Every scanner of the lexer only advances: it goes on from the position it was given, byte by byte.
use uinx.Prelude.{
  true, ℕ, ◌+◌, ◌-◌, ◌≤◌, ◌<◌, Bool, false, [], ◌∷◌, ◌++◌, ◌≡◌, refl, sym, ap, ◌∙◌, inl, inr, arith,
  Bytes, ◌==◌, length, take, Bool-cases, List-cases, append_assoc, length-append,
}
use uinx.Diagnostic.{SourceLoc}
use uinx.Lexer.Cursor.{
  eof_at, peek_at, Cursor, bump, advance_on, advance, match_byte, advance_over, advance_while, peek,
  eof, text_between, is_horizontal, skip_horizontal_space,
}

-- the location behind some bytes
abbrev pub bump_all : Bytes → SourceLoc → SourceLoc
bump_all [] l = l
bump_all (b ∷ bs) l = bump_all bs (bump b l)

pub bump_all-append :
    (xs ys : Bytes) (l : SourceLoc) → bump_all (xs ++ ys) l ≡ bump_all ys (bump_all xs l)
bump_all-append [] ys l = refl
bump_all-append (x ∷ xs) ys l = bump_all-append xs ys (bump x l)

-- `d` lies behind the bytes `read`, which stood at `c`.
pub record Moves (c d : Cursor) : Type 0 where
  pub read : Bytes
  pub splits : c.rest ≡ read ++ d.rest
  pub position : d.pos ≡ c.pos + length read
  pub location : d.loc ≡ bump_all read c.loc

pub Moves-refl : (c : Cursor) → Moves c c
Moves-refl c = record { read = []; splits = refl; position = omega arith; location = refl }

pub Moves-trans : {c d e : Cursor} → Moves c d → Moves d e → Moves c e
Moves-trans {c} {d} {e} m n = record {
  read = m.read ++ n.read;
  splits =
      m.splits ∙ ap (λ (r : Bytes). m.read ++ r) n.splits ∙ sym (append_assoc m.read n.read e.rest);
  position = omega (arith, m.position, n.position, length-append m.read n.read);
  location =
      n.location ∙ ap (bump_all n.read) m.location ∙ sym (bump_all-append m.read n.read c.loc);
}

advance_on-Moves : (bs : Bytes) (c : Cursor) → c.rest ≡ bs → Moves c (advance_on bs c)
unfolding advance_on
advance_on-Moves [] c e = Moves-refl c
advance_on-Moves (b ∷ bs) c e = record {
  read = b ∷ [];
  splits = e;
  position = omega arith;
  location = refl;
}

pub advance-Moves : (c : Cursor) → Moves c (advance c)
advance-Moves c = advance_on-Moves c.rest c refl

pub advance_over-Moves : (p : ℕ → Bool) (bs : Bytes) (c : Cursor) → Moves c (advance_over p bs c)
unfolding advance_over
advance_over-Moves p [] c = Moves-refl c
advance_over-Moves p (b ∷ bs) c = elim (Bool-cases (p b)) [
  | inl t ↦
      rw (t, advance_over) (Moves-trans (advance-Moves c) (advance_over-Moves p bs (advance c)))
  | inr f ↦ rw (f, advance_over) (Moves-refl c)
]

pub advance_while-Moves : (p : ℕ → Bool) (c : Cursor) → Moves c (advance_while p c)
unfolding advance_while
advance_while-Moves p c = advance_over-Moves p c.rest c

pub skip_horizontal_space-Moves : (c : Cursor) → Moves c (skip_horizontal_space c)
unfolding skip_horizontal_space
skip_horizontal_space-Moves c = advance_while-Moves is_horizontal c

pub match_byte-Moves : (b : ℕ) (c : Cursor) → Moves c (match_byte b c).1
unfolding match_byte
match_byte-Moves b c = elim (Bool-cases (peek c 0 == b)) [
  | inl t ↦ rw t (advance-Moves c)
  | inr f ↦ rw f (Moves-refl c)
]

-- Strictly: at least one byte is behind.
pub Moves-length : {c d : Cursor} → Moves c d → length d.rest ≤ length c.rest
Moves-length {c} {d} m = omega (arith, ap length m.splits, length-append m.read d.rest)

pub advance-shorter : (c : Cursor) → eof c ≡ false → length (advance c).rest < length c.rest
unfolding advance_on
advance-shorter c e = elim (List-cases c.rest) [
  | inl n ↦ cc (rw n at e)
  | inr (b, bs, n) ↦ rw n (omega arith)
]

-- The text between two positions is what was read between them.
take-append : (xs ys : Bytes) → take (length xs) (xs ++ ys) ≡ xs
take-append [] ys = refl
take-append (x ∷ xs) ys = ap (◌∷◌ x) (take-append xs ys)

pub text_between-Moves : {c d : Cursor} (m : Moves c d) → text_between c d ≡ m.read
unfolding text_between
text_between-Moves {c} {d} m =
    let e : d.pos - c.pos ≡ length m.read = omega (arith, m.position) in
    rw (e, m.splits) (take-append m.read d.rest)

advance_over-shorter :
    (p : ℕ → Bool) (xs : Bytes) (c : Cursor)
    → c.rest ≡ xs
    → eof c ≡ false
    → p (peek_at xs 0) ≡ true
    → eof_at xs 0 ≡ false
    → length (advance_over p xs c).rest < length c.rest
unfolding advance_over
advance_over-shorter p [] c n e t q = cc
advance_over-shorter p (b ∷ bs) c n e t q =
    rw (t, advance_over)
      (omega (arith, advance-shorter c e, Moves-length (advance_over-Moves p bs (advance c))))

pub advance_while-shorter :
    (p : ℕ → Bool) (c : Cursor)
    → eof c ≡ false
    → p (peek c 0) ≡ true
    → length (advance_while p c).rest < length c.rest
unfolding advance_while
advance_while-shorter p c e t = advance_over-shorter p c.rest c refl e t e
