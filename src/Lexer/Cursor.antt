-- ===== src/Lexer/Cursor.antt =====
-- The position of src/lexer.cpp: `peek`, `eof`, `advance`, `match`, and the loops that only move.
-- `rest` is the source from `pos_` on, so that `src_[pos_ + n]` is its n-th byte.
pub mod Moves
use uinx.Prelude.{
  ℕ, zero, suc, ◌+◌, ◌-◌, ◌%◌, ◌^◌, Bool, true, false, not, ◌&&◌, ◌||◌, List, [], ◌∷◌, Bytes, ◌==◌,
  if◌then◌else◌, length, get_elem?, take, Option, none, some,
}
use uinx.Diagnostic.{SourceLoc}

pub record Cursor : Type 0 where
  pub rest : Bytes
  pub pos : ℕ
  pub loc : SourceLoc

abbrev pub u32_mod : ℕ
u32_mod = 4_294_967_296

-- `Lexer::eof(n)`
abbrev pub eof_at : Bytes → ℕ → Bool
eof_at [] n = true
eof_at (c ∷ cs) zero = false
eof_at (c ∷ cs) (suc n) = eof_at cs n

abbrev pub eof : Cursor → Bool
eof c = eof_at c.rest 0

-- `Lexer::peek(n)`: the NUL byte past the end.
abbrev pub peek_at : Bytes → ℕ → ℕ
peek_at [] n = 0
peek_at (c ∷ cs) zero = c
peek_at (c ∷ cs) (suc n) = peek_at cs n

abbrev pub peek : Cursor → ℕ → ℕ
peek c n = peek_at c.rest n

-- how `advance` moves the location over the byte `b`
unfoldable pub bump : ℕ → SourceLoc → SourceLoc
bump b l =
    if b == b'\n'
    then record l { line = (l.line + 1) % u32_mod; column = 1; offset = (l.offset + 1) % u32_mod }
    else record l { column = (l.column + 1) % u32_mod; offset = (l.offset + 1) % u32_mod }

unfoldable pub advance_on : Bytes → Cursor → Cursor
advance_on [] c = c
advance_on (b ∷ bs) c = record { rest = bs; pos = c.pos + 1; loc = bump b c.loc }

-- `Lexer::advance`; the byte that it returns is `peek c 0`.
abbrev pub advance : Cursor → Cursor
advance c = advance_on c.rest c

-- `Lexer::match`: whether the byte is there, and the position behind it if it is.
unfoldable pub match_byte : ℕ → Cursor → Bool × Cursor
unfolding advance_on
match_byte b c = if peek c 0 == b then (true, advance c) else (false, c)

-- `while (p(peek())) advance();`, by recursion on the bytes that are left.
unfoldable pub advance_over : (ℕ → Bool) → Bytes → Cursor → Cursor
unfolding advance_on
advance_over p [] c = c
advance_over p (b ∷ bs) c = elim (p b) [
  | true ↦ let c' = advance c in advance_over p bs c'
  | false ↦ c
]

unfoldable pub advance_while : (ℕ → Bool) → Cursor → Cursor
unfolding advance_over
advance_while p c = advance_over p c.rest c

abbrev pub is_horizontal : ℕ → Bool
is_horizontal b = b == b' ' || b == b'\t' || b == b'\r'

-- `Lexer::skip_horizontal_space`
unfoldable pub skip_horizontal_space : Cursor → Cursor
unfolding advance_while
skip_horizontal_space = advance_while is_horizontal

-- `src_.substr(start, pos_ - start)`, where `from` is the position at `start`
unfoldable pub text_between : Cursor → Cursor → Bytes
text_between from to = take (to.pos - from.pos) from.rest
