-- ===== src/Lexer/Located.antt =====
-- Where the tokens of the lexer lie in the source, and what their text is.
use uinx.Prelude.{
  if◌then◌else◌, arith, ◌-◌, sym, ltb, refl, ◌≡◌, Bool-cases, inl, inr, if_keeps, Bool-cases, inl,
  true, take, false, ◌∷◌, ◌⊎◌, Bytes, ◌++◌, ◌∙◌, ◌≡◌, All, Bool, ℕ, List, [],
}
use uinx.Diagnostic.{Diagnostics}
use uinx.Token.{TokenKind, Token}
use uinx.Lexer.Cursor.{advance, advance_while, Cursor, text_between}
use uinx.Lexer.Cursor.Moves.{Moves, text_between-Moves}
use uinx.Lexer.Words.{
  plain_number, is_word, has_radix, range_of, make, word_token, word_end, identifier_or_keyword,
  number,
}
use uinx.Lexer.Literals.{string_literal, char_literal}
use uinx.Lexer.Literals.Moves.{string_literal-Moves, char_literal-Moves}
use uinx.Lexer.Words.Moves.{
  word_end-Moves, number-Moves, number-is_plain, word_token-is_plain, is_plain,
}

-- The kinds whose text is the source itself: not the literals, whose escapes are resolved, nor the
-- operators that have a word for a second spelling, nor the layout.
abbrev pub is_verbatim : TokenKind → Bool
is_verbatim TokenKind.end = false
is_verbatim TokenKind.newline = false
is_verbatim TokenKind.indent = false
is_verbatim TokenKind.dedent = false
is_verbatim TokenKind.string = false
is_verbatim TokenKind.char = false
is_verbatim TokenKind.and_and = false
is_verbatim TokenKind.or_or = false
is_verbatim TokenKind.bang = false
is_verbatim _ = true

-- The token's range is that of a part of the source behind `c`, and where its kind is verbatim, its
-- text is that part.
pub record IsLocated (c : Cursor) (t : Token) : Type 0 where
  pub from : Cursor
  pub to : Cursor
  pub before : Moves c from
  pub across : Moves from to
  pub range_is : t.range ≡ range_of from to
  pub text_is : is_verbatim t.kind ≡ true → t.text ≡ across.read

pub All-append {ℓ κ} :
    {A : Type ℓ} (P : A → Type κ) (xs ys : List A) → All P xs → All P ys → All P (xs ++ ys)
All-append P [] ys p q = q
All-append P (x ∷ xs) ys p q = (p.0, All-append P xs ys p.1 q)

abbrev pub AllLocated : Cursor → List Token → Type 0
AllLocated c ts = All (IsLocated c) ts

pub push-AllLocated :
    {c : Cursor} (ts : List Token) (t : Token)
    → AllLocated c ts
    → IsLocated c t
    → AllLocated c (ts ++ t ∷ [])
push-AllLocated {c} ts t h l = All-append (IsLocated c) ts (t ∷ []) h (l, tt)

pub layout-IsLocated :
    {c from to : Cursor} (k : TokenKind) (text : Bytes)
    → is_verbatim k ≡ false
    → Moves c from
    → Moves from to
    → IsLocated c (record { kind = k; text = text; range = range_of from to })
layout-IsLocated {c} {from} {to} k text e b a = record {
  from = from;
  to = to;
  before = b;
  across = a;
  range_is = refl;
  text_is = λ v. cc;
}

-- What a scanner gives: the token that stands between two positions, whose kind is plain.
pub record Reads (c : Cursor) (t : Token) (d : Cursor) : Type 0 where
  pub across : Moves c d
  pub plain : is_plain t.kind ≡ true
  pub range_is : t.range ≡ range_of c d
  pub text_is : is_verbatim t.kind ≡ true → t.text ≡ text_between c d

pub Reads-IsLocated :
    {c from to : Cursor} {t : Token} → Moves c from → Reads from t to → IsLocated c t
Reads-IsLocated {c} {from} {to} {t} b r = record {
  from = from;
  to = to;
  before = b;
  across = r.across;
  range_is = r.range_is;
  text_is = λ v. r.text_is v ∙ text_between-Moves r.across;
}

take-zero : (n : ℕ) (xs : Bytes) → n ≡ 0 → take n xs ≡ []
take-zero n xs e = rw e

-- With no text of its own, or with the source's, `make` gives the source's.
pub make-verbatim :
    (k : TokenKind) (c d : Cursor) (text : Bytes)
    → (text ≡ []) ⊎ (text ≡ text_between c d)
    → (make k c d text).text ≡ text_between c d
unfolding make text_between
make-verbatim k c d text (inl e) = elim (Bool-cases (ltb c.pos d.pos)) [
  | inl lt ↦ rw (e, lt)
  | inr ge ↦ rw (e, ge) (sym (take-zero (d.pos - c.pos) c.rest (ground (arith, ge))))
]
make-verbatim k c d text (inr e) = rw e (if_keeps (λ (x : Bytes). x ≡ text_between c d) _ refl refl)

abbrev RangeIs : Cursor → Cursor → Token → Type 0
RangeIs c d t = t.range ≡ range_of c d

abbrev TextIs : Cursor → Cursor → Token → Type 0
TextIs c d t = is_verbatim t.kind ≡ true → t.text ≡ text_between c d

word_token-RangeIs : (w : Bytes) (c d : Cursor) → RangeIs c d (word_token w c d)
unfolding word_token
word_token-RangeIs w c d = ground arith

word_token-TextIs : (c d : Cursor) → TextIs c d (word_token (text_between c d) c d)
unfolding word_token
word_token-TextIs c d v = ground (arith, make-verbatim _ c d (text_between c d) (inr refl))

pub word-Reads : (c : Cursor) → Reads c (identifier_or_keyword c).0 (identifier_or_keyword c).1
unfolding identifier_or_keyword
word-Reads c = record {
  across = word_end-Moves c;
  plain = word_token-is_plain _ c (word_end c);
  range_is = word_token-RangeIs _ c (word_end c);
  text_is = word_token-TextIs c (word_end c);
}

pub number-Reads : (c : Cursor) → Reads c (number c).0 (number c).1
unfolding number
number-Reads c = record {
  across = number-Moves c;
  plain = number-is_plain c;
  range_is = if_keeps (λ (r : Token × Cursor). RangeIs c r.1 r.0) (has_radix c) refl refl;
  text_is =
      if_keeps (λ (r : Token × Cursor). TextIs c r.1 r.0) (has_radix c)
        (λ v.
          make-verbatim TokenKind.integer c (advance_while is_word (advance (advance c))) []
            (inl refl))
        (λ v.
          make-verbatim (if (plain_number c).0 then TokenKind.float else TokenKind.integer) c
            (plain_number c).1 [] (inl refl));
}

pub string-Reads :
    (c : Cursor) (ds : Diagnostics) → Reads c (string_literal c ds).0 (string_literal c ds).1
unfolding string_literal
string-Reads c ds = record {
  across = string_literal-Moves c ds;
  plain = refl;
  range_is = refl;
  text_is = λ v. cc;
}

pub char-Reads :
    (c : Cursor) (ds : Diagnostics) → Reads c (char_literal c ds).0 (char_literal c ds).1
unfolding char_literal
char-Reads c ds = record {
  across = char_literal-Moves c ds;
  plain = refl;
  range_is = refl;
  text_is = λ v. cc;
}

-- the token of an operator, whose kind is plain
pub operator-Reads :
    (c d : Cursor) (k : TokenKind) → Moves c d → is_plain k ≡ true → Reads c (make k c d []) d
unfolding make
operator-Reads c d k m p = record {
  across = m;
  plain = p;
  range_is = refl;
  text_is = λ v. make-verbatim k c d [] (inl refl);
}
