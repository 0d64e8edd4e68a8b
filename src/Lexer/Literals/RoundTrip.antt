-- ===== src/Lexer/Literals/RoundTrip.antt =====
-- A text written as a string literal is read back.
use uinx.Prelude.{
  ◌∙◌, sym, subst, ℕ, ◌≡◌, ◌++◌, ◌∷◌, ◌==◌, ◌||◌, if◌then◌else◌, [], Bytes, true, false, refl, ap,
  arith, append_assoc, append-nil, Bool-cases, inl, inr,
}
use uinx.Lexer.Cursor.{peek_at, peek, Cursor, advance, advance_on}
use uinx.Lexer.Literals.{string_literal, Diagnostics, close_string, string_body, unescape}

-- A backslash in front of each quote and each backslash.
unfoldable pub escaped : Bytes → Bytes
escaped [] = []
escaped (b ∷ bs) = if b == b'"' || b == b'\\' then b'\\' ∷ b ∷ escaped bs else b ∷ escaped bs

-- a byte that is neither a quote nor a backslash
string_body-plain :
    (b : ℕ) (bs : Bytes) (c : Cursor) (v : Bytes)
    → (b == b'"') ≡ false
    → (b == b'\\') ≡ false
    → string_body (b ∷ bs) c v ≡ string_body bs (advance c) (v ++ b ∷ [])
unfolding string_body
string_body-plain b [] c v q s = rw (q, s, string_body)
string_body-plain b (e ∷ bs) c v q s = rw (q, s, string_body)

string_body-quote : (rest : Bytes) (c : Cursor) (v : Bytes) → string_body (b'"' ∷ rest) c v ≡ (c, v)
unfolding string_body
string_body-quote [] c v = refl
string_body-quote (e ∷ bs) c v = refl

-- Where the loop stops at the closing quote.
abbrev StopsAt : Bytes → Bytes → Cursor × Bytes → Type 0
StopsAt rest value (d, w) = (d.rest ≡ b'"' ∷ rest) × (w ≡ value)

string_body-special :
    (b : ℕ) (bs : Bytes) (c : Cursor) (v : Bytes)
    → (b == b'"' || b == b'\\') ≡ true
    → string_body (b'\\' ∷ b ∷ bs) c v ≡ string_body bs (advance (advance c)) (v ++ b ∷ [])
unfolding string_body
string_body-special b bs c v h =
    let e : unescape b ≡ b = ground (arith, h) in
    ap (λ (x : ℕ). string_body bs (advance (advance c)) (v ++ x ∷ [])) e

escaped-special :
    (b : ℕ) (bs : Bytes)
    → (b == b'"' || b == b'\\') ≡ true
    → escaped (b ∷ bs) ≡ b'\\' ∷ b ∷ escaped bs
unfolding escaped
escaped-special b bs h = rw h

escaped-plain :
    (b : ℕ) (bs : Bytes) → (b == b'"' || b == b'\\') ≡ false → escaped (b ∷ bs) ≡ b ∷ escaped bs
unfolding escaped
escaped-plain b bs h = rw h

advance-rest : (c : Cursor) (b : ℕ) (bs : Bytes) → c.rest ≡ b ∷ bs → (advance c).rest ≡ bs
unfolding advance_on
advance-rest c b bs e = ap (λ (xs : Bytes). (advance_on xs c).rest) e

string_body-escaped :
    (v rest : Bytes) (c : Cursor) (acc : Bytes)
    → c.rest ≡ escaped v ++ b'"' ∷ rest
    → StopsAt rest (acc ++ v) (string_body (escaped v ++ b'"' ∷ rest) c acc)
string_body-escaped [] rest c acc e = empty_case
  where
    x : escaped [] ≡ []
    x = unfold escaped in refl

    empty_case : StopsAt rest (acc ++ []) (string_body (escaped [] ++ b'"' ∷ rest) c acc)
    empty_case =
        let e' : c.rest ≡ b'"' ∷ rest = rw x at e in
        rw (x, string_body-quote rest c acc, append-nil acc) (e', refl)
string_body-escaped (b ∷ bs) rest c acc e = elim (Bool-cases (b == b'"' || b == b'\\')) [
  | inl special ↦
      let x = escaped-special b bs special in
      let e' : c.rest ≡ b'\\' ∷ b ∷ (escaped bs ++ b'"' ∷ rest) = rw x at e in
      let one = advance-rest c b'\\' _ e' in
      let two = advance-rest (advance c) b _ one in
      rw (x, string_body-special b (escaped bs ++ b'"' ∷ rest) c acc special)
        (subst
          (λ (w : Bytes).
            StopsAt rest w
              (string_body (escaped bs ++ b'"' ∷ rest) (advance (advance c)) (acc ++ b ∷ [])))
          (append_assoc acc (b ∷ []) bs)
          (string_body-escaped bs rest (advance (advance c)) (acc ++ b ∷ []) two))
  | inr plain ↦
      let x = escaped-plain b bs plain in
      let e' : c.rest ≡ b ∷ (escaped bs ++ b'"' ∷ rest) = rw x at e in
      let one = advance-rest c b _ e' in
      rw
        (
          x,
          string_body-plain b (escaped bs ++ b'"' ∷ rest) c acc (ground (arith, plain))
              (ground (arith, plain)),
        )
        (subst
          (λ (w : Bytes).
            StopsAt rest w (string_body (escaped bs ++ b'"' ∷ rest) (advance c) (acc ++ b ∷ [])))
          (append_assoc acc (b ∷ []) bs)
          (string_body-escaped bs rest (advance c) (acc ++ b ∷ []) one))
]

close_string-quote :
    (from d : Cursor) (v rest : Bytes) (ds : Diagnostics)
    → d.rest ≡ b'"' ∷ rest
    → ((close_string from d v ds).0.text ≡ v)
      × ((close_string from d v ds).1.rest ≡ rest)
      × ((close_string from d v ds).2 ≡ ds)
unfolding close_string advance_on
close_string-quote from d v rest ds e =
    let there : peek d 0 ≡ b'"' = ap (λ (xs : Bytes). peek_at xs 0) e in
    let t : (peek d 0 == b'"') ≡ true = ground (arith, there) in
    rw t (refl, advance-rest d b'"' rest e, refl)

-- A literal that holds a text, with a backslash in front of each quote and each backslash of it, is
-- read as that text, up to the closing quote and with no diagnostic, whatever follows it.
pub string_literal-escaped :
    (c : Cursor) (ds : Diagnostics) (v rest : Bytes)
    → c.rest ≡ b'"' ∷ (escaped v ++ b'"' ∷ rest)
    → ((string_literal c ds).0.text ≡ v)
      × ((string_literal c ds).1.rest ≡ rest)
      × ((string_literal c ds).2 ≡ ds)
string_literal-escaped c ds v rest e =
    let one : (advance c).rest ≡ escaped v ++ b'"' ∷ rest = advance-rest c b'"' _ e in
    let stop : StopsAt rest v (string_body (advance c).rest (advance c) []) =
      subst (λ (xs : Bytes). StopsAt rest v (string_body xs (advance c) [])) (sym one)
        (string_body-escaped v rest (advance c) [] one) in
    let body = string_body (advance c).rest (advance c) [] in
    let closed = close_string-quote c body.0 body.1 rest ds stop.0 in
    unfold string_literal in (closed.0 ∙ stop.1, closed.1, closed.2)
