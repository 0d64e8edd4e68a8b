-- ===== src/Parser/Monad/Total/Members.antt =====
-- The members of Parser that read no expression end.
use uinx.Prelude.{
  ℕ, suc, ◌<◌, ◌≡◌, refl, ap, Bool, true, false, List, [], ◌∷◌, Bytes, codes, length, arith,
  Bool-cases, inl, inr, if◌then◌else◌,
}
use uinx.Token.{TokenKind, Token}
use uinx.Token.Kinds.{token_is}
use uinx.Diagnostic.{SourceRange, report_error}
use uinx.Parser.Monad.{
  Parser, Parses, Round, again, pure, ◌>>=◌, ◌>>◌, left, if_at, if_consume, consume, advance,
  stepped, error_at, unexpected, expect, expect_name, skip_newlines, finish_line, suite_ends,
  in_suite, suite_round, end_suite, begin_suite, current,
}
use uinx.Parser.Monad.Total.Ending.{
  ClosedBy, lands, Lands-map, Behind, Past, Fine, Moving, Turns, Eats, ends_in,
}
use uinx.Parser.Monad.Total.Rules.{
  Fine-pure, Fine-if_both, Fine-if, Fine-if_at, Eats-if_at, Fine-bind, Moving-bind, Moving-then,
}
use uinx.Parser.Monad.Total.Loops.{
  Turns-finish, Turns-if_at, Turns-unless, Turns-bind, Fine-iterate,
}

-- the members that read no expression
module _ (n : ℕ) where
  stepped-closed :
      (t : Token) (ts : List Token) (s : Parser)
      → s ≡ record { now = t; behind = ts; diags = s.diags }
      → ClosedBy t ts
      → 0 < length ts
      → Past s (stepped t ts s.diags)
  stepped-closed t [] s e c pos = absurd (omega (arith, pos))
  stepped-closed t (u ∷ us) s e c pos = record { closed = c; shorter = omega (arith, ap left e) }

  pub Moving-advance : Moving n advance
  unfolding advance
  Moving-advance = record { run = λ s c lt pos. lands (stepped-closed s.now s.behind s refl c pos) }

  stays :
      (t : Token) (ts : List Token) (s : Parser)
      → ts ≡ s.behind
      → ClosedBy t ts
      → Behind s (stepped t ts s.diags)
  stays t [] s e c = record { closed = c; short = omega arith }
  stays t (u ∷ us) s e c = record { closed = c; short = omega (arith, ap length e) }

  pub Fine-advance : Fine n advance
  unfolding advance
  Fine-advance = record { run = λ s c lt. lands (stays s.now s.behind s refl c) }

  pub Eats-advance : Eats n advance
  Eats-advance = record { fine = Fine-advance; moving = Moving-advance }

  pub Fine-error_at : (r : SourceRange) (code message : Bytes) → Fine n (error_at r code message)
  unfolding error_at
  Fine-error_at r code message = record {
    run = λ s c lt. lands (record { closed = c; short = omega arith });
  }

  pub Fine-current : Fine n current
  Fine-current = record { run = λ s c lt. lands (record { closed = c; short = omega arith }) }

  pub Fine-unexpected : (what : Bytes) → Fine n (unexpected what)
  unfolding unexpected
  Fine-unexpected what =
      Fine-bind n Fine-current λ t. Fine-bind n (Fine-error_at t.range _ _) λ u. Fine-pure n t

  pub Fine-expect : (k : TokenKind) (what : Bytes) → Fine n (expect k what)
  Fine-expect k what = Fine-if_both n (k ∷ []) Fine-advance (Fine-unexpected what)

  pub Fine-expect_name : (what : Bytes) → Fine n (expect_name what)
  Fine-expect_name what =
      Fine-if_both n (TokenKind.identifier ∷ TokenKind.kw_ptr ∷ []) Fine-advance
        (Fine-unexpected what)

  -- `consume`, where less is asked of what follows
  pub Fine-if_consume :
      {A : Type 0} (k : TokenKind) {m e : Parses A}
      → Fine n m
      → Fine n e
      → Fine n (if_consume k m e)
  Fine-if_consume k h g = Fine-if_both n (k ∷ []) (Fine-bind n Fine-advance λ t. h) g

  pub Fine-consume : (k : TokenKind) → Fine n (consume k)
  Fine-consume k = Fine-if_consume k (Fine-pure n true) (Fine-pure n false)

  pub Moving-consumed : {A : Type 0} {m : Parses A} → Fine n m → Moving n (advance >> m)
  Moving-consumed h = Moving-then n Moving-advance λ t. h

  pub Turns-if_consume :
      {A B : Type 0} (k : TokenKind) {m e : Parses (Round A B)}
      → ends_in (k ∷ []) ≡ false
      → Fine n m
      → Turns n e
      → Turns n (if_consume k m e)
  Turns-if_consume k c h g = Turns-if_at n (k ∷ []) c (Moving-consumed h) g

  pub Fine-skip_newlines : Fine n skip_newlines
  unfolding skip_newlines token_is
  Fine-skip_newlines =
      Fine-iterate n tt
        λ u. Turns-if_consume TokenKind.newline refl (Fine-pure n (again tt)) (Turns-finish n tt)

  pub Fine-finish_line : Fine n finish_line
  unfolding finish_line
  Fine-finish_line = search (
    Fine-bind, Fine-if_both, Fine-pure, Fine-advance, Fine-current, Fine-error_at,
    Fine-skip_newlines,
  )

  pub Fine-begin_suite : Fine n begin_suite
  unfolding begin_suite
  Fine-begin_suite =
      search (Fine-bind, Fine-if_both, Fine-pure, Fine-advance, Fine-unexpected, Fine-skip_newlines)
        depth 20 fits 2000

  pub Fine-end_suite : (braces : Bool) → Fine n (end_suite braces)
  unfolding end_suite
  Fine-end_suite braces =
      Fine-bind n
        (Fine-if n braces (Fine-expect TokenKind.r_brace (codes "'}'"))
          (Fine-expect TokenKind.dedent (codes "end of indented block")))
        λ t. Fine-skip_newlines

  suite_ends-end : (braces : Bool) → ends_in (suite_ends braces) ≡ true
  unfolding token_is
  suite_ends-end true = refl
  suite_ends-end false = refl

  pub Fine-in_suite :
      {A : Type 0} (braces : Bool) (body : A → Parses A) (a : A)
      → ((b : A) → Moving n (body b))
      → Fine n (in_suite braces body a)
  unfolding in_suite suite_round
  Fine-in_suite braces body a h = Fine-iterate n a λ b. Turns-bind n Fine-skip_newlines λ u.
      Turns-unless n (suite_ends braces) (suite_ends-end braces) (Turns-finish n b)
        (Moving-then n (h b) λ c. Fine-pure n (again c))

module _ (n : ℕ) where
  -- a test of the whole state
  pub Fine-if_state :
      {A : Type 0} (test : Parser → Bool) {m k : Parses A}
      → Fine n m
      → Fine n k
      → Fine n (λ s. if test s then m s else k s)
  Fine-if_state test {m} {k} h g = record {
    run = λ s c lt. elim (Bool-cases (test s)) [
      | inl there ↦ rw there (h.run s c lt)
      | inr other ↦ rw other (g.run s c lt)
    ];
  }

  -- an error at the token that is passed over
  pub Eats-report :
      {A : Type 0} (code message : Bytes) (a : A)
      → Eats n (current >>= λ t. error_at t.range code message >> (advance >> pure a))
  unfolding error_at
  Eats-report code message a = record {
    fine = Fine-bind n (Fine-current n) λ t.
        Fine-bind n (Fine-error_at n t.range code message)
          λ u. Fine-bind n (Fine-advance n) λ v. Fine-pure n a;
    moving = record {
      run = λ s c lt pos.
          Lands-map
            ((Moving-then n (Moving-advance n) λ t. Fine-pure n a).run
              (record s { diags = report_error s.diags s.now.range code message }) c lt pos)
            λ b t p. record { closed = p.closed; shorter = p.shorter };
    };
  }

-- What stands behind a token that is consumed runs with fewer tokens left.
module _ (n : ℕ) where
  pub Moving-next : {A : Type 0} {m : Parses A} → Fine n m → Moving (suc n) (advance >> m)
  Moving-next h = Moving-bind n (Moving-advance (suc n)) λ t. h

  pub Fine-if_next :
      {A : Type 0} (k : TokenKind) {m e : Parses A}
      → ends_in (k ∷ []) ≡ false
      → Fine n m
      → Fine (suc n) e
      → Fine (suc n) (if_consume k m e)
  Fine-if_next k c h g = Fine-if_at (suc n) (k ∷ []) c (Moving-next h) g

  pub Eats-if_next :
      {A : Type 0} (k : TokenKind) {m e : Parses A}
      → ends_in (k ∷ []) ≡ false
      → Fine n m
      → Eats (suc n) e
      → Eats (suc n) (if_consume k m e)
  Eats-if_next k c h g = Eats-if_at (suc n) (k ∷ []) c (Moving-next h) g

  -- the same, where what follows reads the token
  pub Eats-if_token :
      {A : Type 0} (ks : List TokenKind) {f : Token → Parses A} {e : Parses A}
      → ends_in ks ≡ false
      → ((t : Token) → Fine n (f t))
      → Eats (suc n) e
      → Eats (suc n) (if_at ks (advance >>= f) e)
  Eats-if_token ks c h g = Eats-if_at (suc n) ks c (Moving-bind n (Moving-advance (suc n)) h) g

  pub Turns-if_next :
      {A B : Type 0} (k : TokenKind) {m e : Parses (Round A B)}
      → ends_in (k ∷ []) ≡ false
      → Fine n m
      → Turns (suc n) e
      → Turns (suc n) (if_consume k m e)
  Turns-if_next k c h g = Turns-if_at (suc n) (k ∷ []) c (Moving-next h) g
