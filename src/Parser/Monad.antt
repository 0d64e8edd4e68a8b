-- ===== src/Parser/Monad.antt =====
-- The members of Parser that handle tokens, of src/parser.cpp. What is before `pos_` is never read
-- again, so the state holds the token at `pos_` and those behind it. The last token is `End`, which
-- nothing consumes.
pub mod Total
pub mod Yields
use uinx.Prelude.{
  ℕ, zero, suc, ◌+◌, Bool, true, false, ◌||◌, List, [], ◌∷◌, ◌++◌, Bytes, codes, Option, none, some,
  any_of, length, if◌then◌else◌,
}
use uinx.Diagnostic.{SourceRange, Diagnostics, report_error}
use uinx.Token.{TokenKind, Token}
use uinx.Token.Kinds.{token_is}
use uinx.Token.Names.{token_name}

pub record Parser : Type 0 where
  pub now : Token
  pub behind : List Token
  pub diags : Diagnostics

-- What a member does: its result and the state behind it; nothing means that a loop does not end.
abbrev pub Parses : Type 0 → Type 0
Parses A = Parser → Option (A × Parser)

abbrev pub pure : {A : Type 0} → A → Parses A
pure a s = some (a, s)

abbrev pub then_run : {A B : Type 0} → Option (A × Parser) → (A → Parses B) → Option (B × Parser)
then_run none f = none
then_run (some (a, s)) f = f a s

infixl 1 ◌>>=◌ ◌>>◌
abbrev pub ◌>>=◌ : {A B : Type 0} → Parses A → (A → Parses B) → Parses B
m >>= f = λ s. then_run (m s) f

abbrev pub ◌>>◌ : {A B : Type 0} → Parses A → Parses B → Parses B
m >> k = m >>= λ _. k

-- the tokens behind the position: how far the parser can move
abbrev pub left : Parser → ℕ
left s = length s.behind

-- `peek(n)`, which stops at the last token
unfoldable pub peek_from : Token → List Token → ℕ → Token
peek_from t ts zero = t
peek_from t [] (suc n) = t
peek_from t (u ∷ us) (suc n) = peek_from u us n

-- `peek()`
abbrev pub current : Parses Token
current s = some (s.now, s)

-- `at(k)` for one of the kinds
unfoldable pub at : List TokenKind → Parser → Bool
unfolding token_is
at ks s = any_of (token_is s.now.kind) ks

abbrev pub if_at : {A : Type 0} → List TokenKind → Parses A → Parses A → Parses A
if_at ks m n s = if at ks s then m s else n s

abbrev stepped : Token → List Token → Diagnostics → Parser
stepped t [] ds = record { now = t; behind = []; diags = ds }
stepped t (u ∷ us) ds = record { now = u; behind = us; diags = ds }

-- `advance`
unfoldable pub advance : Parses Token
advance s = some (s.now, stepped s.now s.behind s.diags)

-- `if (consume(k)) ... else ...`
abbrev pub if_consume : {A : Type 0} → TokenKind → Parses A → Parses A → Parses A
if_consume k m n = if_at (k ∷ []) (advance >> m) n

-- `consume`
abbrev pub consume : TokenKind → Parses Bool
consume k = if_consume k (pure true) (pure false)

-- `diags_.error`
unfoldable pub error_at : SourceRange → Bytes → Bytes → Parses (Unit {0})
unfolding report_error
error_at r code message s = some (tt, record s { diags = report_error s.diags r code message })

-- the error of `expect`, at the token that is there instead
unfoldable pub unexpected : Bytes → Parses Token
unfolding error_at token_name
unexpected what = do
  t ← current
  error_at t.range (codes "E0100")
      (codes "expected " ++ (what ++ (codes ", found " ++ token_name t.kind)))
  pure t

-- `expect`
abbrev pub expect : TokenKind → Bytes → Parses Token
expect k what = if_at (k ∷ []) advance (unexpected what)

-- `expect_name`
abbrev pub expect_name : Bytes → Parses Token
expect_name what = if_at (TokenKind.identifier ∷ TokenKind.kw_ptr ∷ []) advance (unexpected what)

-- A round of a loop goes on, or it is the last.
pub data Round (A B : Type 0) : Type 0 where
  again : A → Round A B
  finish : B → Round A B

abbrev pub next_round :
    {A B : Type 0} → (A → Parses B) → Option (Round A B × Parser) → Option (B × Parser)
next_round k none = none
next_round k (some (again a, s)) = k a s
next_round k (some (finish b, s)) = some (b, s)

-- a loop on fuel
unfoldable pub iterate_on : {A B : Type 0} → ℕ → (A → Parses (Round A B)) → A → Parses B
iterate_on zero body a s = none
iterate_on (suc fuel) body a s = next_round (iterate_on fuel body) (body a s)

-- A loop with a round for each token that is left, and one more. A round that moves to no other
-- token would be followed by the same round without end.
unfoldable pub iterate : {A B : Type 0} → (A → Parses (Round A B)) → A → Parses B
unfolding iterate_on
iterate body a s = iterate_on (suc (left s)) body a s

-- `skip_newlines`
unfoldable pub skip_newlines : Parses (Unit {0})
unfolding iterate advance
skip_newlines = iterate (λ _. if_consume TokenKind.newline (pure (again tt)) (pure (finish tt))) tt

-- `finish_line`
unfoldable pub finish_line : Parses (Unit {0})
unfolding skip_newlines at advance error_at
finish_line = if_consume TokenKind.semicolon skip_newlines (
    if_consume TokenKind.newline skip_newlines (
      if_at (TokenKind.dedent ∷ TokenKind.r_brace ∷ TokenKind.end ∷ []) (pure tt)
        (do t ← current; error_at t.range (codes "E0111") (codes "expected end of line"))))

-- `synchronize_item`
unfoldable pub synchronize_item : Parses (Unit {0})
unfolding iterate at advance
synchronize_item =
    iterate
      (λ _. if_at (TokenKind.end ∷ []) (pure (finish tt)) (
        if_consume TokenKind.newline (pure (finish tt)) (
          if_consume TokenKind.semicolon (pure (finish tt)) (
            if_at
              (TokenKind.dedent ∷ TokenKind.kw_fn ∷ TokenKind.kw_struct ∷ TokenKind.kw_trait
                ∷ TokenKind.kw_impl ∷ TokenKind.kw_pub ∷ TokenKind.kw_need ∷ TokenKind.kw_dont_need
                ∷ [])
              (pure (finish tt)) (advance >> pure (again tt))))))
      tt

-- `begin_suite`: whether the suite stands in braces
unfoldable pub begin_suite : Parses Bool
unfolding at advance unexpected skip_newlines
begin_suite = if_consume TokenKind.l_brace (pure true) (do
  expect TokenKind.colon (codes "':' before an indented block")
  expect TokenKind.newline (codes "a newline after ':'")
  skip_newlines
  expect TokenKind.indent (codes "an indented block")
  skip_newlines
  pure false)

-- the kinds at which `suite_done` holds, behind newlines
abbrev pub suite_ends : Bool → List TokenKind
suite_ends braces =
    if braces then TokenKind.r_brace ∷ TokenKind.end ∷ [] else TokenKind.dedent ∷ TokenKind.end ∷ []

-- a round of `while (!suite_done(suite))`, with what has been read
unfoldable pub suite_round : {A : Type 0} → Bool → (A → Parses A) → A → Parses (Round A A)
unfolding at skip_newlines
suite_round braces body a = do
  skip_newlines
  if_at (suite_ends braces) (pure (finish a)) (do b ← body a; pure (again b))

unfoldable pub in_suite : {A : Type 0} → Bool → (A → Parses A) → A → Parses A
unfolding iterate suite_round
in_suite braces body a = iterate (suite_round braces body) a

-- `end_suite`
unfoldable pub end_suite : Bool → Parses (Unit {0})
unfolding at advance unexpected skip_newlines
end_suite braces =
    (if braces
      then expect TokenKind.r_brace (codes "'}'")
      else expect TokenKind.dedent (codes "end of indented block"))
    >> skip_newlines
