-- ===== src/Parser/Expressions.antt =====
-- `parse_expr`, `parse_prefix`, `parse_postfix`, `parse_new`, `parse_asm` and `precedence` of
-- src/parser.cpp. The members that call each other take the others as arguments: `expr` stands for
-- `parse_expr()` and `operand` for `parse_postfix(parse_prefix())`.
pub mod Scan
pub mod Atoms
pub mod Postfix
pub mod Total
use uinx.Prelude.{
  ℕ, zero, suc, ◌+◌, Bool, true, false, Option, none, some, ltb, if◌then◌else◌, Bytes,
}
use uinx.Token.{TokenKind, Token}
use uinx.Parser.Monad.{
  Parser, Parses, Round, again, finish, pure, ◌>>=◌, ◌>>◌, at, if_at, if_consume, advance, iterate,
  left,
}
use uinx.Parser.Syntax.{Expr, binary_expr, cast_expr}
use uinx.Parser.Types.{parse_type}
use uinx.Parser.Expressions.Atoms.{parse_prefix}
use uinx.Parser.Expressions.Postfix.{parse_postfix}

-- `precedence`, with nothing for -1
unfoldable pub precedence : TokenKind → Option ℕ
precedence TokenKind.or_or = some 1
precedence TokenKind.and_and = some 2
precedence TokenKind.pipe = some 3
precedence TokenKind.caret = some 4
precedence TokenKind.amp = some 5
precedence TokenKind.eq_eq = some 6
precedence TokenKind.bang_eq = some 6
precedence TokenKind.less = some 7
precedence TokenKind.less_eq = some 7
precedence TokenKind.greater = some 7
precedence TokenKind.greater_eq = some 7
precedence TokenKind.shift_left = some 8
precedence TokenKind.shift_right = some 8
precedence TokenKind.plus = some 9
precedence TokenKind.minus = some 9
precedence TokenKind.star = some 10
precedence TokenKind.slash = some 10
precedence TokenKind.percent = some 10
precedence _ = none

abbrev pub not_below : ℕ → Option ℕ → Option ℕ
not_below min none = none
not_below min (some p) = if ltb p min then none else some p

-- the precedence of an operator that the loop takes at `min_precedence`
unfoldable pub taken_at : ℕ → TokenKind → Option ℕ
unfolding precedence
taken_at min k = not_below min (precedence k)

-- a round of the loop over operators; `expr_at` is `parse_expr`
abbrev pub binary_round_at : (ℕ → Parses Expr) → Expr → Option ℕ → Parses (Round Expr Expr)
binary_round_at expr_at lhs none = pure (finish lhs)
binary_round_at expr_at lhs (some p) = do
  op ← advance
  rhs ← expr_at (p + 1)
  pure (again (binary_expr op.text lhs rhs))

unfoldable pub binary_round : (ℕ → Parses Expr) → ℕ → Expr → Parses (Round Expr Expr)
unfolding advance taken_at
binary_round expr_at min lhs s = binary_round_at expr_at lhs (taken_at min s.now.kind) s

-- `as` and a type behind an expression
unfoldable pub optional_cast : Expr → Parses Expr
unfolding at advance parse_type
optional_cast value =
    if_consume TokenKind.kw_as (do t ← parse_type; pure (cast_expr value t)) (pure value)

unfoldable pub expr_from : Parses Expr → (ℕ → Parses Expr) → ℕ → Parses Expr
unfolding iterate binary_round optional_cast
expr_from operand expr_at min = do
  first ← operand
  lhs ← iterate (binary_round expr_at min) first
  optional_cast lhs

unfoldable pub operand_from : Parses Expr → Parses Expr → Parses Expr
unfolding parse_prefix parse_postfix
operand_from operand expr = do base ← parse_prefix operand expr; parse_postfix expr base

-- On fuel: an expression within another stands behind a token that is consumed.
unfoldable mutual
  unfolding expr_from operand_from

  pub parse_expr_on : ℕ → ℕ → Parses Expr
  parse_expr_on zero min s = none
  parse_expr_on (suc fuel) min s = expr_from (operand_on fuel) (parse_expr_on fuel) min s

  pub operand_on : ℕ → Parses Expr
  operand_on zero s = none
  operand_on (suc fuel) s = operand_from (operand_on fuel) (parse_expr_on fuel 0) s

-- `parse_expr`: twice the tokens that are left, and two more, are enough
unfoldable pub parse_expr : ℕ → Parses Expr
unfolding parse_expr_on
parse_expr min s = parse_expr_on (2 + (left s + left s)) min s
