-- ===== src/Parser/Expressions/Postfix.antt =====
-- `parse_postfix` of src/parser.cpp.
pub mod Total
use uinx.Prelude.{Bool, true, false, List, [], ◌∷◌, Bytes, codes, if◌then◌else◌}
use uinx.Token.{TokenKind}
use uinx.Types.FromAst.{TypeRefs, none_left}
use uinx.Parser.Monad.{
  Parser, Parses, Round, again, finish, pure, ◌>>=◌, ◌>>◌, at, if_at, if_consume, advance, expect,
  expect_name, unexpected, iterate,
}
use uinx.Parser.Syntax.{Expr, Exprs, no_exprs, next_expr, call_expr, member_expr, index_expr}
use uinx.Parser.Types.{separated, parse_type_arguments}
use uinx.Parser.Expressions.Scan.{generic_call_ahead}

unfoldable pub exprs_of : List Expr → Exprs
exprs_of [] = no_exprs
exprs_of (e ∷ es) = next_expr e (exprs_of es)

-- the arguments of a call, behind the parenthesis
unfoldable pub call_behind : Parses Expr → Expr → TypeRefs → Parses Expr
unfolding separated exprs_of at advance unexpected
call_behind expr callee generic_args = do
  args ← separated TokenKind.r_paren expr
  expect TokenKind.r_paren (codes "')'")
  pure (call_expr callee generic_args (exprs_of args))

unfoldable pub generic_call : Parses Expr → TokenKind → TokenKind → Expr → Parses (Round Expr Expr)
unfolding parse_type_arguments call_behind at advance unexpected
generic_call expr open' close base = do
  generic_args ← parse_type_arguments open' close
  expect TokenKind.l_paren (codes "'('")
  call ← call_behind expr base generic_args
  pure (again call)

unfoldable pub plain_postfix : Parses Expr → Expr → Parses (Round Expr Expr)
unfolding call_behind at advance unexpected
plain_postfix expr base =
    if_consume TokenKind.l_paren (do call ← call_behind expr base none_left; pure (again call))
      (if_consume TokenKind.dot
        (do name ← expect_name (codes "member name"); pure (again (member_expr base name.text)))
        (if_consume TokenKind.l_bracket
          (do
            index ← expr
            expect TokenKind.r_bracket (codes "']'")
            pure (again (index_expr base index)))
          (pure (finish base))))

-- a round of the loop
unfoldable pub postfix_round : Parses Expr → Expr → Parses (Round Expr Expr)
unfolding generic_call plain_postfix generic_call_ahead
postfix_round expr base s =
    if generic_call_ahead TokenKind.less TokenKind.greater base s
    then generic_call expr TokenKind.less TokenKind.greater base s
    else if generic_call_ahead TokenKind.l_bracket TokenKind.r_bracket base s
    then generic_call expr TokenKind.l_bracket TokenKind.r_bracket base s
    else plain_postfix expr base s

-- `parse_postfix`
unfoldable pub parse_postfix : Parses Expr → Expr → Parses Expr
unfolding iterate postfix_round
parse_postfix expr base = iterate (postfix_round expr) base
