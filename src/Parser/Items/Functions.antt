-- ===== src/Parser/Items/Functions.antt =====
-- `parse_function` of src/parser.cpp.
use uinx.Prelude.{Bool, ◌||◌, [], ◌∷◌, Bytes, codes, str_eq, Option, none, some, if◌then◌else◌}
use uinx.Token.{TokenKind}
use uinx.Parser.Monad.{
  Parses, pure, ◌>>=◌, ◌>>◌, at, if_at, if_consume, advance, expect, unexpected, finish_line,
}
use uinx.Parser.Syntax.{FunctionDecl, Stmts}
use uinx.Parser.Types.{parse_type}
use uinx.Parser.Statements.{parse_block, parse_stmt}
use uinx.Parser.Items.Generics.{parse_generics, parse_where_clause, params_behind, type_named}

-- the arguments of `parse_function`
pub record Flags : Type 0 where
  pub is_pub : Bool
  pub is_unsafe : Bool
  pub is_async : Bool
  pub is_extern : Bool
  pub is_concurrent : Bool
  pub abi : Bytes

-- the body, or the end of a declaration without one
unfoldable pub function_body : Bool → Parses (Option Stmts)
unfolding finish_line parse_block parse_stmt at
function_body may_lack =
    let body : Parses (Option Stmts) = (do b ← parse_block parse_stmt; pure (some b)) in
    if may_lack
    then if_at (TokenKind.newline ∷ TokenKind.semicolon ∷ TokenKind.end ∷ [])
        (do finish_line; pure none) body
    else body

-- `parse_function`
unfoldable pub parse_function : Flags → Parses FunctionDecl
unfolding parse_generics params_behind parse_type parse_where_clause function_body str_eq at advance
    unexpected
parse_function flags = do
  keyword ← expect TokenKind.kw_fn (codes "func")
  name ← expect TokenKind.identifier (codes "function name")
  generics ← parse_generics
  expect TokenKind.l_paren (codes "'('")
  params ← params_behind
  return_type ← if_consume TokenKind.arrow parse_type (pure (type_named (codes "unit")))
  bounded ← parse_where_clause generics
  body ← function_body (flags.is_extern || str_eq keyword.text (codes "def"))
  pure (record {
    name = name.text;
    generics = bounded;
    params = params;
    return_type = return_type;
    body = body;
    is_pub = flags.is_pub;
    is_unsafe = flags.is_unsafe;
    is_async = flags.is_async;
    is_extern = flags.is_extern;
    is_concurrent = flags.is_concurrent;
    abi = flags.abi;
  })
