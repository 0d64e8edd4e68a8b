-- ===== src/Parser/Statements.antt =====
-- `parse_block`, `parse_if_statement` and `parse_stmt` of src/parser.cpp. `stmt` stands for
-- `parse_stmt` within a block.
pub mod Total
use uinx.Prelude.{
  ℕ, zero, suc, Bool, true, false, not, ◌&&◌, ◌||◌, List, [], ◌∷◌, ◌++◌, Bytes, codes, str_eq,
  Option, none, some, if◌then◌else◌,
}
use uinx.Token.{TokenKind, Token}
use uinx.Token.Kinds.{token_is}
use uinx.Types.FromAst.{TypeRef}
use uinx.Parser.Monad.{
  Parser, Parses, Round, again, finish, pure, current, ◌>>=◌, ◌>>◌, at, if_at, if_consume, consume,
  advance, expect, unexpected, error_at, skip_newlines, finish_line, begin_suite, in_suite,
  end_suite, left,
}
use uinx.Parser.Syntax
use uinx.Parser.Syntax.{Expr, Stmt, Stmts}
use uinx.Parser.Types.{parse_type}
use uinx.Parser.Expressions.{parse_expr}

unfoldable pub stmts_of : List Stmt → Stmts
stmts_of [] = Syntax.no_stmts
stmts_of (s ∷ ss) = Syntax.next_stmt s (stmts_of ss)

-- the rounds of a block and its end
unfoldable pub block_behind : Parses Stmt → Bool → Parses Stmts
unfolding in_suite end_suite stmts_of
block_behind stmt braces = do
  ss ← in_suite braces (λ ss. do s ← stmt; pure (ss ++ s ∷ [])) []
  end_suite braces
  pure (stmts_of ss)

-- `parse_block`
unfoldable pub parse_block : Parses Stmt → Parses Stmts
unfolding begin_suite block_behind
parse_block stmt = do braces ← begin_suite; block_behind stmt braces

-- `else`, behind it: `elif` or `else if` holds another `if`, which `nested` reads
unfoldable pub else_behind : Parses Stmt → Parses Stmt → Token → Parses Stmts
unfolding parse_block at advance str_eq
else_behind stmt nested word =
    if str_eq word.text (codes "elif")
    then (do s ← nested; pure (Syntax.next_stmt s Syntax.no_stmts))
    else if_consume TokenKind.kw_if (do s ← nested; pure (Syntax.next_stmt s Syntax.no_stmts))
        (parse_block stmt)

unfoldable pub if_from : Parses Stmt → Parses Stmt → Parses Stmt
unfolding parse_expr parse_block else_behind at advance
if_from stmt nested = do
  condition ← parse_expr 0
  then_block ← parse_block stmt
  if_at (TokenKind.kw_else ∷ [])
      (do
        word ← advance
        ss ← else_behind stmt nested word
        pure (Syntax.if_stmt condition then_block (Syntax.else_block ss)))
      (pure (Syntax.if_stmt condition then_block Syntax.no_else))

-- on fuel: another `if` stands behind an `else` that is consumed
unfoldable pub parse_if_on : ℕ → Parses Stmt → Parses Stmt
unfolding if_from
parse_if_on zero stmt s = none
parse_if_on (suc fuel) stmt s = if_from stmt (parse_if_on fuel stmt) s

-- `parse_if_statement`, behind the keyword
unfoldable pub parse_if_statement : Parses Stmt → Parses Stmt
unfolding parse_if_on
parse_if_statement stmt s = parse_if_on (suc (left s)) stmt s

-- `let`, `val` and `var`, behind the keyword
unfoldable pub let_behind : Token → Parses Stmt
unfolding parse_type parse_expr finish_line token_is str_eq at advance unexpected error_at
let_behind keyword = do
  is_mut ←
      if token_is keyword.kind TokenKind.kw_var
      then pure true
      else if str_eq keyword.text (codes "let")
      then consume TokenKind.kw_mut
      else pure false
  name ← expect TokenKind.identifier (codes "binding name")
  type? ← if_consume TokenKind.colon (do t ← parse_type; pure (some t)) (pure none)
  init ←
      if_consume TokenKind.eq (do e ← parse_expr 0; pure (some e))
        (do
          t ← current
          error_at t.range (codes "E0103") (codes "bindings require an initializer")
          pure none)
  finish_line
  pure (Syntax.let_stmt name.text is_mut type? init)

-- `return`, behind the keyword
unfoldable pub return_behind : Parses Stmt
unfolding parse_expr finish_line at
return_behind = do
  value ←
      if_at (TokenKind.newline ∷ TokenKind.semicolon ∷ TokenKind.dedent ∷ TokenKind.r_brace ∷ [])
        (pure none) (do e ← parse_expr 0; pure (some e))
  finish_line
  pure (Syntax.return_stmt value)

-- `while`, behind the keyword
unfoldable pub while_behind : Parses Stmt → Parses Stmt
unfolding parse_expr parse_block
while_behind stmt = do
  condition ← parse_expr 0
  body ← parse_block stmt
  pure (Syntax.while_stmt condition body)

-- `for`, behind the keyword
unfoldable pub for_behind : Parses Stmt → Parses Stmt
unfolding parse_expr parse_block at advance unexpected
for_behind stmt = do
  name ← expect TokenKind.identifier (codes "loop variable")
  expect TokenKind.kw_in (codes "in")
  begin ← parse_expr 0
  inclusive ←
      if_consume TokenKind.dot_dot_eq (pure true)
        (do expect TokenKind.dot_dot (codes "'..' or '..=' in for range"); pure false)
  end' ← parse_expr 0
  body ← parse_block stmt
  pure (Syntax.for_stmt name.text begin end' inclusive body)

-- the memory orders of a fence
abbrev is_order : Bytes → Bool
is_order o =
    str_eq o (codes "acquire")
    || (str_eq o (codes "release") || (str_eq o (codes "acq_rel") || str_eq o (codes "seq_cst")))

-- `fence` and `compiler_fence`, behind the keyword
unfoldable pub fence_behind : Bool → Parses Stmt
unfolding finish_line str_eq at advance unexpected error_at
fence_behind compiler_only = do
  order ← expect TokenKind.identifier (codes "memory order")
  if is_order order.text
      then pure tt
      else error_at order.range (codes "E0115")
          (codes "fence order must be acquire, release, acq_rel, or seq_cst")
  finish_line
  pure (Syntax.fence_stmt order.text compiler_only)

abbrev pub assign_kinds : List TokenKind
assign_kinds =
    TokenKind.eq ∷ TokenKind.plus_eq ∷ TokenKind.minus_eq ∷ TokenKind.star_eq ∷ TokenKind.slash_eq
    ∷ TokenKind.percent_eq ∷ TokenKind.amp_eq ∷ TokenKind.pipe_eq ∷ TokenKind.caret_eq
    ∷ TokenKind.shift_left_eq ∷ TokenKind.shift_right_eq ∷ []

-- an assignment, or an expression that stands alone
unfoldable pub expr_stmt : Parses Stmt
unfolding parse_expr finish_line at advance
expr_stmt = do
  target ← parse_expr 0
  if_at assign_kinds
      (do
        op ← advance
        value ← parse_expr 0
        finish_line
        pure (Syntax.assign_stmt target op.text value))
      (do finish_line; pure (Syntax.expr_stmt target))

abbrev as_block : Parses Stmts → Parses Stmt
as_block m = do ss ← m; pure (Syntax.block_stmt ss)

-- the branches of `parse_stmt` that start with a keyword or a brace
unfoldable pub keyword_stmt : Parses Stmt → Parses Stmt
unfolding let_behind return_behind parse_if_statement while_behind for_behind parse_block
    finish_line fence_behind expr_stmt at advance
keyword_stmt stmt =
    if_at (TokenKind.kw_let ∷ TokenKind.kw_var ∷ []) (do t ← advance; let_behind t)
      (if_consume TokenKind.kw_return return_behind (
        if_consume TokenKind.kw_if (parse_if_statement stmt) (
          if_consume TokenKind.kw_while (while_behind stmt) (
            if_consume TokenKind.kw_for (for_behind stmt) (
              if_consume TokenKind.kw_loop
                (do body ← parse_block stmt; pure (Syntax.loop_stmt body))
                (if_consume TokenKind.kw_break (do finish_line; pure Syntax.break_stmt)
                  (if_consume TokenKind.kw_continue (do finish_line; pure Syntax.continue_stmt)
                    (if_consume TokenKind.kw_fence (fence_behind false) (
                      if_consume TokenKind.kw_compiler_fence (fence_behind true) (
                        if_consume TokenKind.kw_unsafe
                          (do body ← parse_block stmt; pure (Syntax.unsafe_stmt body))
                          (if_at (TokenKind.l_brace ∷ []) (as_block (parse_block stmt)) (
                            if_consume TokenKind.kw_scope (as_block (parse_block stmt)) (
                              if_consume TokenKind.kw_pass
                                (do finish_line; pure (Syntax.block_stmt Syntax.no_stmts))
                                expr_stmt)))))))))))))

-- on fuel: a statement within another stands behind a token that is consumed
unfoldable pub parse_stmt_on : ℕ → Parses Stmt
unfolding keyword_stmt skip_newlines
parse_stmt_on zero s = none
parse_stmt_on (suc fuel) s = (skip_newlines >> keyword_stmt (parse_stmt_on fuel)) s

-- `parse_stmt`
unfoldable pub parse_stmt : Parses Stmt
unfolding parse_stmt_on
parse_stmt s = parse_stmt_on (suc (left s)) s
