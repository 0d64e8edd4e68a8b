-- ===== src/Parser/Expressions/Atoms.antt =====
-- `parse_prefix`, `parse_new` and `parse_asm` of src/parser.cpp.
pub mod Total
use uinx.Prelude.{
  none, Option, some, ◌||◌, not, Bool, true, false, ◌&&◌, List, [], ◌∷◌, ◌++◌, Bytes, codes, str_eq,
  if◌then◌else◌,
}
use uinx.Mir.{AsmKind}
use uinx.Token.{TokenKind, Token}
use uinx.Token.Kinds.{token_is}
use uinx.Types.FromAst.{TypeRefs, none_left}
use uinx.Parser.Monad.{
  Parser, Parses, Round, again, finish, pure, current, ◌>>=◌, ◌>>◌, at, if_at, if_consume, consume,
  advance, expect, expect_name, unexpected, error_at, iterate,
}
use uinx.Parser.Syntax
use uinx.Parser.Syntax.{Expr, FieldInits, AsmOperands, AsmValue}
use uinx.Parser.Types.{separated, optional_arguments, parse_type, parse_type_arguments}
use uinx.Parser.Expressions.Scan.{struct_literal_ahead}

unfoldable pub fields_of : List (Bytes × Expr) → FieldInits
fields_of [] = Syntax.no_fields
fields_of ((n, e) ∷ fs) = Syntax.next_field n e (fields_of fs)

-- one field of a struct literal, with `=` or `:` behind its name
unfoldable pub field_init : Parses Expr → TokenKind → Bytes → Parses (Bytes × Expr)
unfolding at advance unexpected
field_init expr sign what = do
  name ← expect_name (codes "field name")
  expect sign what
  value ← expr
  pure (name.text, value)

-- `parse_new`, behind the keyword
unfoldable pub new_behind : Parses Expr → Parses Expr
unfolding field_init separated optional_arguments parse_type fields_of at advance unexpected
new_behind expr = do
  name ← expect TokenKind.identifier (codes "type name after 'new'")
  generic_args ← optional_arguments parse_type
  expect TokenKind.l_paren (codes "'(' after struct type")
  fields ← separated TokenKind.r_paren (field_init expr TokenKind.eq (codes "'=' after field name"))
  expect TokenKind.r_paren (codes "')'")
  pure (Syntax.struct_literal_expr name.text generic_args (fields_of fields))

-- the fields of a struct literal in braces
unfoldable pub literal_fields : Parses Expr → Parses (List (Bytes × Expr))
unfolding iterate field_init at advance
literal_fields expr =
    iterate
      (λ fs. if_at (TokenKind.r_brace ∷ TokenKind.end ∷ []) (pure (finish fs)) (do
        f ← field_init expr TokenKind.colon (codes "':'")
        if_consume TokenKind.comma (pure (again (fs ++ f ∷ []))) (pure (finish (fs ++ f ∷ [])))))
      []

-- a struct literal, behind its name
unfoldable pub literal_behind : Parses Expr → Bytes → Parses Expr
unfolding literal_fields parse_type_arguments fields_of at advance unexpected
literal_behind expr name = do
  generic_args ←
      if_at (TokenKind.less ∷ []) (parse_type_arguments TokenKind.less TokenKind.greater)
        (pure none_left)
  expect TokenKind.l_brace (codes "'{'")
  fields ← literal_fields expr
  expect TokenKind.r_brace (codes "'}'")
  pure (Syntax.struct_literal_expr name generic_args (fields_of fields))

-- a name, or a struct literal that starts with it; `self` starts none
unfoldable pub name_behind : Parses Expr → Token → Parses Expr
unfolding literal_behind struct_literal_ahead token_is
name_behind expr name s =
    if not (token_is name.kind TokenKind.kw_self) && struct_literal_ahead s
    then literal_behind expr name.text s
    else pure (Syntax.name_expr name.text) s

unfoldable pub operands_of : List (Option AsmKind × Bytes × AsmValue × Bytes) → AsmOperands
operands_of [] = Syntax.no_operands
operands_of ((k, c, v, o) ∷ os) = Syntax.next_operand k c v o (operands_of os)

abbrev pub Operand : Type 0
Operand = Option AsmKind × Bytes × AsmValue × Bytes

-- `clobber` and its register, behind the word
unfoldable pub clobber_behind : Parses Operand
unfolding at advance unexpected
clobber_behind = do
  expect TokenKind.l_paren (codes "'('")
  constraint ← expect TokenKind.string (codes "clobber name")
  expect TokenKind.r_paren (codes "')'")
  pure (some AsmKind.asm_clobber, constraint.text, Syntax.no_value, [])

-- the kind that a word sets; an unknown one leaves it unset
abbrev operand_kind : Bytes → Option AsmKind
operand_kind word =
    if str_eq word (codes "in")
    then some AsmKind.asm_in
    else if str_eq word (codes "out")
    then some AsmKind.asm_out
    else if str_eq word (codes "inout")
    then some AsmKind.asm_inout
    else none

-- what stands behind the comma of an operand, with an error at an unknown word
unfoldable pub operand_value : Parses Expr → Token → Parses (AsmValue × Bytes)
unfolding str_eq at advance unexpected error_at
operand_value expr word =
    if str_eq word.text (codes "in")
    then (do value ← expr; pure (Syntax.value_of value, []))
    else if str_eq word.text (codes "out") || str_eq word.text (codes "inout")
    then (do
      name ← expect TokenKind.identifier (codes "output variable")
      pure (Syntax.no_value, name.text))
    else (do
      error_at word.range (codes "E0110") (codes "asm operand must be in, out, inout, or clobber")
      pure (Syntax.no_value, []))

unfoldable pub asm_operand : Parses Expr → Parses Operand
unfolding str_eq clobber_behind operand_value at advance unexpected
asm_operand expr = do
  word ←
      if_at (TokenKind.kw_in ∷ []) advance (expect TokenKind.identifier (codes "asm operand kind"))
  if str_eq word.text (codes "clobber") then clobber_behind else (do
    expect TokenKind.l_paren (codes "'('")
    constraint ← expect TokenKind.string (codes "register constraint")
    expect TokenKind.comma (codes "','")
    value ← operand_value expr word
    expect TokenKind.r_paren (codes "')'")
    pure (operand_kind word.text, constraint.text, value.0, value.1))

-- `volatile`, or an operand
unfoldable pub asm_part :
    Parses Expr → List Operand × Bool → Parses (Round (List Operand × Bool) (List Operand × Bool))
unfolding asm_operand at str_eq advance
asm_part expr (os, is_volatile) s =
    if at (TokenKind.identifier ∷ []) s && str_eq s.now.text (codes "volatile")
    then (advance >> pure (again (os, true))) s
    else (do o ← asm_operand expr; pure (again (os ++ o ∷ [], is_volatile))) s

-- `parse_asm`, behind the keyword
unfoldable pub asm_behind : Parses Expr → Parses Expr
unfolding iterate asm_part operands_of at advance unexpected
asm_behind expr = do
  expect TokenKind.l_paren (codes "'('")
  text ← expect TokenKind.string (codes "assembly template")
  parts ← iterate (λ p. if_consume TokenKind.comma (asm_part expr p) (pure (finish p))) ([], false)
  expect TokenKind.r_paren (codes "')'")
  pure (Syntax.asm_expr text.text (operands_of parts.0) parts.1)

-- a unary operator, behind it
unfoldable pub unary_behind : Parses Expr → Bytes → Parses Expr
unary_behind operand op = do value ← operand; pure (Syntax.unary_expr op value)

-- the branches of `parse_prefix` that start with an operator or a keyword
unfoldable pub operator_prefix : Parses Expr → Parses Expr
unfolding at advance unary_behind error_at
operator_prefix operand =
    if_consume TokenKind.kw_borrow
      (do
        is_mut ← consume TokenKind.kw_mut
        target ← operand
        pure (Syntax.borrow_expr target is_mut))
      (if_consume TokenKind.amp (do target ← operand; pure (Syntax.borrow_expr target false))
        (if_consume TokenKind.amp_mut (do target ← operand; pure (Syntax.borrow_expr target true))
          (if_consume TokenKind.kw_await (do value ← operand; pure (Syntax.await_expr value))
            (if_consume TokenKind.kw_move (unary_behind operand (codes "move")) (
              if_consume TokenKind.kw_deref (unary_behind operand (codes "*")) (
                if_at (TokenKind.minus ∷ TokenKind.bang ∷ TokenKind.tilde ∷ TokenKind.star ∷ [])
                  (do op ← advance; unary_behind operand op.text)
                  (do
                    t ← current
                    error_at t.range (codes "E0105") (codes "expected expression")
                    advance
                    pure (Syntax.integer_expr (codes "0")))))))))

-- `parse_prefix`
unfoldable pub parse_prefix : Parses Expr → Parses Expr → Parses Expr
unfolding operator_prefix name_behind new_behind asm_behind at advance unexpected
parse_prefix operand expr =
    if_at (TokenKind.integer ∷ []) (do t ← advance; pure (Syntax.integer_expr t.text))
      (if_at (TokenKind.float ∷ []) (do t ← advance; pure (Syntax.float_expr t.text))
        (if_at (TokenKind.string ∷ []) (do t ← advance; pure (Syntax.string_expr t.text))
          (if_at (TokenKind.char ∷ []) (do t ← advance; pure (Syntax.char_expr t.text))
            (if_consume TokenKind.kw_true (pure (Syntax.bool_expr true)) (
              if_consume TokenKind.kw_false (pure (Syntax.bool_expr false)) (
                if_consume TokenKind.kw_new (new_behind expr) (
                  if_at (TokenKind.identifier ∷ TokenKind.kw_self ∷ TokenKind.kw_ptr ∷ [])
                    (do t ← advance; name_behind expr t)
                    (if_consume TokenKind.kw_asm (asm_behind expr) (
                      if_consume TokenKind.l_paren
                        (do e ← expr; expect TokenKind.r_paren (codes "')'"); pure e)
                        (operator_prefix operand))))))))))
