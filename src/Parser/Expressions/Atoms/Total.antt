-- ===== src/Parser/Expressions/Atoms/Total.antt =====
-- `parse_prefix` of src/parser.cpp ends, and consumes a token.
use uinx.Prelude.{
  ℕ, suc, ◌&&◌, refl, not, List, [], ◌∷◌, ◌++◌, Bytes, codes, false, true, str_eq, Bool,
}
use uinx.Token.{TokenKind, Token}
use uinx.Token.Kinds.{token_is}
use uinx.Parser.Monad.{Parses, again, at}
use uinx.Parser.Monad.Total.{
  Fine, Eats, fine, Fine-pure, Fine-if, Fine-bind, Turns-finish, Turns-if_both, Turns-bind,
  Fine-iterate, Fine-advance, Fine-expect, Fine-consume, Turns-if_consume, Eats-if_next,
  Eats-if_token, Fine-if_state, Eats-report,
}
use uinx.Parser.Types.Total.{Fine-separated, Fine-parse_type_arguments, Fine-type_arguments}
use uinx.Parser.Syntax
use uinx.Parser.Syntax.{Expr}
use uinx.Parser.Expressions.Atoms.{
  Operand, field_init, new_behind, literal_fields, literal_behind, name_behind, clobber_behind,
  operand_value, asm_operand, asm_part, asm_behind, unary_behind, operator_prefix, parse_prefix,
}
use uinx.Parser.Expressions.Scan.{struct_literal_ahead}

module _ (n : ℕ) (expr : Parses Expr) (h : Fine n expr) where
  Fine-field_init : (sign : TokenKind) (what : Bytes) → Fine n (field_init expr sign what)
  unfolding field_init
  Fine-field_init sign what = search (fine) depth 20 fits 2000

  Fine-new_behind : Fine n (new_behind expr)
  unfolding new_behind
  Fine-new_behind =
      search (fine, Fine-separated, Fine-type_arguments, Fine-field_init) depth 30 fits 4000

  Fine-literal_fields : Fine n (literal_fields expr)
  unfolding literal_fields token_is
  Fine-literal_fields = Fine-iterate n [] λ fs.
      Turns-if_both n (TokenKind.r_brace ∷ TokenKind.end ∷ []) (Turns-finish n fs) (
        Turns-bind n (Fine-field_init TokenKind.colon (codes "':'")) λ f.
          Turns-if_consume n TokenKind.comma refl (Fine-pure n (again (fs ++ f ∷ [])))
            (Turns-finish n (fs ++ f ∷ [])))

  Fine-literal_behind : (name : Bytes) → Fine n (literal_behind expr name)
  unfolding literal_behind
  Fine-literal_behind name =
      search (fine, Fine-parse_type_arguments, Fine-literal_fields) depth 30 fits 4000

  Fine-name_behind : (t : Token) → Fine n (name_behind expr t)
  unfolding name_behind
  Fine-name_behind t =
      Fine-if_state n (λ s. not (token_is t.kind TokenKind.kw_self) && struct_literal_ahead s)
        (Fine-literal_behind t.text) (Fine-pure n (Syntax.name_expr t.text))

  Fine-clobber_behind : Fine n clobber_behind
  unfolding clobber_behind
  Fine-clobber_behind = search (fine) depth 20 fits 2000

  Fine-operand_value : (word : Token) → Fine n (operand_value expr word)
  unfolding operand_value
  Fine-operand_value word = search (Fine-if, fine) depth 20 fits 2000

  Fine-asm_operand : Fine n (asm_operand expr)
  unfolding asm_operand
  Fine-asm_operand =
      search (Fine-if, fine, Fine-clobber_behind, Fine-operand_value) depth 30 fits 4000

  Fine-asm_part : (p : List Operand × Bool) → Fine n (asm_part expr p)
  unfolding asm_part
  Fine-asm_part (os, v) =
      Fine-if_state n
        (λ s. at (TokenKind.identifier ∷ []) s && str_eq s.now.text (codes "volatile"))
        (Fine-bind n (Fine-advance n) λ t. Fine-pure n (again (os, true)))
        (Fine-bind n Fine-asm_operand λ o. Fine-pure n (again (os ++ o ∷ [], v)))

  Fine-asm_behind : Fine n (asm_behind expr)
  unfolding asm_behind token_is
  Fine-asm_behind = Fine-bind n (Fine-expect n TokenKind.l_paren (codes "'('")) λ a.
      Fine-bind n (Fine-expect n TokenKind.string (codes "assembly template")) λ text.
        Fine-bind n
          (Fine-iterate n ([], false)
            λ p. Turns-if_consume n TokenKind.comma refl (Fine-asm_part p) (Turns-finish n p))
          λ parts. Fine-bind n (Fine-expect n TokenKind.r_paren (codes "')'")) λ b. Fine-pure n _

module _ (n : ℕ) (operand : Parses Expr) (h : Fine n operand) where
  Fine-unary_behind : (op : Bytes) → Fine n (unary_behind operand op)
  unfolding unary_behind
  Fine-unary_behind op = Fine-bind n h λ value. Fine-pure n _

  Eats-operator_prefix : Eats (suc n) (operator_prefix operand)
  unfolding operator_prefix token_is
  Eats-operator_prefix =
      Eats-if_next n TokenKind.kw_borrow refl
        (Fine-bind n (Fine-consume n TokenKind.kw_mut) λ m. Fine-bind n h λ t. Fine-pure n _)
        (Eats-if_next n TokenKind.amp refl (Fine-bind n h λ t. Fine-pure n _) (
          Eats-if_next n TokenKind.amp_mut refl (Fine-bind n h λ t. Fine-pure n _) (
            Eats-if_next n TokenKind.kw_await refl (Fine-bind n h λ t. Fine-pure n _) (
              Eats-if_next n TokenKind.kw_move refl (Fine-unary_behind (codes "move")) (
                Eats-if_next n TokenKind.kw_deref refl (Fine-unary_behind (codes "*")) (
                  Eats-if_token n
                    (TokenKind.minus ∷ TokenKind.bang ∷ TokenKind.tilde ∷ TokenKind.star ∷ []) refl
                    (λ op. Fine-unary_behind op.text)
                    (Eats-report (suc n) (codes "E0105") (codes "expected expression")
                      (Syntax.integer_expr (codes "0")))))))))

pub Eats-parse_prefix :
    (n : ℕ) (operand expr : Parses Expr)
    → Fine n operand
    → Fine n expr
    → Eats (suc n) (parse_prefix operand expr)
unfolding parse_prefix token_is
Eats-parse_prefix n operand expr ho he =
    Eats-if_token n (TokenKind.integer ∷ []) refl (λ t. Fine-pure n _)
      (Eats-if_token n (TokenKind.float ∷ []) refl (λ t. Fine-pure n _)
        (Eats-if_token n (TokenKind.string ∷ []) refl (λ t. Fine-pure n _)
          (Eats-if_token n (TokenKind.char ∷ []) refl (λ t. Fine-pure n _)
            (Eats-if_next n TokenKind.kw_true refl (Fine-pure n _) (
              Eats-if_next n TokenKind.kw_false refl (Fine-pure n _) (
                Eats-if_next n TokenKind.kw_new refl (Fine-new_behind n expr he) (
                  Eats-if_token n (TokenKind.identifier ∷ TokenKind.kw_self ∷ TokenKind.kw_ptr ∷ [])
                    refl (Fine-name_behind n expr he)
                    (Eats-if_next n TokenKind.kw_asm refl (Fine-asm_behind n expr he) (
                      Eats-if_next n TokenKind.l_paren refl
                        (Fine-bind n he λ e.
                          Fine-bind n (Fine-expect n TokenKind.r_paren (codes "')'"))
                            λ t. Fine-pure n e)
                        (Eats-operator_prefix n operand ho))))))))))
