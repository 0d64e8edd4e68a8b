-- ===== src/Parser/Expressions/Total.antt =====
-- `parse_expr` of src/parser.cpp ends, and consumes a token.
use uinx.Prelude.{
  ℕ, zero, suc, ◌+◌, ◌<◌, ◌≤◌, ◌≡◌, List, [], ◌∷◌, arith, some, Option-cases, inl, inr, length,
}
use uinx.Token.{TokenKind, Token}
use uinx.Parser.Monad.{Parser, Parses, again, left}
use uinx.Parser.Monad.Total.{
  Fine, Turns, Eats, Fine-pure, Fine-bind, Moving-bind, Eats-bind, Turns-finish, Fine-iterate,
  Moving-advance, Fine-if_consume, ClosedBy, IsClosed, Past-Turn, Eats-zero, Onward, Eats-Onward,
}
use uinx.Parser.Types.Total.{Fine-parse_type}
use uinx.Parser.Syntax
use uinx.Parser.Syntax.{Expr}
use uinx.Parser.Expressions.{
  taken_at, binary_round, optional_cast, expr_from, operand_from, parse_expr_on, operand_on,
  parse_expr,
}
use uinx.Parser.Expressions.Atoms.Total.{Eats-parse_prefix}
use uinx.Parser.Expressions.Postfix.Total.{Fine-parse_postfix}

-- `End` is no operator.
taken-pos :
    (min p : ℕ) (t : Token) (ts : List Token)
    → ClosedBy t ts
    → taken_at min t.kind ≡ some p
    → 0 < length ts
unfolding taken_at
taken-pos min p t [] c e = absurd (no_operator (rw c at e))
  where
    no_operator : ¬ (taken_at min TokenKind.end ≡ some p)
    no_operator e = cc
taken-pos min p t (u ∷ us) c e = omega arith

Fine-optional_cast : (n : ℕ) (value : Expr) → Fine n (optional_cast value)
unfolding optional_cast
Fine-optional_cast n value =
    Fine-if_consume n TokenKind.kw_as (Fine-bind n (Fine-parse_type n) λ t. Fine-pure n _)
      (Fine-pure n value)

module _ (n : ℕ) where
  Turns-binary_round :
      (expr_at : ℕ → Parses Expr) (min : ℕ) (lhs : Expr)
      → ((p : ℕ) → Fine n (expr_at p))
      → Turns (suc n) (binary_round expr_at min lhs)
  unfolding binary_round
  Turns-binary_round expr_at min lhs h = record {
    run = λ s c lt. elim (Option-cases (taken_at min s.now.kind)) [
      | inl stop ↦ rw stop ((Turns-finish (suc n) lhs).run s c lt)
      | inr (p, e) ↦ rw e (
          Past-Turn (
            (Moving-bind n (Moving-advance (suc n)) λ op.
                Fine-bind n (h (p + 1))
                  λ rhs. Fine-pure n (again (Syntax.binary_expr op.text lhs rhs))).run
              s c lt (taken-pos min p s.now s.behind c e)))
    ];
  }

  Eats-expr_from :
      (operand : Parses Expr) (expr_at : ℕ → Parses Expr) (min : ℕ)
      → Eats (suc n) operand
      → ((p : ℕ) → Fine n (expr_at p))
      → Eats (suc n) (expr_from operand expr_at min)
  unfolding expr_from
  Eats-expr_from operand expr_at min ho he = Eats-bind (suc n) ho λ first.
      Fine-bind (suc n) (Fine-iterate (suc n) first λ lhs. Turns-binary_round expr_at min lhs he)
        (Fine-optional_cast (suc n))

  Eats-operand_from :
      (operand expr : Parses Expr)
      → Fine n operand
      → Fine n expr
      → Eats (suc n) (operand_from operand expr)
  unfolding operand_from
  Eats-operand_from operand expr ho he =
      Eats-bind (suc n) (Eats-parse_prefix n operand expr ho he) (Fine-parse_postfix n expr he)

mutual
  unfolding parse_expr_on

  Eats-parse_expr_on : (fuel n min : ℕ) → n + n ≤ fuel → Eats n (parse_expr_on fuel min)
  Eats-parse_expr_on fuel zero min h = Eats-zero
  Eats-parse_expr_on zero (suc n) min h = absurd (omega (arith, h))
  Eats-parse_expr_on (suc fuel) (suc n) min h =
      Eats-expr_from n (operand_on fuel) (parse_expr_on fuel) min
        (Eats-operand_on fuel (suc n) (omega (arith, h)))
        (λ p. (Eats-parse_expr_on fuel n p (omega (arith, h))).fine)

  Eats-operand_on : (fuel n : ℕ) → n + n ≤ suc fuel → Eats n (operand_on fuel)
  Eats-operand_on fuel zero h = Eats-zero
  Eats-operand_on zero (suc n) h = absurd (omega (arith, h))
  Eats-operand_on (suc fuel) (suc n) h =
      Eats-operand_from n (operand_on fuel) (parse_expr_on fuel 0)
        (Eats-operand_on fuel n (omega (arith, h))).fine
        (Eats-parse_expr_on fuel n 0 (omega (arith, h))).fine

pub Eats-parse_expr : (n min : ℕ) → Eats n (parse_expr min)
unfolding parse_expr
Eats-parse_expr n min = record {
  fine = record {
    run = λ s c lt.
        (Eats-parse_expr_on (2 + (left s + left s)) (suc (left s)) min (omega arith)).fine.run s c
          (omega arith);
  };
  moving = record {
    run = λ s c lt.
        (Eats-parse_expr_on (2 + (left s + left s)) (suc (left s)) min (omega arith)).moving.run s c
          (omega arith);
  };
}

-- On tokens that end in `End`, `parse_expr` returns an expression, whatever the tokens are and at
-- every precedence, and it consumes a token unless it stands at the last one.
pub parse_expr-Onward :
    (min : ℕ) (s : Parser)
    → IsClosed s
    → (e : Expr) × (s' : Parser) × (parse_expr min s ≡ some (e, s')) × Onward s s'
parse_expr-Onward min s c = Eats-Onward (parse_expr min) s (Eats-parse_expr (suc (left s)) min) c
