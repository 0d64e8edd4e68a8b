-- ===== src/Parser/Expressions/Postfix/Total.antt =====
-- `parse_postfix` of src/parser.cpp ends.
use uinx.Prelude.{
  ℕ, suc, ◌<◌, ◌≡◌, refl, [], ◌∷◌, codes, arith, false, true, Bool-cases, inl, inr, and_left,
}
use uinx.Token.{TokenKind}
use uinx.Token.Kinds.{token_is}
use uinx.Types.FromAst.{TypeRefs, none_left}
use uinx.Parser.Monad.{Parser, Parses, again, left, at}
use uinx.Parser.Monad.Total.{
  Lands-map, Lands-bind, Turn, Lands, Fine, Turns, at-pos, Fine-pure, Fine-bind, Turns-finish,
  Fine-iterate, Fine-expect, Fine-expect_name, IsClosed, ends_in, Turns-if_next, Past-Turn,
}
use uinx.Parser.Types.{parse_type, parse_type_arguments}
use uinx.Parser.Types.Total.{Fine-separated, Fine-parse_type, Moving-arguments}
use uinx.Parser.Syntax.{Expr}
use uinx.Parser.Expressions.Postfix.{
  call_behind, generic_call, plain_postfix, postfix_round, parse_postfix,
}
use uinx.Parser.Expressions.Scan.{generic_call_ahead}

module _ (n : ℕ) (expr : Parses Expr) (h : Fine n expr) where
  Fine-call_behind : (callee : Expr) (args : TypeRefs) → Fine n (call_behind expr callee args)
  unfolding call_behind
  Fine-call_behind callee args =
      Fine-bind n (Fine-separated n TokenKind.r_paren expr h)
        λ es. Fine-bind n (Fine-expect n TokenKind.r_paren (codes "')'")) λ t. Fine-pure n _

  Turns-plain_postfix : (base : Expr) → Turns (suc n) (plain_postfix expr base)
  unfolding plain_postfix token_is
  Turns-plain_postfix base =
      Turns-if_next n TokenKind.l_paren refl
        (Fine-bind n (Fine-call_behind base none_left) λ c. Fine-pure n (again c))
        (Turns-if_next n TokenKind.dot refl
          (Fine-bind n (Fine-expect_name n (codes "member name")) λ t. Fine-pure n _)
          (Turns-if_next n TokenKind.l_bracket refl
            (Fine-bind n h
              λ i. Fine-bind n (Fine-expect n TokenKind.r_bracket (codes "']'")) λ t. Fine-pure n _)
            (Turns-finish (suc n) base)))

  -- A call with type arguments starts at the bracket.
  Moving-generic_call :
      (o c : TokenKind) (base : Expr) (s : Parser)
      → ends_in (o ∷ []) ≡ false
      → at (o ∷ []) s ≡ true
      → IsClosed s
      → left s < suc n
      → Lands (Turn s) (generic_call expr o c base s)
  unfolding generic_call parse_type_arguments
  Moving-generic_call o c base s e there closed lt = Past-Turn (
      Lands-bind
        (Moving-arguments n o c parse_type s there (Fine-parse_type n) closed lt
          (at-pos (o ∷ []) s false e there closed))
        λ args t p.
          Lands-map
            ((Fine-bind n (Fine-expect n TokenKind.l_paren (codes "'('"))
                λ u. Fine-bind n (Fine-call_behind base args) λ call. Fine-pure n (again call)).run
              t p.closed (omega (arith, lt, p.shorter)))
            λ a u q. record { closed = q.closed; shorter = omega (arith, p.shorter, q.short) })

  ahead-at :
      (o c : TokenKind) (base : Expr) (s : Parser)
      → generic_call_ahead o c base s ≡ true
      → at (o ∷ []) s ≡ true
  unfolding generic_call_ahead
  ahead-at o c base s e = and_left (at (o ∷ []) s) _ e

  Turns-postfix_round : (base : Expr) → Turns (suc n) (postfix_round expr base)
  unfolding postfix_round token_is
  Turns-postfix_round base = record {
    run = λ s closed lt.
        elim (Bool-cases (generic_call_ahead TokenKind.less TokenKind.greater base s)) [
          | inl angle ↦ rw angle (
              Moving-generic_call TokenKind.less TokenKind.greater base s refl
                (ahead-at TokenKind.less TokenKind.greater base s angle) closed lt)
          | inr none ↦
              rw none
                (elim (Bool-cases
                  (generic_call_ahead TokenKind.l_bracket TokenKind.r_bracket base s)) [
                    | inl square ↦ rw square (
                        Moving-generic_call TokenKind.l_bracket TokenKind.r_bracket base s refl
                          (ahead-at TokenKind.l_bracket TokenKind.r_bracket base s square) closed
                          lt)
                    | inr plain ↦ rw plain ((Turns-plain_postfix base).run s closed lt)
                  ])
        ];
  }

  pub Fine-parse_postfix : (base : Expr) → Fine (suc n) (parse_postfix expr base)
  unfolding parse_postfix
  Fine-parse_postfix base = Fine-iterate (suc n) base Turns-postfix_round
