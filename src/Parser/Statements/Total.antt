-- ===== src/Parser/Statements/Total.antt =====
-- `parse_stmt` and `parse_block` of src/parser.cpp end.
use uinx.Prelude.{
  ℕ, zero, suc, ◌<◌, ◌≤◌, ◌≡◌, refl, [], ◌∷◌, ◌++◌, arith, false, true, Bool, some, Bool-cases, inl,
  inr, codes, str_eq,
}
use uinx.Token.{TokenKind, Token}
use uinx.Token.Kinds.{token_is}
use uinx.Parser.Monad.{Parser, Parses, at, if_at, left, begin_suite}
use uinx.Parser.Monad.Total.{
  Lands, Behind, Past, Fine, Moving, Eats, fine, at-pos, Past-Behind, Fine-pure, Fine-if_both,
  Fine-if, Fine-if_at, Fine-zero, Fine-bind, Moving-bind, Moving-then, Eats-bind, Moving-advance,
  Fine-advance, Fine-if_consume, Fine-skip_newlines, Fine-finish_line, Fine-begin_suite,
  Fine-end_suite, Fine-in_suite, IsClosed, Eats-if_next, Eats-if_token, Onward, Eats-Onward,
  Moving-le, Eats-zero, Eats-after, Lands-value,
}
use uinx.Parser.Types.Total.{Fine-parse_type}
use uinx.Parser.Syntax
use uinx.Parser.Syntax.{Expr, Stmt, Stmts}
use uinx.Parser.Expressions.{parse_expr}
use uinx.Parser.Expressions.Total.{Eats-parse_expr}
use uinx.Parser.Statements.{
  block_behind, parse_block, else_behind, if_from, parse_if_on, parse_if_statement, let_behind,
  return_behind, while_behind, for_behind, fence_behind, expr_stmt, as_block, keyword_stmt,
  parse_stmt_on, parse_stmt, assign_kinds,
}

Fine-parse_expr : (n min : ℕ) → Fine n (parse_expr min)
Fine-parse_expr n min = (Eats-parse_expr n min).fine

module _ (n : ℕ) where
  Fine-let_behind : (keyword : Token) → Fine n (let_behind keyword)
  unfolding let_behind
  Fine-let_behind keyword =
      search (Fine-if, fine, Fine-parse_type, Fine-parse_expr) depth 40 fits 4000

  Fine-return_behind : Fine n return_behind
  unfolding return_behind
  Fine-return_behind = search (fine, Fine-parse_expr) depth 30 fits 4000

  Fine-fence_behind : (b : Bool) → Fine n (fence_behind b)
  unfolding fence_behind
  Fine-fence_behind b = search (Fine-if, fine) depth 30 fits 4000

  Eats-expr_stmt : Eats n expr_stmt
  unfolding expr_stmt
  Eats-expr_stmt = Eats-bind n (Eats-parse_expr n 0) λ target.
      Fine-if_both n assign_kinds
        (Fine-bind n (Fine-advance n) λ op.
          Fine-bind n (Fine-parse_expr n 0)
            λ value. Fine-bind n (Fine-finish_line n) λ u. Fine-pure n _)
        (Fine-bind n (Fine-finish_line n) λ u. Fine-pure n _)

module _ (n : ℕ) (stmt : Parses Stmt) (h : Moving n stmt) where
  pub Fine-block_behind : (braces : Bool) → Fine n (block_behind stmt braces)
  unfolding block_behind
  Fine-block_behind braces =
      Fine-bind n
        (Fine-in_suite n braces _ [] λ ss. Moving-then n h λ s. Fine-pure n (ss ++ s ∷ []))
        λ ss. Fine-bind n (Fine-end_suite n braces) λ u. Fine-pure n _

  pub Fine-parse_block : Fine n (parse_block stmt)
  unfolding parse_block
  Fine-parse_block = Fine-bind n (Fine-begin_suite n) Fine-block_behind

  Fine-while_behind : Fine n (while_behind stmt)
  unfolding while_behind
  Fine-while_behind = search (fine, Fine-parse_expr, Fine-parse_block) depth 30 fits 4000

  Fine-for_behind : Fine n (for_behind stmt)
  unfolding for_behind
  Fine-for_behind = search (fine, Fine-parse_expr, Fine-parse_block) depth 40 fits 4000

  Fine-else_behind :
      (nested : Parses Stmt) (word : Token) → Fine n nested → Fine n (else_behind stmt nested word)
  unfolding else_behind
  Fine-else_behind nested word g =
      Fine-if n (str_eq word.text (codes "elif")) (Fine-bind n g λ s. Fine-pure n _)
        (Fine-if_consume n TokenKind.kw_if (Fine-bind n g λ s. Fine-pure n _) Fine-parse_block)

Fine-parse_if_on :
    (n : ℕ) (stmt : Parses Stmt) → Moving n stmt → (k : ℕ) → k ≤ n → Fine k (parse_if_on k stmt)
unfolding parse_if_on if_from token_is
Fine-parse_if_on n stmt h zero le = Fine-zero 0
Fine-parse_if_on n stmt h (suc k) le = Fine-bind (suc k) (Fine-parse_expr (suc k) 0) λ condition.
    Fine-bind (suc k) (Fine-parse_block (suc k) stmt (Moving-le (suc k) n le h)) λ then_block.
      Fine-if_at (suc k) (TokenKind.kw_else ∷ []) refl
        (Moving-bind k (Moving-advance (suc k)) λ word.
          Fine-bind k
            (Fine-else_behind k stmt (Moving-le k n (omega (arith, le)) h) (parse_if_on k stmt) word
              (Fine-parse_if_on n stmt h k (omega (arith, le))))
            λ ss. Fine-pure k _)
        (Fine-pure (suc k) _)

Fine-parse_if_statement :
    (n : ℕ) (stmt : Parses Stmt) → Moving n stmt → Fine n (parse_if_statement stmt)
unfolding parse_if_statement
Fine-parse_if_statement n stmt h = record {
  run = λ s c lt.
      (Fine-parse_if_on n stmt h (suc (left s)) (omega (arith, lt))).run s c (omega arith);
}

-- A block in braces starts with the brace.
Past-parse_block :
    (n : ℕ) (stmt : Parses Stmt) (s : Parser)
    → Moving n stmt
    → at (TokenKind.l_brace ∷ []) s ≡ true
    → IsClosed s
    → left s < suc n
    → 0 < left s
    → Lands (λ a. Past s) (as_block (parse_block stmt) s)
unfolding parse_block begin_suite
Past-parse_block n stmt s h there c lt pos = rw there (
    (Moving-bind n (Moving-bind n (Moving-advance (suc n)) λ t. Fine-block_behind n stmt h true)
        λ ss. Fine-pure n (Syntax.block_stmt ss)).run
      s c lt pos)

Eats-if_block :
    (n : ℕ) (stmt : Parses Stmt) {k : Parses Stmt}
    → Moving n stmt
    → Eats (suc n) k
    → Eats (suc n) (if_at (TokenKind.l_brace ∷ []) (as_block (parse_block stmt)) k)
unfolding token_is
Eats-if_block n stmt {k} h g = record {
  fine = record {
    run = λ s c lt. elim (Bool-cases (at (TokenKind.l_brace ∷ []) s)) [
      | inl there ↦ rw there (
          Past-Behind (
            Past-parse_block n stmt s h there c lt
              (at-pos (TokenKind.l_brace ∷ []) s false refl there c)))
      | inr other ↦ rw other (g.fine.run s c lt)
    ];
  };
  moving = record {
    run = λ s c lt pos. elim (Bool-cases (at (TokenKind.l_brace ∷ []) s)) [
      | inl there ↦ rw there (Past-parse_block n stmt s h there c lt pos)
      | inr other ↦ rw other (g.moving.run s c lt pos)
    ];
  };
}

Eats-keyword_stmt : (n : ℕ) (stmt : Parses Stmt) → Moving n stmt → Eats (suc n) (keyword_stmt stmt)
unfolding keyword_stmt token_is
Eats-keyword_stmt n stmt h =
    let block = Fine-parse_block n stmt h in
    Eats-if_token n (TokenKind.kw_let ∷ TokenKind.kw_var ∷ []) refl (Fine-let_behind n) (
      Eats-if_next n TokenKind.kw_return refl (Fine-return_behind n) (
        Eats-if_next n TokenKind.kw_if refl (Fine-parse_if_statement n stmt h) (
          Eats-if_next n TokenKind.kw_while refl (Fine-while_behind n stmt h) (
            Eats-if_next n TokenKind.kw_for refl (Fine-for_behind n stmt h) (
              Eats-if_next n TokenKind.kw_loop refl (Fine-bind n block λ b. Fine-pure n _) (
                Eats-if_next n TokenKind.kw_break refl
                  (Fine-bind n (Fine-finish_line n) λ u. Fine-pure n _)
                  (Eats-if_next n TokenKind.kw_continue refl
                    (Fine-bind n (Fine-finish_line n) λ u. Fine-pure n _)
                    (Eats-if_next n TokenKind.kw_fence refl (Fine-fence_behind n false) (
                      Eats-if_next n TokenKind.kw_compiler_fence refl (Fine-fence_behind n true) (
                        Eats-if_next n TokenKind.kw_unsafe refl
                          (Fine-bind n block λ b. Fine-pure n _)
                          (Eats-if_block n stmt h (
                            Eats-if_next n TokenKind.kw_scope refl
                              (Fine-bind n block λ b. Fine-pure n _)
                              (Eats-if_next n TokenKind.kw_pass refl
                                (Fine-bind n (Fine-finish_line n) λ u. Fine-pure n _)
                                (Eats-expr_stmt (suc n)))))))))))))))

Eats-parse_stmt_on : (n : ℕ) → Eats n (parse_stmt_on n)
unfolding parse_stmt_on
Eats-parse_stmt_on zero = Eats-zero
Eats-parse_stmt_on (suc n) =
    Eats-after (suc n) (Fine-skip_newlines (suc n))
      λ u. Eats-keyword_stmt n (parse_stmt_on n) (Eats-parse_stmt_on n).moving

pub Eats-parse_stmt : (n : ℕ) → Eats n parse_stmt
unfolding parse_stmt
Eats-parse_stmt n = record {
  fine = record { run = λ s c lt. (Eats-parse_stmt_on (suc (left s))).fine.run s c (omega arith) };
  moving = record {
    run = λ s c lt pos. (Eats-parse_stmt_on (suc (left s))).moving.run s c (omega arith) pos;
  };
}

-- On tokens that end in `End`, `parse_stmt` returns a statement, whatever the tokens are, and it
-- consumes a token unless it stands at the last one; `parse_block` returns the statements of a block.
pub parse_stmt-Onward :
    (s : Parser)
    → IsClosed s
    → ((t : Stmt) × (s' : Parser) × (parse_stmt s ≡ some (t, s')) × Onward s s')
      × ((ts : Stmts) × (s' : Parser) × (parse_block parse_stmt s ≡ some (ts, s')) × Behind s s')
parse_stmt-Onward s c = (
  Eats-Onward parse_stmt s (Eats-parse_stmt (suc (left s))) c,
  Lands-value (
      (Fine-parse_block (suc (left s)) parse_stmt (Eats-parse_stmt (suc (left s))).moving).run s c
        (omega arith)),
)
