-- ===== src/Parser/Items/Total.antt =====
-- The members of src/parser.cpp that read a function, a marker or a global end.
use uinx.Prelude.{ℕ, suc, Bool, false, List, [], ◌∷◌, Bytes, ◌≡◌, ◌++◌, some, refl, arith}
use uinx.Token.{TokenKind}
use uinx.Token.Kinds.{token_is}
use uinx.Parser.Monad.{Parser, Parses, again, left, iterate}
use uinx.Parser.Monad.Total.{
  fine, IsClosed, Behind, Lands-value, ends_in, Fine, Fine-pure, Fine-if, Fine-iterate, Fine-expect,
  Fine-if_consume, Turns-bind, Turns-if_consume, Turns-if_both, Turns-finish,
}
use uinx.Parser.Syntax.{GenericParam, Param, FunctionDecl, MarkerDecl, GlobalDecl}
use uinx.Parser.Types.Total.{Fine-parse_type}
use uinx.Parser.Expressions.{parse_expr}
use uinx.Parser.Expressions.Total.{Eats-parse_expr}
use uinx.Parser.Statements.{parse_block, parse_stmt}
use uinx.Parser.Statements.Total.{Fine-parse_block, Eats-parse_stmt}
use uinx.Parser.Items.{parse_marker, parse_global, global_words}
use uinx.Parser.Items.Generics.{
  chained, bound_round, generic_param, generics_behind, generics_round, parse_generics, where_bound,
  where_part, parse_where_clause, self_param, named_param, parse_parameter, one_param,
  params_behind,
}
use uinx.Parser.Items.Functions.{Flags, function_body, parse_function}

module _ (n : ℕ) where
  Fine-chained :
      {B : Type 0} (sep : TokenKind) (element : B → Parses B) (b : B)
      → ends_in (sep ∷ []) ≡ false
      → ((c : B) → Fine n (element c))
      → Fine n (chained sep element b)
  unfolding chained
  Fine-chained sep element b e h = Fine-iterate n b λ c.
      Turns-bind n (h c) λ d. Turns-if_consume n sep e (Fine-pure n (again d)) (Turns-finish n d)

  Fine-bound_round : (bounds : List Bytes) → Fine n (bound_round bounds)
  unfolding bound_round
  Fine-bound_round bounds = search (fine) depth 40 fits 6000

  Fine-bounds : (bounds : List Bytes) → Fine n (chained TokenKind.plus bound_round bounds)
  unfolding token_is
  Fine-bounds bounds = Fine-chained TokenKind.plus bound_round bounds refl Fine-bound_round

  Fine-generic_param : Fine n generic_param
  unfolding generic_param
  Fine-generic_param = search (fine, Fine-bounds) depth 40 fits 6000

  Fine-generics_rounds :
      (close : TokenKind) (ps : List GenericParam) → Fine n (iterate (generics_round close) ps)
  unfolding token_is generics_round
  Fine-generics_rounds close ps = Fine-iterate n ps λ qs.
      Turns-if_both n (close ∷ TokenKind.end ∷ []) (Turns-finish n qs) (
        Turns-bind n Fine-generic_param λ p.
          Turns-if_consume n TokenKind.comma refl (Fine-pure n (again (qs ++ p ∷ [])))
            (Turns-finish n (qs ++ p ∷ [])))

  Fine-generics_behind : (close : TokenKind) → Fine n (generics_behind close)
  unfolding generics_behind
  Fine-generics_behind close = search (fine, Fine-generics_rounds) depth 40 fits 6000

  Fine-parse_generics : Fine n parse_generics
  unfolding parse_generics
  Fine-parse_generics =
      Fine-if_consume n TokenKind.l_bracket (Fine-generics_behind TokenKind.r_bracket)
        (Fine-if_consume n TokenKind.less (Fine-generics_behind TokenKind.greater) (Fine-pure n []))

  Fine-where_bound : (name : Bytes) (params : List GenericParam) → Fine n (where_bound name params)
  unfolding where_bound
  Fine-where_bound name params = search (fine) depth 40 fits 6000

  Fine-where_bounds :
      (name : Bytes) (params : List GenericParam)
      → Fine n (chained TokenKind.plus (where_bound name) params)
  unfolding token_is
  Fine-where_bounds name params =
      Fine-chained TokenKind.plus (where_bound name) params refl (Fine-where_bound name)

  Fine-where_part : (params : List GenericParam) → Fine n (where_part params)
  unfolding where_part
  Fine-where_part params = search (fine, Fine-if, Fine-where_bounds) depth 40 fits 6000

  Fine-parse_where_clause : (params : List GenericParam) → Fine n (parse_where_clause params)
  unfolding parse_where_clause token_is
  Fine-parse_where_clause params =
      Fine-if_consume n TokenKind.kw_where
        (Fine-chained TokenKind.comma where_part params refl Fine-where_part) (Fine-pure n params)

  Fine-self_param : (name : Bytes) → Fine n (self_param name)
  unfolding self_param
  Fine-self_param name = search (fine, Fine-parse_type) depth 40 fits 6000

  Fine-named_param : (is_mut : Bool) → Fine n (named_param is_mut)
  unfolding named_param
  Fine-named_param is_mut = search (fine, Fine-parse_type) depth 40 fits 6000

  Fine-parse_parameter : Fine n parse_parameter
  unfolding parse_parameter
  Fine-parse_parameter = search (fine, Fine-self_param, Fine-named_param) depth 40 fits 6000

  Fine-one_param : (ps : List Param) → Fine n (one_param ps)
  unfolding one_param
  Fine-one_param ps = search (fine, Fine-parse_parameter) depth 40 fits 6000

  Fine-params_rounds : (ps : List Param) → Fine n (chained TokenKind.comma one_param ps)
  unfolding token_is
  Fine-params_rounds ps = Fine-chained TokenKind.comma one_param ps refl Fine-one_param

  Fine-params_behind : Fine n params_behind
  unfolding params_behind
  Fine-params_behind = search (fine, Fine-params_rounds) depth 40 fits 6000

  Fine-block : Fine n (parse_block parse_stmt)
  Fine-block = Fine-parse_block n parse_stmt (Eats-parse_stmt n).moving

  Fine-function_body : (may_lack : Bool) → Fine n (function_body may_lack)
  unfolding function_body
  Fine-function_body may_lack = search (fine, Fine-if, Fine-block) depth 40 fits 6000

  Fine-parse_function : (flags : Flags) → Fine n (parse_function flags)
  unfolding parse_function
  Fine-parse_function flags =
      search
        (
          fine, Fine-parse_generics, Fine-params_behind, Fine-parse_type, Fine-parse_where_clause,
          Fine-function_body,
        )
        depth 40 fits 6000

  Fine-parse_marker : Fine n parse_marker
  unfolding parse_marker
  Fine-parse_marker = search (fine, Fine-parse_type, Fine-parse_where_clause) depth 40 fits 6000

  Fine-global_words : (is_const is_static : Bool) → Fine n (global_words is_const is_static)
  unfolding global_words
  Fine-global_words is_const is_static = search (fine, Fine-if, Fine-expect) depth 40 fits 6000

  Fine-init : Fine n (parse_expr 0)
  Fine-init = (Eats-parse_expr n 0).fine

  Fine-parse_global :
      (is_pub is_const is_static is_shared is_percpu : Bool)
      → Fine n (parse_global is_pub is_const is_static is_shared is_percpu)
  unfolding parse_global
  Fine-parse_global is_pub is_const is_static is_shared is_percpu =
      search (fine, Fine-global_words, Fine-parse_type, Fine-init) depth 40 fits 6000

-- On tokens that end in `End`, `parse_function`, `parse_marker` and `parse_global` return an item,
-- whatever the tokens and the words before the item are, and stand on tokens that end in `End`.
pub parse_function-Behind :
    (s : Parser)
    → IsClosed s
    → ((flags : Flags)
        → (f : FunctionDecl) × (s' : Parser) × (parse_function flags s ≡ some (f, s'))
          × Behind s s')
      × ((m : MarkerDecl) × (s' : Parser) × (parse_marker s ≡ some (m, s')) × Behind s s')
      × ((is_pub is_const is_static is_shared is_percpu : Bool)
          → (g : GlobalDecl) × (s' : Parser) × (parse_global is_pub is_const is_static is_shared
                is_percpu s
              ≡ some (g, s'))
            × Behind s s')
parse_function-Behind s c = (
  λ flags. Lands-value ((Fine-parse_function (suc (left s)) flags).run s c (omega arith)),
  Lands-value ((Fine-parse_marker (suc (left s))).run s c (omega arith)),
  λ is_pub is_const is_static is_shared is_percpu. Lands-value (
      (Fine-parse_global (suc (left s)) is_pub is_const is_static is_shared is_percpu).run s c
        (omega arith)),
)
