-- ===== src/Parser/Types.antt =====
-- `parse_type` and `parse_type_arguments` of src/parser.cpp.
pub mod Total
use uinx.Prelude.{
  none, ℕ, zero, suc, Bool, true, false, List, [], ◌∷◌, ◌++◌, Bytes, codes, if◌then◌else◌,
}
use uinx.Token.{TokenKind}
use uinx.Types.FromAst.{TypeRef, TypeRefs, type_ref, none_left, one_more}
use uinx.Parser.Monad.{
  Parses, Round, again, finish, pure, ◌>>=◌, ◌>>◌, at, if_at, if_consume, consume, advance, expect,
  unexpected, iterate, left,
}

-- The prefixes read so far, the outermost first.
unfoldable pub prefix_round : List Bytes → Parses (Round (List Bytes) (List Bytes))
unfolding at advance unexpected
prefix_round ps = if_consume TokenKind.kw_ref (pure (again (ps ++ codes "&" ∷ []))) (
    if_consume TokenKind.kw_mut_ref (pure (again (ps ++ codes "&mut" ∷ []))) (
      if_consume TokenKind.kw_ptr (pure (again (ps ++ codes "*const" ∷ []))) (
        if_consume TokenKind.kw_mut_ptr (pure (again (ps ++ codes "*mut" ∷ []))) (
          if_consume TokenKind.amp_mut (pure (again (ps ++ codes "&mut" ∷ []))) (
            if_consume TokenKind.amp
              (if_consume TokenKind.kw_mut (pure (again (ps ++ codes "&mut" ∷ [])))
                (pure (again (ps ++ codes "&" ∷ []))))
              (if_consume TokenKind.star
                (if_consume TokenKind.kw_mut (pure (again (ps ++ codes "*mut" ∷ []))) (do
                  expect TokenKind.kw_const (codes "const or mut after '*'")
                  pure (again (ps ++ codes "*const" ∷ []))))
                (pure (finish ps))))))))

unfoldable pub parse_prefixes : Parses (List Bytes)
unfolding iterate prefix_round
parse_prefixes = iterate prefix_round []

abbrev error_name : Bytes → Bytes
error_name [] = codes "<error>"
error_name (c ∷ cs) = c ∷ cs

unfoldable pub type_name : Parses Bytes
unfolding at advance unexpected
type_name =
    if_at (TokenKind.identifier ∷ TokenKind.kw_self_ty ∷ []) (do t ← advance; pure t.text)
      (do t ← expect TokenKind.identifier (codes "type name"); pure (error_name t.text))

unfoldable pub refs_of : List TypeRef → TypeRefs
refs_of [] = none_left
refs_of (r ∷ rs) = one_more r (refs_of rs)

-- A loop over elements with commas between them, up to `close`, which a comma may precede.
unfoldable pub separated : {A : Type 0} → TokenKind → Parses A → Parses (List A)
unfolding iterate at advance
separated close element = if_at (close ∷ []) (pure []) (
    iterate
      (λ as'. do
        a ← element
        if_consume TokenKind.comma
            (if_at (close ∷ []) (pure (finish (as' ++ a ∷ []))) (pure (again (as' ++ a ∷ []))))
            (pure (finish (as' ++ a ∷ []))))
      [])

-- `parse_type_arguments`, given `parse_type`, behind the token that opens the list
unfoldable pub arguments_behind : Parses TypeRef → TokenKind → Parses TypeRefs
unfolding separated at advance unexpected refs_of
arguments_behind element close = do
  rs ← separated close element
  expect close (codes "end of generic argument list")
  pure (refs_of rs)

unfoldable pub arguments_of : Parses TypeRef → TokenKind → TokenKind → Parses TypeRefs
unfolding arguments_behind at advance unexpected
arguments_of element open' close = do
  expect open' (codes "generic argument list")
  arguments_behind element close

-- `[` or `<` with arguments, where it is there
unfoldable pub optional_arguments : Parses TypeRef → Parses TypeRefs
unfolding arguments_of at
optional_arguments element =
    if_at (TokenKind.l_bracket ∷ []) (arguments_of element TokenKind.l_bracket TokenKind.r_bracket)
      (if_at (TokenKind.less ∷ []) (arguments_of element TokenKind.less TokenKind.greater)
        (pure none_left))

unfoldable pub type_from : Parses TypeRef → Parses TypeRef
unfolding parse_prefixes type_name optional_arguments at advance
type_from element = do
  ps ← parse_prefixes
  n ← type_name
  args ← optional_arguments element
  nullable ← consume TokenKind.question
  pure (type_ref n args ps false false false false nullable)

-- on fuel: arguments stand behind a token that is consumed
unfoldable pub parse_type_on : ℕ → Parses TypeRef
unfolding type_from
parse_type_on zero s = none
parse_type_on (suc fuel) s = type_from (parse_type_on fuel) s

-- `parse_type`: fuel for each token that is left, and one more
unfoldable pub parse_type : Parses TypeRef
unfolding parse_type_on
parse_type s = parse_type_on (suc (left s)) s

-- `parse_type_arguments`
unfoldable pub parse_type_arguments : TokenKind → TokenKind → Parses TypeRefs
unfolding arguments_of parse_type
parse_type_arguments open' close = arguments_of parse_type open' close
