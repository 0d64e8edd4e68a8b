-- ===== src/Parser/Items/Generics.antt =====
-- `parse_generics`, `parse_where_clause` and `parse_parameter` of src/parser.cpp.
use uinx.Prelude.{
  Bool, true, false, ◌&&◌, List, [], ◌∷◌, ◌++◌, Bytes, codes, str_eq, contains, any_of,
  if◌then◌else◌,
}
use uinx.Token.{TokenKind}
use uinx.Types.FromAst.{TypeRef, type_ref, none_left}
use uinx.Parser.Monad.{
  Round, Parses, again, finish, pure, ◌>>=◌, ◌>>◌, at, if_at, if_consume, consume, advance, expect,
  expect_name, unexpected, error_at, iterate,
}
use uinx.Parser.Syntax.{GenericParam, Param}
use uinx.Parser.Types.{parse_type}

-- `do { ... } while (consume(sep))`: at least one element
unfoldable pub chained : {B : Type 0} → TokenKind → (B → Parses B) → B → Parses B
unfolding iterate at advance
chained sep element b =
    iterate (λ c. do d ← element c; if_consume sep (pure (again d)) (pure (finish d))) b

unfoldable pub bound_round : List Bytes → Parses (List Bytes)
unfolding at advance unexpected
bound_round bounds = do t ← expect_name (codes "trait bound"); pure (bounds ++ t.text ∷ [])

unfoldable pub generic_param : Parses GenericParam
unfolding chained bound_round at advance unexpected
generic_param = do
  name ← expect TokenKind.identifier (codes "generic parameter")
  bounds ← if_consume TokenKind.colon (chained TokenKind.plus bound_round []) (pure [])
  pure (record { name = name.text; bounds = bounds })

unfoldable pub generics_round :
    TokenKind → List GenericParam → Parses (Round (List GenericParam) (List GenericParam))
unfolding generic_param at advance
generics_round close ps = if_at (close ∷ TokenKind.end ∷ []) (pure (finish ps)) (do
  p ← generic_param
  if_consume TokenKind.comma (pure (again (ps ++ p ∷ []))) (pure (finish (ps ++ p ∷ []))))

-- the list, behind what opens it
unfoldable pub generics_behind : TokenKind → Parses (List GenericParam)
unfolding iterate generics_round at advance unexpected
generics_behind close = do
  params ← iterate (generics_round close) []
  expect close (codes "end of generic parameter list")
  pure params

-- `parse_generics`
unfoldable pub parse_generics : Parses (List GenericParam)
unfolding generics_behind at advance
parse_generics =
    if_consume TokenKind.l_bracket (generics_behind TokenKind.r_bracket)
      (if_consume TokenKind.less (generics_behind TokenKind.greater) (pure []))

-- The first parameter of the name gets the bound, where it has not got it.
unfoldable pub add_bound : Bytes → Bytes → List GenericParam → List GenericParam
unfolding str_eq contains
add_bound name bound [] = []
add_bound name bound (p ∷ ps) =
    if str_eq p.name name
    then (if contains bound p.bounds then p else record p { bounds = p.bounds ++ bound ∷ [] }) ∷ ps
    else p ∷ add_bound name bound ps

unfoldable pub where_bound : Bytes → List GenericParam → Parses (List GenericParam)
unfolding add_bound at advance unexpected
where_bound name params = do
  bound ← expect_name (codes "trait bound")
  pure (add_bound name bound.text params)

unfoldable pub where_part : List GenericParam → Parses (List GenericParam)
unfolding chained where_bound str_eq at advance unexpected error_at
where_part params = do
  name ← expect TokenKind.identifier (codes "generic parameter in where clause")
  if any_of (λ p. str_eq p.name name.text) params
      then pure tt
      else error_at name.range (codes "E0115")
          (codes "where clause references unknown generic parameter '" ++ (name.text ++ codes "'"))
  expect TokenKind.colon (codes "':' after generic parameter in where clause")
  chained TokenKind.plus (where_bound name.text) params

-- `parse_where_clause`, which returns the parameters with their bounds
unfoldable pub parse_where_clause : List GenericParam → Parses (List GenericParam)
unfolding chained where_part at advance
parse_where_clause params =
    if_consume TokenKind.kw_where (chained TokenKind.comma where_part params) (pure params)

abbrev pub type_named : Bytes → TypeRef
type_named n = type_ref n none_left [] false false false false false

abbrev self_behind : Bytes → TypeRef
self_behind prefix = type_ref (codes "Self") none_left (prefix ∷ []) false false false false false

-- `Self` behind an exclusive reference
abbrev is_mut_self : TypeRef → Bool
is_mut_self (type_ref n args [] r m p q u) = false
is_mut_self (type_ref n args (x ∷ xs) r m p q u) =
    str_eq n (codes "Self") && str_eq x (codes "&mut")

unfoldable pub self_param : Bytes → Parses Param
unfolding parse_type str_eq at advance
self_param name =
    if_consume TokenKind.colon
      (do t ← parse_type; pure (record { name = name; param_type = t; is_mut = is_mut_self t }))
      (pure (record { name = name; param_type = type_named (codes "Self"); is_mut = false }))

unfoldable pub named_param : Bool → Parses Param
unfolding parse_type at advance unexpected
named_param is_mut = do
  name ← expect_name (codes "parameter name")
  expect TokenKind.colon (codes "':' after parameter name")
  t ← parse_type
  pure (record { name = name.text; param_type = t; is_mut = is_mut })

-- `parse_parameter`
unfoldable pub parse_parameter : Parses Param
unfolding self_param named_param at advance unexpected
parse_parameter =
    if_consume TokenKind.amp
      (do
        consume TokenKind.kw_mut
        self ← expect TokenKind.kw_self (codes "self after reference receiver")
        pure (record { name = self.text; param_type = self_behind (codes "&"); is_mut = false }))
      (if_consume TokenKind.amp_mut
        (do
          self ← expect TokenKind.kw_self (codes "self after reference receiver")
          pure
              (record { name = self.text; param_type = self_behind (codes "&mut"); is_mut = true }))
        (if_at (TokenKind.kw_self ∷ []) (do t ← advance; self_param t.text)
          (if_consume TokenKind.kw_mut (named_param true)
            (if_consume TokenKind.kw_var (named_param true) (named_param false)))))

unfoldable pub one_param : List Param → Parses (List Param)
unfolding parse_parameter
one_param ps = do p ← parse_parameter; pure (ps ++ p ∷ [])

-- the parameters of a function, behind the parenthesis that opens them
unfoldable pub params_behind : Parses (List Param)
unfolding chained one_param at advance unexpected
params_behind = do
  ps ← if_at (TokenKind.r_paren ∷ []) (pure []) (chained TokenKind.comma one_param [])
  expect TokenKind.r_paren (codes "')'")
  pure ps
