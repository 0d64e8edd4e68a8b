-- ===== src/Parser/Items.antt =====
-- The members of src/parser.cpp that read one item: `parse_generics`, `parse_where_clause`,
-- `parse_parameter`, `parse_function`, `parse_struct`, `parse_trait`, `parse_impl`, `parse_marker`
-- and `parse_global`.
pub mod Generics
pub mod Functions
pub mod Hangs
pub mod Total
use uinx.Prelude.{
  not, Bool, true, false, ◌&&◌, ◌||◌, List, [], ◌∷◌, ◌++◌, Bytes, codes, str_eq, Option, none, some,
  if◌then◌else◌, is_upper, any_of,
}
use uinx.Token.{TokenKind, Token}
use uinx.Types.FromAst.{TypeRef, TypeRefs, type_ref, none_left, one_more}
use uinx.Parser.Monad.{
  Parser, Parses, Round, again, finish, pure, current, ◌>>=◌, ◌>>◌, at, if_at, if_consume, consume,
  advance, expect, expect_name, unexpected, error_at, finish_line, begin_suite, in_suite, end_suite,
  iterate,
}
use uinx.Parser.Syntax.{
  GenericParam, FieldDecl, StructDecl, TraitMethod, TraitDecl, ImplDecl, FunctionDecl, MarkerKind,
  MarkerDecl, GlobalDecl,
}
use uinx.Parser.Types.{parse_type}
use uinx.Parser.Expressions.{parse_expr}
use uinx.Parser.Items.Generics.{parse_generics, parse_where_clause, params_behind, type_named}
use uinx.Parser.Items.Functions.{parse_function, Flags}

-- one field of a struct, with what ends it
unfoldable pub struct_field : Bool → List FieldDecl → Parses (List FieldDecl)
unfolding parse_type finish_line at advance unexpected
struct_field braces fields = do
  is_pub ← consume TokenKind.kw_pub
  is_shared ← consume TokenKind.kw_shared
  name ← expect_name (codes "field name")
  expect TokenKind.colon (codes "':' after field name")
  field_type ← parse_type
  if braces
      then if_consume TokenKind.comma (pure tt) (do consume TokenKind.semicolon; pure tt)
      else finish_line
  pure (
      fields
      ++ record {
        name = name.text;
        field_type = field_type;
        is_pub = is_pub;
        is_shared = is_shared;
      }
        ∷ [])

-- `parse_struct`
unfoldable pub parse_struct : Bool → Parses StructDecl
unfolding parse_generics parse_where_clause begin_suite in_suite end_suite struct_field at advance
    unexpected
parse_struct is_pub = do
  expect TokenKind.kw_struct (codes "struct")
  name ← expect TokenKind.identifier (codes "struct name")
  generics ← parse_generics
  bounded ← parse_where_clause generics
  braces ← begin_suite
  fields ← in_suite braces (struct_field braces) []
  end_suite braces
  pure (record { name = name.text; generics = bounded; fields = fields; is_pub = is_pub })

-- one method of a trait, with what ends it
unfoldable pub trait_method : Bool → List TraitMethod → Parses (List TraitMethod)
unfolding parse_type params_behind finish_line at advance unexpected
trait_method braces methods = do
  is_unsafe ← consume TokenKind.kw_unsafe
  expect TokenKind.kw_fn (codes "func")
  name ← expect TokenKind.identifier (codes "method name")
  expect TokenKind.l_paren (codes "'('")
  params ← params_behind
  return_type ← if_consume TokenKind.arrow parse_type (pure (type_named (codes "unit")))
  if braces then (do expect TokenKind.semicolon (codes "';'"); pure tt) else finish_line
  pure (
      methods
      ++ record {
        name = name.text;
        params = params;
        return_type = return_type;
        is_unsafe = is_unsafe;
      }
        ∷ [])

-- `parse_trait`
unfoldable pub parse_trait : Bool → Parses TraitDecl
unfolding parse_generics begin_suite in_suite end_suite trait_method at advance unexpected
parse_trait is_pub = do
  expect TokenKind.kw_trait (codes "trait")
  name ← expect TokenKind.identifier (codes "trait name")
  generics ← parse_generics
  braces ← begin_suite
  methods ← in_suite braces (trait_method braces) []
  end_suite braces
  pure (record { name = name.text; generics = generics; methods = methods; is_pub = is_pub })

-- the words before a method
unfoldable pub method_flag : Flags → Parses (Round Flags Flags)
unfolding at advance
method_flag f = if_consume TokenKind.kw_pub (pure (again (record f { is_pub = true }))) (
    if_consume TokenKind.kw_unsafe (pure (again (record f { is_unsafe = true }))) (
      if_consume TokenKind.kw_async (pure (again (record f { is_async = true }))) (
        if_consume TokenKind.kw_concurrent (pure (again (record f { is_concurrent = true })))
          (pure (finish f)))))

abbrev pub no_flags : Flags
no_flags = record {
  is_pub = false;
  is_unsafe = false;
  is_async = false;
  is_extern = false;
  is_concurrent = false;
  abi = codes "Uinx";
}

-- one method of an `impl`, or `pass`
unfoldable pub impl_method : List FunctionDecl → Parses (List FunctionDecl)
unfolding iterate method_flag parse_function finish_line at advance
impl_method methods =
    if_consume TokenKind.kw_pass (do finish_line; pure methods)
      (do flags ← iterate method_flag no_flags; f ← parse_function flags; pure (methods ++ f ∷ []))

abbrev pub name_of_ref : TypeRef → Bytes
name_of_ref (type_ref n args ps r m p q u) = n

-- the type and the trait, in the new style and in the old one
unfoldable pub impl_header : Bool → Parses (Option Bytes × TypeRef)
unfolding parse_type at advance unexpected
impl_header new_style = do
  first ← parse_type
  if new_style
      then if_consume TokenKind.kw_with
          (do t ← expect_name (codes "trait name after 'with'"); pure (some t.text, first))
          (pure (none, first))
      else if_consume TokenKind.kw_for
          (do for_type ← parse_type; pure (some (name_of_ref first), for_type)) (pure (none, first))

-- `parse_impl`
unfoldable pub parse_impl : Parses ImplDecl
unfolding impl_header begin_suite in_suite end_suite impl_method str_eq at advance unexpected
parse_impl = do
  keyword ← expect TokenKind.kw_impl (codes "extend")
  header ← impl_header (str_eq keyword.text (codes "extend"))
  braces ← begin_suite
  methods ← in_suite braces impl_method []
  end_suite braces
  pure (record { trait_name = header.0; for_type = header.1; methods = methods })

-- a name of one capital letter
abbrev is_generic_name : Bytes → Bool
is_generic_name (c ∷ []) = is_upper c
is_generic_name _ = false

abbrev add_generic : Bytes → List GenericParam → List GenericParam
add_generic n gs =
    if is_generic_name n && not (any_of (λ g. str_eq g.name n) gs)
    then gs ++ record { name = n; bounds = [] } ∷ []
    else gs

unfoldable mutual
  unfolding str_eq

  -- `collect_generics`
  pub collect_generics : TypeRef → List GenericParam → List GenericParam
  collect_generics (type_ref n args ps r m p q u) gs = collect_each args (add_generic n gs)

  pub collect_each : TypeRefs → List GenericParam → List GenericParam
  collect_each none_left gs = gs
  collect_each (one_more t ts) gs = collect_each ts (collect_generics t gs)

abbrev pub args_of_ref : TypeRef → TypeRefs
args_of_ref (type_ref n args ps r m p q u) = args

-- `parse_marker`
unfoldable pub parse_marker : Parses MarkerDecl
unfolding parse_type collect_each parse_where_clause finish_line str_eq advance
parse_marker = do
  keyword ← advance
  marked ← parse_type
  generics ← parse_where_clause (collect_each (args_of_ref marked) [])
  finish_line
  pure (record {
    kind = if str_eq keyword.text (codes "send") then MarkerKind.send else MarkerKind.sync;
    marked_type = marked;
    generics = generics;
  })

-- the words of a global, and whether it may change
unfoldable pub global_words : Bool → Bool → Parses Bool
unfolding at advance unexpected error_at
global_words is_const is_static =
    if is_const then (do expect TokenKind.kw_const (codes "const"); pure false) else (do
      if is_static then (do expect TokenKind.kw_static (codes "static"); pure tt) else pure tt
      if_consume TokenKind.kw_var (pure true) (
          if_consume TokenKind.kw_let (pure false) (do
            t ← current
            error_at t.range (codes "E0115") (codes "global declaration requires var or val")
            pure true)))

-- `parse_global`
unfoldable pub parse_global : Bool → Bool → Bool → Bool → Bool → Parses GlobalDecl
unfolding global_words parse_type parse_expr finish_line at advance unexpected
parse_global is_pub is_const is_static is_shared is_percpu = do
  is_mut ← global_words is_const is_static
  name ← expect TokenKind.identifier (codes "global name")
  expect TokenKind.colon (codes "':' after global name")
  global_type ← parse_type
  expect TokenKind.eq (codes "'=' in global declaration")
  init ← parse_expr 0
  finish_line
  pure (record {
    name = name.text;
    global_type = global_type;
    init = init;
    is_pub = is_pub;
    is_mut = is_mut;
    is_const = is_const;
    is_shared = is_shared;
    is_percpu = is_percpu;
  })
