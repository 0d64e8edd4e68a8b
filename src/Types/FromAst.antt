-- ===== src/Types/FromAst.antt =====
-- `TypeRef` of include/uinx/ast.hpp and `type_from_ast` of src/types.cpp.
use uinx.Prelude.{Bool, true, false, List, [], ◌∷◌, Bytes, codes, str_eq, contains, if◌then◌else◌}
use uinx.Types.{
  Ty, Tys, ty, nil, cons, builtin, named_type, generic_type, ref_type, raw_ptr_type, is_error,
}

-- `ast::TypeRef`, without its range
mutual
  -- name, args, prefixes, is_ref, is_mut_ref, is_raw_ptr, raw_mut, nullable
  pub data TypeRef : Type 0 where
    type_ref : Bytes → TypeRefs → List Bytes → Bool → Bool → Bool → Bool → Bool → TypeRef

  pub data TypeRefs : Type 0 where
    none_left : TypeRefs
    one_more : TypeRef → TypeRefs → TypeRefs

abbrev set_nullable : Bool → Ty → Ty
set_nullable u (ty k n a p m _) = ty k n a p m u

-- one prefix of the loop in `type_from_ast`; another text is passed over
unfoldable pub apply_prefix : Bytes → Ty → Ty
unfolding ref_type raw_ptr_type
apply_prefix x t =
    if str_eq x (codes "&")
    then ref_type t false
    else if str_eq x (codes "&mut")
    then ref_type t true
    else if str_eq x (codes "*const")
    then raw_ptr_type t false
    else if str_eq x (codes "*mut")
    then raw_ptr_type t true
    else t

-- the prefixes, the innermost last
unfoldable pub apply_prefixes : List Bytes → Ty → Ty
unfolding apply_prefix
apply_prefixes [] t = t
apply_prefixes (x ∷ xs) t = apply_prefix x (apply_prefixes xs t)

unfoldable pub finish_type : List Bytes → Bool → Bool → Bool → Bool → Ty → Ty
unfolding apply_prefixes ref_type raw_ptr_type
finish_type (x ∷ xs) is_ref mut_ref is_raw raw_mut t = apply_prefixes (x ∷ xs) t
finish_type [] is_ref mut_ref is_raw raw_mut t =
    if is_ref then ref_type t mut_ref else if is_raw then raw_ptr_type t raw_mut else t

-- the base of a type: a generic name in scope, a built-in type, or a named type with arguments
unfoldable pub base_type : Bytes → Tys → List Bytes → Ty
unfolding generic_type builtin named_type contains is_error
base_type n args generics =
    if contains n generics
    then generic_type n
    else if is_error (builtin n)
    then named_type n args
    else builtin n

unfoldable mutual
  unfolding base_type finish_type

  -- `type_from_ast`
  pub type_from_ast : TypeRef → List Bytes → Ty
  type_from_ast (type_ref n args prefixes is_ref mut_ref is_raw raw_mut nullable) generics =
      finish_type prefixes is_ref mut_ref is_raw raw_mut
        (set_nullable nullable (base_type n (types_from_ast args generics) generics))

  pub types_from_ast : TypeRefs → List Bytes → Tys
  types_from_ast none_left generics = nil
  types_from_ast (one_more r rs) generics =
      cons (type_from_ast r generics) (types_from_ast rs generics)
