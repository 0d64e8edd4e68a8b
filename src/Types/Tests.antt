-- ===== src/Types/Tests.antt =====
-- Runs of the functions on types.
use uinx.Prelude.{str_eq, codes, ◌≡◌, ◌↔◌, refl, List, [], ◌∷◌, Bytes, true, false, find}
use uinx.Types.{
  is_error, TypeKind, Ty, ty, nil, cons, null, to, type_str, substitute_type, can_coerce, rank,
  is_error, coerce_mut, ty_eq,
}
use uinx.Types.Coercion.{Coerces, is_error_free, can_coerce_iff, can_coerce_trans}
use uinx.Types.Equality.{ty_eq_iff}
use uinx.Types.FromAst.{TypeRef, type_from_ast, type_ref, none_left, one_more}
use uinx.Types.Substitution.{AreConcrete, is_concrete, is_covered, substitute_type-is_concrete}

abbrev ast_i32 : TypeRef
ast_i32 = type_ref (codes "i32") none_left [] false false false false false

type_str-named :
    type_str (
      type_from_ast
        (type_ref
          (codes "Box")
          (one_more ast_i32 (one_more ast_i32 none_left))
          (codes "&mut" ∷ codes "*const" ∷ [])
          false
          false
          false
          false
          true)
        [])
    ≡ codes "mutref ptr Box<i32, i32>?"
unfolding type_str type_from_ast str_eq
type_str-named = refl

-- `i32`, `mutref i32` and `ref i32`
abbrev number : Ty
number = ty TypeKind.i32 (codes "i32") nil null false false

abbrev exclusive : Ty
exclusive = ty TypeKind.ref [] nil (to number) true false

abbrev shared : Ty
shared = ty TypeKind.ref [] nil (to number) false false

can_coerce_iff_example : (can_coerce exclusive shared ≡ true) ↔ Coerces exclusive shared
can_coerce_iff_example = can_coerce_iff exclusive shared

exclusive-shared : can_coerce exclusive shared ≡ true
unfolding can_coerce ty_eq str_eq rank is_error coerce_mut
exclusive-shared = refl

shared-shared : can_coerce shared shared ≡ true
unfolding can_coerce ty_eq str_eq rank is_error coerce_mut
shared-shared = refl

shared-is_error_free : is_error_free shared ≡ true
unfolding is_error_free rank
shared-is_error_free = refl

can_coerce_trans_example : can_coerce exclusive shared ≡ true
can_coerce_trans_example =
    can_coerce_trans exclusive shared shared exclusive-shared shared-shared shared-is_error_free

ty_eq_iff_example : (ty_eq exclusive shared ≡ true) ↔ (exclusive ≡ shared)
ty_eq_iff_example = ty_eq_iff exclusive shared

-- `T` is `i32` in `Box<T>`
abbrev table : List (Bytes × Ty)
table = (codes "T", number) ∷ []

abbrev box : Ty
box =
    ty TypeKind.named (codes "Box")
      (cons (ty TypeKind.generic (codes "T") nil null false false) nil) null false false

table-AreConcrete : AreConcrete table
unfolding is_concrete
table-AreConcrete = (refl, _)

box-is_covered : is_covered table box ≡ true
unfolding is_covered find str_eq
box-is_covered = refl

substitute_type-is_concrete_example :
    (is_concrete (substitute_type box table) ≡ true)
    × (substitute_type (substitute_type box table) [] ≡ substitute_type box table)
substitute_type-is_concrete_example =
    substitute_type-is_concrete table [] box table-AreConcrete box-is_covered
