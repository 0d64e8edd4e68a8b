-- ===== src/Types.antt =====
-- include/uinx/types.hpp and src/types.cpp: the compiler's types, their equality, substitution and
-- coercion. A type holds the list of its arguments and a pointer that may be null, so the three are
-- declared together; copies of a type share no state, so values stand for the shared pointers.
pub mod Equality
pub mod Substitution
pub mod Coercion
pub mod FromAst
pub mod Printed
mod Tests
use uinx.Prelude.{
  ℕ, Bool, true, false, not, ◌&&◌, ◌||◌, List, [], ◌∷◌, ◌++◌, Bytes, codes, str_eq, find, contains,
  Option, none, some, reverse, ◌==◌, leb, if◌then◌else◌, bool_eq,
}

pub data TypeKind : Type 0 where
  error unit never bool i8 i16 i32 i64 : TypeKind
  i128 u8 u16 u32 u64 u128 isize usize : TypeKind
  f32 f64 char str named generic ref raw_ptr : TypeKind

-- the position of a kind in the enumeration
unfoldable pub rank : TypeKind → ℕ
rank TypeKind.error = 0
rank TypeKind.unit = 1
rank TypeKind.never = 2
rank TypeKind.bool = 3
rank TypeKind.i8 = 4
rank TypeKind.i16 = 5
rank TypeKind.i32 = 6
rank TypeKind.i64 = 7
rank TypeKind.i128 = 8
rank TypeKind.u8 = 9
rank TypeKind.u16 = 10
rank TypeKind.u32 = 11
rank TypeKind.u64 = 12
rank TypeKind.u128 = 13
rank TypeKind.isize = 14
rank TypeKind.usize = 15
rank TypeKind.f32 = 16
rank TypeKind.f64 = 17
rank TypeKind.char = 18
rank TypeKind.str = 19
rank TypeKind.named = 20
rank TypeKind.generic = 21
rank TypeKind.ref = 22
rank TypeKind.raw_ptr = 23

abbrev pub kind_eq : TypeKind → TypeKind → Bool
kind_eq a b = rank a == rank b

mutual
  -- kind, name, args, pointee, mut, nullable
  pub data Ty : Type 0 where
    ty : TypeKind → Bytes → Tys → Pointee → Bool → Bool → Ty

  pub data Tys : Type 0 where
    nil : Tys
    cons : Ty → Tys → Tys

  pub data Pointee : Type 0 where
    null : Pointee
    to : Ty → Pointee

abbrev pub kind_of : Ty → TypeKind
kind_of (ty k n a p m u) = k

abbrev pub name_of : Ty → Bytes
name_of (ty k n a p m u) = n

abbrev pub is_mut : Ty → Bool
is_mut (ty k n a p m u) = m

unfoldable pub builtin_kinds : List (Bytes × TypeKind)
builtin_kinds =
    (codes "unit", TypeKind.unit)
    ∷ (codes "never", TypeKind.never)
    ∷ (codes "bool", TypeKind.bool)
    ∷ (codes "i8", TypeKind.i8)
    ∷ (codes "i16", TypeKind.i16)
    ∷ (codes "i32", TypeKind.i32)
    ∷ (codes "i64", TypeKind.i64)
    ∷ (codes "i128", TypeKind.i128)
    ∷ (codes "u8", TypeKind.u8)
    ∷ (codes "u16", TypeKind.u16)
    ∷ (codes "u32", TypeKind.u32)
    ∷ (codes "u64", TypeKind.u64)
    ∷ (codes "u128", TypeKind.u128)
    ∷ (codes "isize", TypeKind.isize)
    ∷ (codes "usize", TypeKind.usize)
    ∷ (codes "f32", TypeKind.f32)
    ∷ (codes "f64", TypeKind.f64)
    ∷ (codes "char", TypeKind.char)
    ∷ (codes "str", TypeKind.str)
    ∷ []

abbrev kind_or_error : Option TypeKind → TypeKind
kind_or_error none = TypeKind.error
kind_or_error (some k) = k

-- `Type::builtin`
unfoldable pub builtin : Bytes → Ty
unfolding find builtin_kinds
builtin n = ty (kind_or_error (find n builtin_kinds)) n nil null false false

-- `Type::named`
unfoldable pub named_type : Bytes → Tys → Ty
named_type n a = ty TypeKind.named n a null false false

-- `Type::generic`
unfoldable pub generic_type : Bytes → Ty
generic_type n = ty TypeKind.generic n nil null false false

-- `Type::ref`
unfoldable pub ref_type : Ty → Bool → Ty
ref_type t m = ty TypeKind.ref [] nil (to t) m false

-- `Type::raw_ptr`
unfoldable pub raw_ptr_type : Ty → Bool → Ty
raw_ptr_type t m = ty TypeKind.raw_ptr [] nil (to t) m false

abbrev is_empty : Bytes → Bool
is_empty [] = true
is_empty (_ ∷ _) = false

-- the name of a type that is no pointer, with its arguments and its mark
unfoldable pub str_named : Bytes → Tys → Bytes → Bool → Bytes
str_named n nil args nullable =
    (if is_empty n then codes "<error>" else n) ++ (if nullable then codes "?" else [])
str_named n (cons _ _) args nullable =
    (if is_empty n then codes "<error>" else n)
    ++ (codes "<" ++ (args ++ (codes ">" ++ (if nullable then codes "?" else []))))

unfoldable mutual
  unfolding str_named

  -- `Type::str`
  pub type_str : Ty → Bytes
  type_str (ty TypeKind.ref n a p m u) =
      (if m then codes "mutref " else codes "ref ") ++ str_pointee p
  type_str (ty TypeKind.raw_ptr n a p m u) =
      (if m then codes "mutptr " else codes "ptr ") ++ str_pointee p
  type_str (ty _ n a p m u) = str_named n a (str_args a) u

  pub str_pointee : Pointee → Bytes
  str_pointee null = codes "<error>"
  str_pointee (to t) = type_str t

  -- the loop over the arguments, with a comma before each but the first
  pub str_args : Tys → Bytes
  str_args nil = []
  str_args (cons t nil) = type_str t
  str_args (cons t (cons t' ts)) = type_str t ++ (codes ", " ++ str_args (cons t' ts))

-- `kind >= TypeKind::I8 && kind <= TypeKind::Usize`
unfoldable pub is_integer : Ty → Bool
unfolding rank
is_integer t =
    leb (rank TypeKind.i8) (rank (kind_of t)) && leb (rank (kind_of t)) (rank TypeKind.usize)

unfoldable pub is_float : Ty → Bool
unfolding rank
is_float t = kind_eq (kind_of t) TypeKind.f32 || kind_eq (kind_of t) TypeKind.f64

unfoldable pub is_numeric : Ty → Bool
unfolding is_integer is_float
is_numeric t = is_integer t || is_float t

unfoldable pub is_copy : Ty → Bool
unfolding is_numeric rank
is_copy t =
    kind_eq (kind_of t) TypeKind.bool
    || is_numeric t
    || kind_eq (kind_of t) TypeKind.char
    || (kind_eq (kind_of t) TypeKind.ref && not (is_mut t))
    || kind_eq (kind_of t) TypeKind.raw_ptr
    || kind_eq (kind_of t) TypeKind.unit

unfoldable pub is_error : Ty → Bool
unfolding rank
is_error t = kind_eq (kind_of t) TypeKind.error

unfoldable pub is_unit : Ty → Bool
unfolding rank
is_unit t = kind_eq (kind_of t) TypeKind.unit

unfoldable mutual
  -- `Type::operator==`
  pub ty_eq : Ty → Ty → Bool
  ty_eq (ty k n a p m u) (ty k' n' a' p' m' u') =
      kind_eq k k'
      && (str_eq n n' && (bool_eq m m' && (bool_eq u u' && (tys_eq a a' && pointee_eq p p'))))

  -- `operator==` of the vectors of arguments
  pub tys_eq : Tys → Tys → Bool
  tys_eq nil nil = true
  tys_eq nil (cons t ts) = false
  tys_eq (cons t ts) nil = false
  tys_eq (cons t ts) (cons t' ts') = ty_eq t t' && tys_eq ts ts'

  pub pointee_eq : Pointee → Pointee → Bool
  pointee_eq null null = true
  pointee_eq null (to t) = false
  pointee_eq (to t) null = false
  pointee_eq (to t) (to t') = ty_eq t t'

abbrev subst_or : Ty → Option Ty → Ty
subst_or t none = t
subst_or t (some r) = r

unfoldable mutual
  -- `substitute_type`
  pub substitute_type : Ty → List (Bytes × Ty) → Ty
  substitute_type (ty TypeKind.generic n a p m u) s =
      subst_or (ty TypeKind.generic n a p m u) (find n s)
  substitute_type (ty k n a p m u) s = ty k n (substitute_types a s) (substitute_pointee p s) m u

  pub substitute_types : Tys → List (Bytes × Ty) → Tys
  substitute_types nil s = nil
  substitute_types (cons t ts) s = cons (substitute_type t s) (substitute_types ts s)

  pub substitute_pointee : Pointee → List (Bytes × Ty) → Pointee
  substitute_pointee null s = null
  substitute_pointee (to t) s = to (substitute_type t s)

-- The rule for two references, and for two raw pointers, given the answer for the pointees.
unfoldable pub coerce_mut : Bool → Bool → Bool → Bool
coerce_mut from_mut to_mut inner =
    if from_mut && not to_mut then inner else bool_eq from_mut to_mut && inner

unfoldable mutual
  -- `can_coerce`
  pub can_coerce : Ty → Ty → Bool
  can_coerce (ty k n a p m u) (ty k' n' a' p' m' u') =
      if ty_eq (ty k n a p m u) (ty k' n' a' p' m' u')
        || (is_error (ty k n a p m u) || is_error (ty k' n' a' p' m' u'))
      then true
      else if kind_eq k TypeKind.ref && kind_eq k' TypeKind.ref
      then coerce_mut m m' (coerce_pointee p p')
      else if kind_eq k TypeKind.raw_ptr && kind_eq k' TypeKind.raw_ptr
      then coerce_mut m m' (coerce_pointee p p')
      else false

  -- a null pointee on either side is refused
  pub coerce_pointee : Pointee → Pointee → Bool
  coerce_pointee null p = false
  coerce_pointee (to t) null = false
  coerce_pointee (to t) (to t') = can_coerce t t'
