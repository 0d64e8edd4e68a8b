-- ===== src/Types/Equality.antt =====
-- `operator==` of types decides equality.
use uinx.Prelude.{
  ℕ, ◌==◌, ◌≡◌, ◌↔◌, ◌∙◌, refl, sym, ap, arith, if◌then◌else◌, Bool, true, str_eq_iff, bool_eq,
  ==_iff,
}
use uinx.Types.{
  TypeKind, rank, kind_eq, Ty, Tys, Pointee, ty, nil, cons, null, to, ty_eq, tys_eq, pointee_eq,
}

of_rank : ℕ → TypeKind
of_rank r =
    if r == 0
    then TypeKind.error
    else if r == 1
    then TypeKind.unit
    else if r == 2
    then TypeKind.never
    else if r == 3
    then TypeKind.bool
    else if r == 4
    then TypeKind.i8
    else if r == 5
    then TypeKind.i16
    else if r == 6
    then TypeKind.i32
    else if r == 7
    then TypeKind.i64
    else if r == 8
    then TypeKind.i128
    else if r == 9
    then TypeKind.u8
    else if r == 10
    then TypeKind.u16
    else if r == 11
    then TypeKind.u32
    else if r == 12
    then TypeKind.u64
    else if r == 13
    then TypeKind.u128
    else if r == 14
    then TypeKind.isize
    else if r == 15
    then TypeKind.usize
    else if r == 16
    then TypeKind.f32
    else if r == 17
    then TypeKind.f64
    else if r == 18
    then TypeKind.char
    else if r == 19
    then TypeKind.str
    else if r == 20
    then TypeKind.named
    else if r == 21
    then TypeKind.generic
    else if r == 22
    then TypeKind.ref
    else TypeKind.raw_ptr

of_rank-rank : (k : TypeKind) → of_rank (rank k) ≡ k
unfolding of_rank rank
of_rank-rank TypeKind.error = refl
of_rank-rank TypeKind.unit = refl
of_rank-rank TypeKind.never = refl
of_rank-rank TypeKind.bool = refl
of_rank-rank TypeKind.i8 = refl
of_rank-rank TypeKind.i16 = refl
of_rank-rank TypeKind.i32 = refl
of_rank-rank TypeKind.i64 = refl
of_rank-rank TypeKind.i128 = refl
of_rank-rank TypeKind.u8 = refl
of_rank-rank TypeKind.u16 = refl
of_rank-rank TypeKind.u32 = refl
of_rank-rank TypeKind.u64 = refl
of_rank-rank TypeKind.u128 = refl
of_rank-rank TypeKind.isize = refl
of_rank-rank TypeKind.usize = refl
of_rank-rank TypeKind.f32 = refl
of_rank-rank TypeKind.f64 = refl
of_rank-rank TypeKind.char = refl
of_rank-rank TypeKind.str = refl
of_rank-rank TypeKind.named = refl
of_rank-rank TypeKind.generic = refl
of_rank-rank TypeKind.ref = refl
of_rank-rank TypeKind.raw_ptr = refl

pub kind_eq_iff : (k j : TypeKind) → (kind_eq k j ≡ true) ↔ (k ≡ j)
kind_eq_iff k j = (
  λ e. sym (of_rank-rank k) ∙ ap of_rank ((==_iff (rank k) (rank j)).0 e) ∙ of_rank-rank j,
  λ e. (==_iff (rank k) (rank j)).1 (ap rank e),
)

bool_eq_iff : (a b : Bool) → (bool_eq a b ≡ true) ↔ (a ≡ b)
bool_eq_iff a b = ground arith

mutual
  unfolding ty_eq

  eq_iff : (a b : Ty) → (ty_eq a b ≡ true) ↔ (a ≡ b)
  eq_iff (ty k n a p m u) (ty k' n' a' p' m' u') = ground (
    arith,
    kind_eq_iff k k',
    str_eq_iff n n',
    bool_eq_iff m m',
    bool_eq_iff u u',
    args_eq_iff a a',
    pointee_eq_iff p p',
  )

  args_eq_iff : (a b : Tys) → (tys_eq a b ≡ true) ↔ (a ≡ b)
  args_eq_iff nil nil = ground arith
  args_eq_iff nil (cons t ts) = ground arith
  args_eq_iff (cons t ts) nil = ground arith
  args_eq_iff (cons t ts) (cons t' ts') = ground (arith, eq_iff t t', args_eq_iff ts ts')

  pointee_eq_iff : (a b : Pointee) → (pointee_eq a b ≡ true) ↔ (a ≡ b)
  pointee_eq_iff null null = ground arith
  pointee_eq_iff null (to t) = ground arith
  pointee_eq_iff (to t) null = ground arith
  pointee_eq_iff (to t) (to t') = ground (arith, eq_iff t t')

-- Two types compare equal exactly when they agree in kind, name, arguments, pointee, mutability and
-- nullability, at every depth.
pub ty_eq_iff : (a b : Ty) → (ty_eq a b ≡ true) ↔ (a ≡ b)
ty_eq_iff = eq_iff

pub ty_eq_refl : (a : Ty) → ty_eq a a ≡ true
ty_eq_refl a = (eq_iff a a).1 refl
