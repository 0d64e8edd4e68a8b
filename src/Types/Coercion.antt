-- ===== src/Types/Coercion.antt =====
-- `can_coerce`: what it allows, and that it composes.
use uinx.Prelude.{
  or_cases, not, if◌then◌else◌, ◌||◌, subst, and_right, ◌∙◌, and_left, ◌&&◌, ◌≡◌, ◌⊎◌, ◌↔◌, refl,
  sym, Bool, true, false, Bytes, inl, inr,
}
use uinx.Types.{
  rank, kind_eq, TypeKind, Ty, Tys, Pointee, ty, null, to, ty_eq, is_error, coerce_mut, can_coerce,
  coerce_pointee, kind_of,
}
use uinx.Types.Equality.{ty_eq_iff, ty_eq_refl, kind_eq_iff}

-- A reference of mutability `m` serves as one of mutability `m'`: an exclusive one as either.
abbrev pub Serves : Bool → Bool → Type 0
Serves m m' = m' ≡ true → m ≡ true

-- The coercions, as rules.
pub data Coerces : Ty → Ty → Type 0 where
  same : {t : Ty} → Coerces t t
  from_error : {f t : Ty} → kind_of f ≡ TypeKind.error → Coerces f t
  to_error : {f t : Ty} → kind_of t ≡ TypeKind.error → Coerces f t
  through_ref :
      {f t : Ty} {n n' : Bytes} {a a' : Tys} {m m' u u' : Bool}
      → Serves m m'
      → Coerces f t
      → Coerces (ty TypeKind.ref n a (to f) m u) (ty TypeKind.ref n' a' (to t) m' u')
  through_ptr :
      {f t : Ty} {n n' : Bytes} {a a' : Tys} {m m' u u' : Bool}
      → Serves m m'
      → Coerces f t
      → Coerces (ty TypeKind.raw_ptr n a (to f) m u) (ty TypeKind.raw_ptr n' a' (to t) m' u')

coerce_mut_iff :
    (m m' inner : Bool) → (coerce_mut m m' inner ≡ true) ↔ (Serves m m' × (inner ≡ true))
unfolding coerce_mut
coerce_mut_iff true true inner = (λ e. (λ s. refl, e), λ p. p.1)
coerce_mut_iff true false inner = (λ e. (λ s. refl, e), λ p. p.1)
coerce_mut_iff false true inner = (λ e. cc, λ p. cc (p.0 refl))
coerce_mut_iff false false inner = (λ e. (λ s. s, e), λ p. p.1)

is_error_iff : (t : Ty) → (is_error t ≡ true) ↔ (kind_of t ≡ TypeKind.error)
unfolding is_error
is_error_iff t = kind_eq_iff (kind_of t) TypeKind.error

abbrev PointeeCoerces : Pointee → Pointee → Type 0
PointeeCoerces null p = ⊥
PointeeCoerces (to t) null = ⊥
PointeeCoerces (to t) (to t') = Coerces t t'

through :
    (k : TypeKind) (n n' : Bytes) (a a' : Tys) (p p' : Pointee) (m m' u u' : Bool)
    → (k ≡ TypeKind.ref) ⊎ (k ≡ TypeKind.raw_ptr)
    → Serves m m'
    → PointeeCoerces p p'
    → Coerces (ty k n a p m u) (ty k n' a' p' m' u')
through k n n' a a' null p' m m' u u' e s c = absurd c
through k n n' a a' (to t) null m m' u u' e s c = absurd c
through k n n' a a' (to t) (to t') m m' u u' (inl e) s c = rw e (through_ref s c)
through k n n' a a' (to t) (to t') m m' u u' (inr e) s c = rw e (through_ptr s c)

and_true : (a b : Bool) → (a && b) ≡ true → (a ≡ true) × (b ≡ true)
and_true a b h = (and_left a b h, and_right a b h)

-- the two tests on kinds
both_kinds : (j k k' : TypeKind) → (kind_eq k j && kind_eq k' j) ≡ true → (k ≡ j) × (k' ≡ k)
both_kinds j k k' h =
    let (x, y) = and_true (kind_eq k j) (kind_eq k' j) h in
    let e = (kind_eq_iff k j).0 x in (e, (kind_eq_iff k' j).0 y ∙ sym e)

if_only : (b x y : Bool) → (if b then x else y) ≡ true → ((b ≡ true) × (x ≡ true)) ⊎ (y ≡ true)
if_only true x y h = inl (refl, h)
if_only false x y h = inr h

-- one level of `can_coerce`, given what it says of the pointees
module _ (k k' : TypeKind) (n n' : Bytes) (a a' : Tys) (p p' : Pointee) (m m' u u' : Bool) where
  pointers_sound :
      (j : TypeKind)
      → (j ≡ TypeKind.ref) ⊎ (j ≡ TypeKind.raw_ptr)
      → (coerce_pointee p p' ≡ true → PointeeCoerces p p')
      → ((kind_eq k j && kind_eq k' j) ≡ true) × (coerce_mut m m' (coerce_pointee p p') ≡ true)
      → Coerces (ty k n a p m u) (ty k' n' a' p' m' u')
  pointers_sound j e inner (kinds, h) =
      let (x, y) = both_kinds j k k' kinds in
      let (s, c) = (coerce_mut_iff m m' (coerce_pointee p p')).0 h in
      rw (y, x) (through j n n' a a' p p' m m' u u' e s (inner c))

  level_sound :
      (coerce_pointee p p' ≡ true → PointeeCoerces p p')
      → can_coerce (ty k n a p m u) (ty k' n' a' p' m' u') ≡ true
      → Coerces (ty k n a p m u) (ty k' n' a' p' m' u')
  unfolding can_coerce
  level_sound inner h =
      let f = ty k n a p m u in
      let t = ty k' n' a' p' m' u' in
      let refs = kind_eq k TypeKind.ref && kind_eq k' TypeKind.ref in
      let ptrs = kind_eq k TypeKind.raw_ptr && kind_eq k' TypeKind.raw_ptr in
      let deep = coerce_mut m m' (coerce_pointee p p') in
      elim (if_only (ty_eq f t || (is_error f || is_error t)) true
        (if refs then deep else if ptrs then deep else false) h) [
          | inl (top, _) ↦ elim (or_cases (ty_eq f t) (is_error f || is_error t) top) [
            | inl e ↦ subst (Coerces f) ((ty_eq_iff f t).0 e) same
            | inr e ↦ elim (or_cases (is_error f) (is_error t) e) [
              | inl x ↦ from_error ((is_error_iff f).0 x)
              | inr x ↦ to_error ((is_error_iff t).0 x)
            ]
          ]
          | inr rest ↦ elim (if_only refs deep (if ptrs then deep else false) rest) [
            | inl both ↦ pointers_sound TypeKind.ref (inl refl) inner both
            | inr rest' ↦ elim (if_only ptrs deep false rest') [
              | inl both ↦ pointers_sound TypeKind.raw_ptr (inr refl) inner both
              | inr never ↦ cc
            ]
          ]
        ]

mutual
  unfolding can_coerce

  coerce_sound : (f t : Ty) → can_coerce f t ≡ true → Coerces f t
  coerce_sound (ty k n a p m u) (ty k' n' a' p' m' u') h =
      level_sound k k' n n' a a' p p' m m' u u' (pointee_sound p p') h

  pointee_sound : (p p' : Pointee) → coerce_pointee p p' ≡ true → PointeeCoerces p p'
  pointee_sound null p' h = cc
  pointee_sound (to t) null h = cc
  pointee_sound (to t) (to t') h = coerce_sound t t' h

top-coerces : (f t : Ty) → (ty_eq f t || (is_error f || is_error t)) ≡ true → can_coerce f t ≡ true
unfolding can_coerce
top-coerces (ty k n a p m u) (ty k' n' a' p' m' u') h = rw h

or_left : (a b : Bool) → a ≡ true → (a || b) ≡ true
or_left a b h = rw h

or_right : (a b : Bool) → b ≡ true → (a || b) ≡ true
or_right true b h = refl
or_right false b h = h

if_true : (b x : Bool) → x ≡ true → (if b then true else x) ≡ true
if_true true x h = refl
if_true false x h = h

pointers-coerce :
    (n n' : Bytes) (a a' : Tys) (f t : Ty) (m m' u u' : Bool)
    → coerce_mut m m' (can_coerce f t) ≡ true
    → (can_coerce (ty TypeKind.ref n a (to f) m u) (ty TypeKind.ref n' a' (to t) m' u') ≡ true)
      × (can_coerce (ty TypeKind.raw_ptr n a (to f) m u) (ty TypeKind.raw_ptr n' a' (to t) m' u')
          ≡ true)
unfolding can_coerce rank
pointers-coerce n n' a a' f t m m' u u' h = (if_true _ _ h, if_true _ _ h)

coerce_complete : (f t : Ty) → Coerces f t → can_coerce f t ≡ true
coerce_complete f t same = top-coerces f f (or_left _ _ (ty_eq_refl f))
coerce_complete f t (from_error e) =
    top-coerces f t (or_right (ty_eq f t) _ (or_left _ _ ((is_error_iff f).1 e)))
coerce_complete f t (to_error e) =
    top-coerces f t (or_right (ty_eq f t) _ (or_right (is_error f) _ ((is_error_iff t).1 e)))
coerce_complete _ _ (through_ref {f} {t} {n} {n'} {a} {a'} {m} {m'} {u} {u'} s c) =
    (pointers-coerce n n' a a' f t m m' u u'
      ((coerce_mut_iff m m' (can_coerce f t)).1 (s, coerce_complete f t c))).0
coerce_complete _ _ (through_ptr {f} {t} {n} {n'} {a} {a'} {m} {m'} {u} {u'} s c) =
    (pointers-coerce n n' a a' f t m m' u u'
      ((coerce_mut_iff m m' (can_coerce f t)).1 (s, coerce_complete f t c))).1

-- A type coerces to another exactly by the rules: to itself, from and to the error type, and through
-- references and through raw pointers, where an exclusive one also serves as a shared one, and the
-- pointees coerce by the same rules.
pub can_coerce_iff : (f t : Ty) → (can_coerce f t ≡ true) ↔ Coerces f t
can_coerce_iff f t = (coerce_sound f t, coerce_complete f t)

unfoldable mutual
  -- The error type stands neither at the top nor behind pointers.
  pub is_error_free : Ty → Bool
  is_error_free (ty k n a p m u) = not (kind_eq k TypeKind.error) && is_error_free_pointee p

  pub is_error_free_pointee : Pointee → Bool
  is_error_free_pointee null = true
  is_error_free_pointee (to t) = is_error_free t

error-not_free : (t : Ty) → kind_of t ≡ TypeKind.error → is_error_free t ≡ false
unfolding is_error_free
error-not_free (ty k n a p m u) e = rw ((kind_eq_iff k TypeKind.error).1 e)

pointee_free :
    (k : TypeKind) (n : Bytes) (a : Tys) (t : Ty) (m u : Bool)
    → is_error_free (ty k n a (to t) m u) ≡ true
    → is_error_free t ≡ true
unfolding is_error_free
pointee_free k n a t m u h = and_right (not (kind_eq k TypeKind.error)) (is_error_free t) h

Coerces-trans : {f g t : Ty} → Coerces f g → Coerces g t → is_error_free g ≡ true → Coerces f t
Coerces-trans same d h = d
Coerces-trans (from_error e) d h = from_error e
Coerces-trans {g = g} (to_error e) d h = absurd (cc (error-not_free g e))
Coerces-trans (through_ref s c) same h = through_ref s c
Coerces-trans (through_ref s c) (from_error e) h = cc
Coerces-trans (through_ref s c) (to_error e) h = to_error e
Coerces-trans (through_ref {t = g} {n' = n} {a' = a} {m' = m} {u' = u} s c) (through_ref s' c') h =
    through_ref (λ x. s (s' x)) (Coerces-trans c c' (pointee_free TypeKind.ref n a g m u h))
Coerces-trans (through_ptr s c) same h = through_ptr s c
Coerces-trans (through_ptr s c) (from_error e) h = cc
Coerces-trans (through_ptr s c) (to_error e) h = to_error e
Coerces-trans (through_ptr {t = g} {n' = n} {a' = a} {m' = m} {u' = u} s c) (through_ptr s' c') h =
    through_ptr (λ x. s (s' x)) (Coerces-trans c c' (pointee_free TypeKind.raw_ptr n a g m u h))

-- Coercions compose, unless the type between them is, or points to, the error type.
pub can_coerce_trans :
    (f g t : Ty)
    → can_coerce f g ≡ true
    → can_coerce g t ≡ true
    → is_error_free g ≡ true
    → can_coerce f t ≡ true
can_coerce_trans f g t p q h =
    coerce_complete f t (Coerces-trans (coerce_sound f g p) (coerce_sound g t q) h)
