-- ===== src/Types/Substitution.antt =====
-- Substitution of the generics of a type, as in the specialisation of a function.
use uinx.Prelude.{
  ◌≡◌, ◌&&◌, ◌∷◌, refl, Bool, true, false, List, [], Bytes, str_eq, find, Option, none, some, All,
  Bool-cases, Option-cases, inl, inr, and_left, and_right,
}
use uinx.Types.{
  TypeKind, Ty, Tys, Pointee, ty, nil, cons, null, to, subst_or, substitute_type, substitute_types,
  substitute_pointee,
}

abbrev is_some : Option Ty → Bool
is_some none = false
is_some (some t) = true

unfoldable mutual
  -- No generic stands in the type.
  pub is_concrete : Ty → Bool
  is_concrete (ty TypeKind.generic n a p m u) = false
  is_concrete (ty k n a p m u) = are_concrete a && is_concrete_pointee p

  pub are_concrete : Tys → Bool
  are_concrete nil = true
  are_concrete (cons t ts) = is_concrete t && are_concrete ts

  pub is_concrete_pointee : Pointee → Bool
  is_concrete_pointee null = true
  is_concrete_pointee (to t) = is_concrete t

unfoldable mutual
  -- The map has an entry for every generic of the type.
  pub is_covered : List (Bytes × Ty) → Ty → Bool
  is_covered s (ty TypeKind.generic n a p m u) = is_some (find n s)
  is_covered s (ty k n a p m u) = are_covered s a && is_covered_pointee s p

  pub are_covered : List (Bytes × Ty) → Tys → Bool
  are_covered s nil = true
  are_covered s (cons t ts) = is_covered s t && are_covered s ts

  pub is_covered_pointee : List (Bytes × Ty) → Pointee → Bool
  is_covered_pointee s null = true
  is_covered_pointee s (to t) = is_covered s t

-- The types of the map are concrete.
abbrev pub AreConcrete : List (Bytes × Ty) → Type 0
AreConcrete s = All (λ (e : Bytes × Ty). is_concrete e.1 ≡ true) s

find-is_concrete :
    (n : Bytes) (s : List (Bytes × Ty)) (t : Ty)
    → AreConcrete s
    → find n s ≡ some t
    → is_concrete t ≡ true
unfolding find
find-is_concrete n [] t c e = cc
find-is_concrete n ((j, r) ∷ s) t c e = elim (Bool-cases (str_eq j n)) [
  | inl same ↦
      let found : some r ≡ some t = rw (same, find) at e in let r=t : r ≡ t = cc in rw (← r=t) c.0
  | inr other ↦ find-is_concrete n s t c.1 (rw (other, find) at e)
]

generic-is_concrete :
    (n : Bytes) (s : List (Bytes × Ty)) (t : Ty)
    → AreConcrete s
    → is_some (find n s) ≡ true
    → is_concrete (subst_or t (find n s)) ≡ true
generic-is_concrete n s t c h = elim (Option-cases (find n s)) [
  | inl e ↦ cc (rw e at h)
  | inr (r, e) ↦ rw e (find-is_concrete n s r c e)
]

and_both : (a b : Bool) → a ≡ true → b ≡ true → (a && b) ≡ true
and_both a b p q = rw p q

module _ (s : List (Bytes × Ty)) (c : AreConcrete s) where
  mutual
    unfolding substitute_type is_concrete is_covered

    covered-concrete : (t : Ty) → is_covered s t ≡ true → is_concrete (substitute_type t s) ≡ true
    covered-concrete (ty TypeKind.generic n a p m u) h = generic-is_concrete n s _ c h
    covered-concrete (ty _ n a p m u) h =
        and_both _ _ (all_covered-concrete a (and_left _ _ h))
          (pointee_covered-concrete p (and_right _ _ h))

    all_covered-concrete :
        (ts : Tys) → are_covered s ts ≡ true → are_concrete (substitute_types ts s) ≡ true
    all_covered-concrete nil h = refl
    all_covered-concrete (cons t ts) h =
        and_both _ _ (covered-concrete t (and_left _ _ h))
          (all_covered-concrete ts (and_right _ _ h))

    pointee_covered-concrete :
        (p : Pointee)
        → is_covered_pointee s p ≡ true
        → is_concrete_pointee (substitute_pointee p s) ≡ true
    pointee_covered-concrete null h = refl
    pointee_covered-concrete (to t) h = covered-concrete t h

mutual
  unfolding substitute_type is_concrete

  concrete-same : (t : Ty) (s : List (Bytes × Ty)) → is_concrete t ≡ true → substitute_type t s ≡ t
  concrete-same (ty TypeKind.generic n a p m u) s h = cc
  concrete-same (ty k n a p m u) s h =
      let args : are_concrete a ≡ true = and_left (are_concrete a) (is_concrete_pointee p) h in
      let target : is_concrete_pointee p ≡ true =
        and_right (are_concrete a) (is_concrete_pointee p) h in
      cc (all_concrete-same a s args, pointee_concrete-same p s target)

  all_concrete-same :
      (ts : Tys) (s : List (Bytes × Ty)) → are_concrete ts ≡ true → substitute_types ts s ≡ ts
  all_concrete-same nil s h = refl
  all_concrete-same (cons t ts) s h =
      let first : is_concrete t ≡ true = and_left (is_concrete t) (are_concrete ts) h in
      let others : are_concrete ts ≡ true = and_right (is_concrete t) (are_concrete ts) h in
      cc (concrete-same t s first, all_concrete-same ts s others)

  pointee_concrete-same :
      (p : Pointee) (s : List (Bytes × Ty))
      → is_concrete_pointee p ≡ true
      → substitute_pointee p s ≡ p
  pointee_concrete-same null s h = refl
  pointee_concrete-same (to t) s h = cc (concrete-same t s h)

-- A substitution by concrete types that has an entry for every generic of a type leaves no generic
-- in it, and no substitution changes the result any more.
pub substitute_type-is_concrete :
    (s r : List (Bytes × Ty)) (t : Ty)
    → AreConcrete s
    → is_covered s t ≡ true
    → (is_concrete (substitute_type t s) ≡ true)
      × (substitute_type (substitute_type t s) r ≡ substitute_type t s)
substitute_type-is_concrete s r t c h =
    let done = covered-concrete s c t h in (done, concrete-same (substitute_type t s) r done)
