-- ===== src/Borrow/Uses/Exact.antt =====
-- What `expression_uses` and `expression_place_uses` of src/borrow_liveness.cpp find in an expression.
use uinx.Prelude.{
  true, false, ◌&&◌, List, [], ◌∷◌, ◌++◌, Bytes, contains, map, str_eq, str_eq_iff, Option, none,
  some, ◌≡◌, refl, sym, ◌∙◌, ◌⊎◌, ◌↔◌, inl, inr, arith, or_cases, or_first, or_second, ap, subst,
  ◌==◌, if◌then◌else◌, and_left, and_right, ℕ,
}
use uinx.Borrow.Places.{root_of}
use uinx.Borrow.Tree
use uinx.Borrow.Tree.{Hir, Expr, place_of}
use uinx.Borrow.Uses.{
  expression_uses, expression_place_uses, own_roots, own_places, parents, root_found, place_found,
  collect_uses,
}
use uinx.Borrow.Uses.Collected.{owns, contains-collect_uses}
use uinx.Borrow.Uses.Found.{At, used-Found, Within-used}
use uinx.Borrow.Uses.Parts.{Within, WritesName}

-- a name whose key has the root `x`
pub data NameOf (hir : Hir) (x : Bytes) : Expr → Type 0 where
  name_of :
      {a : ℕ} {name p : Bytes}
      → place_of hir (Tree.name_expr a name) ≡ some p
      → root_of p ≡ x
      → NameOf hir x (Tree.name_expr a name)

-- an expression whose place is `x`, or is inside `x`
abbrev pub PlaceIn : Hir → Bytes → Expr → Type 0
PlaceIn hir x s =
    (p : Bytes) × (place_of hir s ≡ some p) × ((x ≡ p) ⊎ ((rest : Bytes) × (x ++ b'.' ∷ rest ≡ p)))

own_roots-NameOf :
    (hir : Hir) (x : Bytes) (s : Expr) → contains x (own_roots hir s) ≡ true → NameOf hir x s
unfolding own_roots contains place_of
own_roots-NameOf hir x (Tree.name_expr a name) h =
    name_of refl ((str_eq_iff _ x).0 (ground (arith, h)))
own_roots-NameOf hir x s h = cc

NameOf-own_roots :
    (hir : Hir) (x : Bytes) {s : Expr} → NameOf hir x s → contains x (own_roots hir s) ≡ true
unfolding own_roots contains
NameOf-own_roots hir x (name_of e q) =
    subst (λ o. contains x (root_found o) ≡ true) (sym e) (or_first _ _ ((str_eq_iff _ x).1 q))

contains-map_cons :
    (c d : ℕ) (ds : Bytes) (ps : List Bytes)
    → contains (d ∷ ds) (map (λ p. c ∷ p) ps) ≡ (c == d && contains ds ps)
unfolding contains str_eq
contains-map_cons c d ds [] = ground arith
contains-map_cons c d ds (p ∷ ps) = ground (arith, contains-map_cons c d ds ps)

nil_not_in : (c : ℕ) (ps : List Bytes) → contains [] (map (λ p. c ∷ p) ps) ≡ false
unfolding contains str_eq
nil_not_in c [] = refl
nil_not_in c (p ∷ ps) = nil_not_in c ps

-- the parents of a place from those behind its first byte
abbrev parents_from : ℕ → List Bytes → List Bytes
parents_from c ps = let rest = map (λ p. c ∷ p) ps in if c == b'.' then [] ∷ rest else rest

nil_found : (c : ℕ) (ps : List Bytes) → contains [] (parents_from c ps) ≡ true → c ≡ b'.'
unfolding contains str_eq
nil_found c ps h = ground (arith, h, nil_not_in c ps)

contains-parents_from :
    (c d : ℕ) (ds : Bytes) (ps : List Bytes)
    → contains (d ∷ ds) (parents_from c ps) ≡ (c == d && contains ds ps)
unfolding contains str_eq
contains-parents_from c d ds ps = ground (arith, contains-map_cons c d ds ps)

same_byte : (c d : ℕ) → (c == d) ≡ true → d ≡ c
same_byte c d h = ground (arith, h)

parents_inside :
    (x p : Bytes) → contains x (parents p) ≡ true → (rest : Bytes) × (x ++ b'.' ∷ rest ≡ p)
unfolding parents contains str_eq
parents_inside x [] h = cc
parents_inside [] (c ∷ cs) h = (cs, ap (λ q. q ∷ cs) (sym (nil_found c (parents cs) h)))
parents_inside (d ∷ ds) (c ∷ cs) h =
    let found : (c == d && contains ds (parents cs)) ≡ true =
      sym (contains-parents_from c d ds (parents cs)) ∙ h in
    let (rest, e) = parents_inside ds cs (and_right (c == d) _ found) in
    (rest, ap (λ q. d ∷ q) e ∙ ap (λ q. q ∷ cs) (same_byte c d (and_left _ _ found)))

inside_parents : (x rest : Bytes) → contains x (parents (x ++ b'.' ∷ rest)) ≡ true
unfolding parents contains str_eq
inside_parents [] rest = refl
inside_parents (d ∷ ds) rest =
    ground
      (arith, contains-parents_from d d ds (parents (ds ++ b'.' ∷ rest)), inside_parents ds rest)

own_places-PlaceIn :
    (hir : Hir) (x : Bytes) (s : Expr) → contains x (own_places hir s) ≡ true → PlaceIn hir x s
unfolding own_places contains
own_places-PlaceIn hir x s h = by_place (place_of hir s) h
  where
    by_place :
        (o : Option Bytes)
        → contains x (place_found o) ≡ true
        → (p : Bytes) × (o ≡ some p) × ((x ≡ p) ⊎ ((rest : Bytes) × (x ++ b'.' ∷ rest ≡ p)))
    by_place none h = cc
    by_place (some p) h = elim (or_cases (str_eq p x) _ h) [
      | inl e ↦ (p, refl, inl (sym ((str_eq_iff p x).0 e)))
      | inr e ↦ (p, refl, inr (parents_inside x p e))
    ]

PlaceIn-own_places :
    (hir : Hir) (x : Bytes) (s : Expr) → PlaceIn hir x s → contains x (own_places hir s) ≡ true
unfolding own_places contains
PlaceIn-own_places hir x s (p, e, inl q) = rw e (or_first _ _ ((str_eq_iff p x).1 (sym q)))
PlaceIn-own_places hir x s (p, e, inr (rest, q)) =
    rw e (or_second _ _ (subst (λ y. contains x (parents y) ≡ true) q (inside_parents x rest)))

module _ (own : Expr → List Bytes) (x : Bytes) (e : Expr) where
  collected : contains x (collect_uses own e []) ≡ true → (s : Expr) × Within s e × At own x s
  unfolding contains
  collected h = used-Found own x e (ground (arith, h, contains-collect_uses own x e []))

  collects : (s : Expr) → Within s e → At own x s → contains x (collect_uses own e []) ≡ true
  unfolding contains
  collects s w a = contains-collect_uses own x e [] ∙ or_first _ _ (Within-used own x w a)

-- The roots that `expression_uses` finds in an expression are those of the names at any depth in it,
-- and the names as written of the outputs of each `asm` in it. What `expression_place_uses` finds are
-- the places of the expression and of its parts, what these places are inside of, and the same names
-- of outputs. Nothing else is found.
pub expression_uses_iff :
    (hir : Hir) (e : Expr) (x : Bytes)
    → ((contains x (expression_uses hir e) ≡ true)
        ↔ ((s : Expr) × Within s e × (NameOf hir x s ⊎ WritesName x s)))
      × ((contains x (expression_place_uses hir e) ≡ true)
          ↔ ((s : Expr) × Within s e × (PlaceIn hir x s ⊎ WritesName x s)))
unfolding expression_uses expression_place_uses owns
expression_uses_iff hir e x = (
  (
    λ h. let (s, w, a) = collected (own_roots hir) x e h in (s, w, root_at s a),
    λ f. collects (own_roots hir) x e f.0 f.1 (at_root f.0 f.2),
  ),
  (
    λ h. let (s, w, a) = collected (own_places hir) x e h in (s, w, place_at s a),
    λ f. collects (own_places hir) x e f.0 f.1 (at_place f.0 f.2),
  ),
)
  where
    root_at : (s : Expr) → At (own_roots hir) x s → NameOf hir x s ⊎ WritesName x s
    root_at s (inl h) = inl (own_roots-NameOf hir x s h)
    root_at s (inr w) = inr w

    at_root : (s : Expr) → NameOf hir x s ⊎ WritesName x s → At (own_roots hir) x s
    at_root s (inl h) = inl (NameOf-own_roots hir x h)
    at_root s (inr w) = inr w

    place_at : (s : Expr) → At (own_places hir) x s → PlaceIn hir x s ⊎ WritesName x s
    place_at s (inl h) = inl (own_places-PlaceIn hir x s h)
    place_at s (inr w) = inr w

    at_place : (s : Expr) → PlaceIn hir x s ⊎ WritesName x s → At (own_places hir) x s
    at_place s (inl h) = inl (PlaceIn-own_places hir x s h)
    at_place s (inr w) = inr w
