-- ===== src/Borrow/Sets.antt =====
-- Sets of names and places: `std::unordered_set<std::string>` as the list of its elements, in any
-- order.
use uinx.Prelude.{
  Bool, true, false, not, ◌&&◌, ◌||◌, List, [], ◌∷◌, Bytes, str_eq, str_eq_iff, contains, ◌≡◌, refl,
  sym, ap, ◌∙◌, str_eq_refl, arith, if◌then◌else◌, Bool-cases, inl, inr,
}

-- `insert`, of one element and of several
unfoldable pub insert : Bytes → List Bytes → List Bytes
unfolding contains
insert v s = if contains v s then s else v ∷ s

unfoldable pub insert_all : List Bytes → List Bytes → List Bytes
unfolding insert
insert_all [] s = s
insert_all (v ∷ vs) s = insert v (insert_all vs s)

-- `erase` of the elements that pass a test
unfoldable pub erase_if : (Bytes → Bool) → List Bytes → List Bytes
erase_if p [] = []
erase_if p (x ∷ s) = let rest = erase_if p s in if p x then rest else x ∷ rest

-- `operator==` of two sets
unfoldable pub subset : List Bytes → List Bytes → Bool
unfolding contains
subset [] b = true
subset (x ∷ a) b = contains x b && subset a b

unfoldable pub same_set : List Bytes → List Bytes → Bool
unfolding subset
same_set a b = subset a b && subset b a

-- equal texts are held by the same sets
contains-eq : (x y : Bytes) (s : List Bytes) → str_eq y x ≡ true → contains y s ≡ contains x s
contains-eq x y s h = rw ((str_eq_iff y x).0 h) refl

pub contains-insert :
    (x v : Bytes) (s : List Bytes) → contains x (insert v s) ≡ (str_eq v x || contains x s)
unfolding insert contains
contains-insert x v s = elim (Bool-cases (contains v s)) [
  | inl there ↦ elim (Bool-cases (str_eq v x)) [
    | inl same ↦ ground (arith, there, same, contains-eq x v s same)
    | inr other ↦ ground (arith, there, other)
  ]
  | inr not_there ↦ ground (arith, not_there)
]

pub contains-insert_all :
    (x : Bytes) (vs s : List Bytes) → contains x (insert_all vs s) ≡ (contains x vs || contains x s)
unfolding insert_all contains
contains-insert_all x [] s = refl
contains-insert_all x (v ∷ vs) s =
    ground (arith, contains-insert x v (insert_all vs s), contains-insert_all x vs s)

-- A test says the same of equal texts.
test-eq : (p : Bytes → Bool) (x y : Bytes) → str_eq y x ≡ true → p y ≡ p x
test-eq p x y h = ap p ((str_eq_iff y x).0 h)

pub contains-erase_if :
    (x : Bytes) (p : Bytes → Bool) (s : List Bytes)
    → contains x (erase_if p s) ≡ (not (p x) && contains x s)
unfolding erase_if contains
contains-erase_if x p [] = ground arith
contains-erase_if x p (y ∷ s) = elim (Bool-cases (str_eq y x)) [
  | inl same ↦ ground (arith, same, test-eq p x y same, contains-erase_if x p s)
  | inr other ↦ ground (arith, other, contains-erase_if x p s)
]

subset-contains :
    (a b : List Bytes) → subset a b ≡ true → (x : Bytes) → contains x a ≡ true → contains x b ≡ true
unfolding subset contains
subset-contains [] b h x c = cc
subset-contains (y ∷ a) b h x c = elim (Bool-cases (str_eq y x)) [
  | inl same ↦ ground (arith, h, contains-eq x y b same)
  | inr other ↦ subset-contains a b (ground (arith, h)) x (ground (arith, c, other))
]

contains-subset :
    (a b : List Bytes)
    → ((x : Bytes) → contains x a ≡ true → contains x b ≡ true)
    → subset a b ≡ true
unfolding subset contains
contains-subset [] b h = refl
contains-subset (y ∷ a) b h = ground (
  arith,
  h y (ground (arith, str_eq_refl y)),
  contains-subset a b (λ x c. h x (ground (arith, c))),
)

both_ways : (b c : Bool) → (b ≡ true → c ≡ true) → (c ≡ true → b ≡ true) → b ≡ c
both_ways true true f g = refl
both_ways true false f g = sym (f refl)
both_ways false true f g = g refl
both_ways false false f g = refl

-- Sets are equal exactly when they hold the same elements.
pub same_set-contains :
    (a b : List Bytes) → same_set a b ≡ true → (x : Bytes) → contains x a ≡ contains x b
unfolding same_set
same_set-contains a b h x =
    both_ways _ _ (subset-contains a b (ground (arith, h)) x)
      (subset-contains b a (ground (arith, h)) x)

pub contains-same_set :
    (a b : List Bytes) → ((x : Bytes) → contains x a ≡ contains x b) → same_set a b ≡ true
unfolding same_set
contains-same_set a b h =
    rw (contains-subset a b (λ x c. sym (h x) ∙ c)) (contains-subset b a (λ x c. h x ∙ c))
