-- ===== src/Borrow/Places/Overlap.antt =====
-- Which places overlap.
use uinx.Prelude.{
  ◌∙◌, append-nil, ℕ, ◌≡◌, ◌≢◌, ◌↔◌, ◌++◌, ◌∷◌, ◌||◌, not, Bool, true, false, List, [], Bytes, refl,
  sym, ap, subst, str_eq, str_eq_iff, str_eq_refl, Bool-cases, inl, inr, arith, ◌==◌, if◌then◌else◌,
  and_right,
}
use uinx.Borrow.Places.{
  is_strict_child, split_place, cons_head, any_index, is_external, parts_disjoint, places_disjoint,
  places_conflict,
}

-- The parts agree up to two different ones, neither of which is an index.
pub data Diverge : List Bytes → List Bytes → Type 0 where
  at_fields :
      {p q : Bytes} {ps qs : List Bytes}
      → p ≢ q
      → p ≢ any_index
      → q ≢ any_index
      → Diverge (p ∷ ps) (q ∷ qs)
  further : {p : Bytes} {ps qs : List Bytes} → Diverge ps qs → Diverge (p ∷ ps) (p ∷ qs)

str_eq-differ : (a b : Bytes) → str_eq a b ≡ false → a ≢ b
str_eq-differ a b d e = absurd (cc (d, (str_eq_iff a b).1 e))

differ-str_eq : (a b : Bytes) → a ≢ b → str_eq a b ≡ false
differ-str_eq a b n = elim (Bool-cases (str_eq a b)) [
  | inl same ↦ absurd (n ((str_eq_iff a b).0 same))
  | inr differ ↦ differ
]

fields_sound :
    (p q : Bytes) (ps qs : List Bytes)
    → str_eq p q ≡ false
    → not (str_eq p any_index || str_eq q any_index) ≡ true
    → Diverge (p ∷ ps) (q ∷ qs)
fields_sound p q ps qs d h =
    at_fields (str_eq-differ p q d) (str_eq-differ p any_index (ground (arith, h)))
      (str_eq-differ q any_index (ground (arith, h)))

parts_sound : (ps qs : List Bytes) → parts_disjoint ps qs ≡ true → Diverge ps qs
unfolding parts_disjoint
parts_sound [] qs h = cc
parts_sound (p ∷ ps) [] h = cc
parts_sound (p ∷ ps) (q ∷ qs) h = elim (Bool-cases (str_eq p q)) [
  | inl same ↦
      let e : p ≡ q = (str_eq_iff p q).0 same in
      let later : parts_disjoint ps qs ≡ true = ground (arith, h, same) in
      subst (λ (x : Bytes). Diverge (p ∷ ps) (x ∷ qs)) e (further (parts_sound ps qs later))
  | inr differ ↦ fields_sound p q ps qs differ (ground (arith, h, differ))
]

parts_complete : (ps qs : List Bytes) → Diverge ps qs → parts_disjoint ps qs ≡ true
unfolding parts_disjoint
parts_complete _ _ (at_fields {p} {q} d a b) =
    rw (differ-str_eq p q d, differ-str_eq p any_index a, differ-str_eq q any_index b)
parts_complete _ _ (further {p} {ps} {qs} t) = rw (str_eq_refl p, parts_complete ps qs t)

-- Parts that go on with others do not diverge from them.
parts_disjoint-append : (ps rest : List Bytes) → parts_disjoint ps (ps ++ rest) ≡ false
unfolding parts_disjoint
parts_disjoint-append [] rest = refl
parts_disjoint-append (p ∷ ps) rest = rw (str_eq_refl p, parts_disjoint-append ps rest)

Diverge-append : (ps rest : List Bytes) → ¬ Diverge ps (ps ++ rest)
Diverge-append ps rest d = cc (parts_complete ps (ps ++ rest) d, parts_disjoint-append ps rest)

Diverge-irrefl : (ps : List Bytes) → ¬ Diverge ps ps
Diverge-irrefl ps d =
    Diverge-append ps [] (subst (λ (x : List Bytes). Diverge ps x) (sym (append-nil ps)) d)

Diverge-sym : {ps qs : List Bytes} → Diverge ps qs → Diverge qs ps
Diverge-sym (at_fields d a b) = at_fields (λ e. d (sym e)) b a
Diverge-sym (further t) = further (Diverge-sym t)

-- The places are no external ones, and their parts diverge at two fields.
pub record Separate (a b : Bytes) : Type 0 where
  pub first_inside : is_external a ≡ false
  pub second_inside : is_external b ≡ false
  pub apart : Diverge (split_place a) (split_place b)

guards :
    (x y d r : Bool)
    → (if x || y then false else if d then false else r) ≡ true
    → (x ≡ false) × (y ≡ false) × (r ≡ true)
guards true y d r h = cc
guards false true d r h = cc
guards false false true r h = cc
guards false false false r h = (refl, refl, h)

Separate-sound : (a b : Bytes) → places_disjoint a b ≡ true → Separate a b
unfolding places_disjoint
Separate-sound a b h =
    let (x, y, r) =
      guards (is_external a) (is_external b) (str_eq a b)
        (parts_disjoint (split_place a) (split_place b)) h in
    record {
      first_inside = x;
      second_inside = y;
      apart = parts_sound (split_place a) (split_place b) r;
    }

Separate-complete : (a b : Bytes) → Separate a b → places_disjoint a b ≡ true
unfolding places_disjoint
Separate-complete a b s =
    let differ : str_eq a b ≡ false = differ-str_eq a b (λ e.
      Diverge-irrefl (split_place a)
        (subst (λ (x : Bytes). Diverge (split_place a) (split_place x)) (sym e) s.apart)) in
    rw (s.first_inside, s.second_inside, differ, parts_complete _ _ s.apart)

-- Two places are found disjoint exactly when neither is external and their parts agree up to two
-- that differ, neither of which is an index.
pub places_disjoint_iff : (a b : Bytes) → (places_disjoint a b ≡ true) ↔ Separate a b
places_disjoint_iff a b = (Separate-sound a b, Separate-complete a b)

Separate-sym : {a b : Bytes} → Separate a b → Separate b a
Separate-sym s = record {
  first_inside = s.second_inside;
  second_inside = s.first_inside;
  apart = Diverge-sym s.apart;
}

cons_head-append :
    (c : ℕ) (p : Bytes) (ps rest : List Bytes)
    → cons_head c ((p ∷ ps) ++ rest) ≡ cons_head c (p ∷ ps) ++ rest
cons_head-append c p ps rest = refl

split_place-exists : (a : Bytes) → (p : Bytes) × (ps : List Bytes) × (split_place a ≡ p ∷ ps)
unfolding split_place
split_place-exists [] = ([], [], refl)
split_place-exists (c ∷ cs) = elim (Bool-cases (c == b'.')) [
  | inl dot ↦ ([], split_place cs, rw dot)
  | inr other ↦ let (p, ps, e) = split_place-exists cs in (c ∷ p, ps, rw (other, e))
]

-- The parts of a child begin with those of its parent.
pub split_place-child :
    (a b : Bytes)
    → is_strict_child a b ≡ true
    → (rest : List Bytes) × (split_place b ≡ split_place a ++ rest)
unfolding split_place is_strict_child
split_place-child [] [] h = cc
split_place-child [] (c ∷ cs) h = (split_place cs, rw h)
split_place-child (p ∷ ps) [] h = cc
split_place-child (p ∷ ps) (c ∷ cs) h =
    let same : p ≡ c = ground (arith, h) in
    let (rest, e) = split_place-child ps cs (and_right (p == c) (is_strict_child ps cs) h) in
    let (q, qs, f) = split_place-exists ps in
    elim (Bool-cases (p == b'.')) [
      | inl dot ↦ (
        rest,
        subst (λ (x : ℕ). split_place (x ∷ cs) ≡ split_place (p ∷ ps) ++ rest) same (rw (dot, e)),
      )
      | inr other ↦ (
        rest,
        subst (λ (x : ℕ). split_place (x ∷ cs) ≡ split_place (p ∷ ps) ++ rest) same
            (rw (other, e, f)),
      )
    ]

pub Separate-irrefl : {a : Bytes} → ¬ Separate a a
Separate-irrefl {a} s = Diverge-irrefl (split_place a) s.apart

conflict_of : (a b : Bytes) → ¬ Separate a b → places_conflict a b ≡ true
unfolding places_conflict
conflict_of a b n = elim (Bool-cases (places_disjoint a b)) [
  | inl apart ↦ absurd (n (Separate-sound a b apart))
  | inr meets ↦ ap not meets
]

bool_same : (x y : Bool) → (x ≡ true → y ≡ true) → (y ≡ true → x ≡ true) → x ≡ y
bool_same true y f g = sym (f refl)
bool_same false true f g = g refl
bool_same false false f g = refl

places_disjoint_sym : (a b : Bytes) → places_disjoint a b ≡ places_disjoint b a
places_disjoint_sym a b =
    bool_same (places_disjoint a b) (places_disjoint b a)
      (λ h. Separate-complete b a (Separate-sym (Separate-sound a b h)))
      (λ h. Separate-complete a b (Separate-sym (Separate-sound b a h)))

child_conflict : (a b : Bytes) → is_strict_child a b ≡ true → places_conflict a b ≡ true
child_conflict a b h =
    let (rest, e) = split_place-child a b h in
    conflict_of a b (λ s.
      Diverge-append (split_place a) rest
        (subst (λ (x : List Bytes). Diverge (split_place a) x) e s.apart))

-- A place conflicts with itself, and conflict does not depend on the order of the two places.
pub places_conflict_sym :
    (a b : Bytes) → (places_conflict a a ≡ true) × (places_conflict a b ≡ places_conflict b a)
places_conflict_sym a b =
    (conflict_of a a Separate-irrefl, unfold places_conflict in ap not (places_disjoint_sym a b))

-- A place conflicts with each of its strict children, in both orders.
pub places_conflict-child :
    (a b : Bytes)
    → is_strict_child a b ≡ true
    → (places_conflict a b ≡ true) × (places_conflict b a ≡ true)
places_conflict-child a b h =
    let meets = child_conflict a b h in (meets, sym (places_conflict_sym a b).1 ∙ meets)
