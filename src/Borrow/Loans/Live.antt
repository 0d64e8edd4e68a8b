-- ===== src/Borrow/Loans/Live.antt =====
-- When a loan is over.
use uinx.Prelude.{
  ◌≡◌, ◌↔◌, ◌∷◌, ◌||◌, Bool, true, false, List, [], Bytes, codes, refl, sym, subst, In, here, there,
  any_of, contains, str_eq, str_eq_iff, Bool-cases, inl, inr, arith,
}
use uinx.Borrow.{Borrow}
use uinx.Borrow.Places.{root_of, places_conflict}
use uinx.Borrow.Places.Overlap.{Separate, places_disjoint_iff, Separate-irrefl}
use uinx.Borrow.Loans.{loan_live_at}

-- No live variable holds the loan: its borrower is no temporary, its root neither a global nor live,
-- and every live place is separate from it.
pub record IsOver (globals : List Bytes) (loan : Borrow) (live_roots live_places : List Bytes)
    : Type 0 where
  pub kept : str_eq loan.borrower (codes "<temporary>") ≡ false
  pub local_root : contains (root_of loan.borrower) globals ≡ false
  pub dead_root : contains (root_of loan.borrower) live_roots ≡ false
  pub separate : (live : Bytes) → In live live_places → Separate live loan.borrower

or_false : (a b : Bool) → (a || b) ≡ false → (a ≡ false) × (b ≡ false)
or_false true b h = cc
or_false false b h = (refl, h)

none_conflict :
    (xs : List Bytes) (b : Bytes)
    → any_of (λ x. places_conflict x b) xs ≡ false
    → (x : Bytes) → In x xs
    → Separate x b
unfolding places_conflict
none_conflict [] b h x m = elim m [ ]
none_conflict (y ∷ ys) b h x m =
    let (first, others) = or_false (places_conflict y b) (any_of (λ z. places_conflict z b) ys) h in
    elim m [
      | here e ↦
          subst (λ (z : Bytes). Separate z b) (sym e)
            ((places_disjoint_iff y b).0 (ground (arith, first)))
      | there n ↦ none_conflict ys b others x n
    ]

all-Separate :
    (xs : List Bytes) (b : Bytes)
    → ((x : Bytes) → In x xs → Separate x b)
    → any_of (λ x. places_conflict x b) xs ≡ false
unfolding places_conflict
all-Separate [] b h = refl
all-Separate (y ∷ ys) b h =
    rw ((places_disjoint_iff y b).1 (h y (here refl)), all-Separate ys b (λ x m. h x (there m)))

contains-In : (k : Bytes) (s : List Bytes) → contains k s ≡ true → In k s
unfolding contains
contains-In k [] h = cc
contains-In k (j ∷ s) h = elim (Bool-cases (str_eq j k)) [
  | inl same ↦ here (sym ((str_eq_iff j k).0 same))
  | inr other ↦ there (contains-In k s (ground (arith, h, other)))
]

IsOver-sound :
    (globals : List Bytes) (loan : Borrow) (live_roots live_places : List Bytes)
    → loan_live_at globals loan live_roots live_places ≡ false
    → IsOver globals loan live_roots live_places
unfolding loan_live_at
IsOver-sound globals loan live_roots live_places h =
    let (t, h1) = or_false _ _ h in
    let (g, h2) = or_false _ _ h1 in
    let (r, h3) = or_false _ _ h2 in
    let (p, c) = or_false _ _ h3 in
    record {
      kept = t;
      local_root = g;
      dead_root = r;
      separate = none_conflict live_places loan.borrower c;
    }

IsOver-complete :
    (globals : List Bytes) (loan : Borrow) (live_roots live_places : List Bytes)
    → IsOver globals loan live_roots live_places
    → loan_live_at globals loan live_roots live_places ≡ false
unfolding loan_live_at
IsOver-complete globals loan live_roots live_places o =
    let absent : contains loan.borrower live_places ≡ false =
      elim (Bool-cases (contains loan.borrower live_places)) [
        | inl c ↦ absurd (Separate-irrefl (o.separate _ (contains-In loan.borrower live_places c)))
        | inr c ↦ c
      ] in
    rw
      (o.kept, o.local_root, o.dead_root, absent, all-Separate live_places loan.borrower o.separate)

-- A loan is found over exactly when its borrower is no temporary, the root of its borrower is
-- neither a global nor live, and every live place is separate from its borrower.
pub loan_live_at_iff :
    (globals : List Bytes) (loan : Borrow) (live_roots live_places : List Bytes)
    → (loan_live_at globals loan live_roots live_places ≡ false)
      ↔ IsOver globals loan live_roots live_places
loan_live_at_iff globals loan live_roots live_places = (
  IsOver-sound globals loan live_roots live_places,
  IsOver-complete globals loan live_roots live_places,
)
