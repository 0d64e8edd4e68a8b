-- ===== src/Borrow/Loans.antt =====
-- Loans and states of the borrow checker: src/borrow_places.cpp. The names of the globals of the
-- checked module are an argument.
pub mod Live
use uinx.Prelude.{
  ℕ, Bool, true, false, not, ◌&&◌, ◌||◌, List, [], ◌∷◌, Bytes, codes, str_eq, contains, find,
  any_of, keep_if, length, Option, none, some, ◌==◌, bool_eq, if◌then◌else◌,
}
use uinx.Borrow.{Borrow, RefOrigin, State, kind_rank}
use uinx.Borrow.Places.{root_of, is_strict_child, places_conflict, overlaps}
use uinx.Types.{Ty, TypeKind, kind_eq, kind_of, rank}

-- whether the borrower of a loan may be used later
unfoldable pub loan_live_at : List Bytes → Borrow → List Bytes → List Bytes → Bool
unfolding root_of places_conflict contains str_eq
loan_live_at globals loan live_roots live_places =
    let root = root_of loan.borrower in
    str_eq loan.borrower (codes "<temporary>")
    || (contains root globals
        || (contains root live_roots
            || (contains loan.borrower live_places
                || any_of (λ live. places_conflict live loan.borrower) live_places)))

unfoldable pub same_origin : RefOrigin → RefOrigin → Bool
unfolding str_eq
same_origin a b =
    str_eq a.place b.place
    && (bool_eq a.is_mut b.is_mut
        && (a.range.begin.line == b.range.begin.line
            && a.range.begin.column == b.range.begin.column))

unfoldable pub same_borrow : Borrow → Borrow → Bool
unfolding str_eq
same_borrow a b =
    str_eq a.place b.place
    && (str_eq a.borrower b.borrower
        && (bool_eq a.is_mut b.is_mut
            && (kind_rank a.kind == kind_rank b.kind
                && (a.origin.begin.line == b.origin.begin.line
                    && a.origin.begin.column == b.origin.begin.column))))

unfoldable pub unavailable : Bytes → State → Bool
unfolding overlaps
unavailable place s = any_of (λ m. overlaps m place) s.moved

unfoldable pub has_moved_ancestor : Bytes → State → Bool
unfolding is_strict_child str_eq
has_moved_ancestor place s = any_of (λ m. not (str_eq m place) && is_strict_child m place) s.moved

-- the first scope that binds the root decides
unfoldable pub bound_in : Bytes → Bytes → List (List (Bytes × Ty)) → Bool
unfolding is_strict_child find rank
bound_in root place [] = false
bound_in root place (scope ∷ scopes) =
    let rest = bound_in root place scopes in
    elim (find root scope) [
      | none ↦ rest
      | some t ↦ not (kind_eq (kind_of t) TypeKind.ref && is_strict_child root place)
    ]

unfoldable pub is_stack_owned : Bytes → State → Bool
unfolding bound_in root_of
is_stack_owned place s = bound_in (root_of place) place s.scopes

-- `operator==` of two sets
unfoldable pub set_eq : List Bytes → List Bytes → Bool
unfolding contains
set_eq a b = length a == length b && not (any_of (λ x. not (contains x b)) a)

-- the origins of one place, looked up in the other state
unfoldable pub origins_match : List (Bytes × List RefOrigin) → Bytes × List RefOrigin → Bool
unfolding same_origin find
origins_match others (place, origins) = elim (find place others) [
  | none ↦ false
  | some found ↦
      length found == length origins
      && not (any_of (λ o. not (any_of (same_origin o) found)) origins)
]

unfoldable pub states_equivalent : State → State → Bool
unfolding set_eq same_borrow origins_match
states_equivalent a b =
    bool_eq a.reachable b.reachable
    && (set_eq a.moved b.moved
        && (length a.scopes == length b.scopes
            && (length a.borrows == length b.borrows
                && (length a.ref_origins == length b.ref_origins
                    && (not (any_of (λ l. not (any_of (same_borrow l) b.borrows)) a.borrows)
                        && not
                            (any_of (λ e. not (origins_match b.ref_origins e)) a.ref_origins))))))

unfoldable pub mark_initialized : Bytes → State → State
unfolding is_strict_child str_eq
mark_initialized place s = record s {
  moved = keep_if (λ m. not (str_eq m place || is_strict_child place m)) s.moved;
}

unfoldable pub kill_borrower : Bytes → State → State
unfolding str_eq
kill_borrower borrower s = record s {
  borrows = keep_if (λ l. not (str_eq l.borrower borrower)) s.borrows;
}

unfoldable pub kill_borrowers_under : Bytes → State → State
unfolding is_strict_child str_eq
kill_borrowers_under borrower s = record s {
  borrows =
      keep_if (λ l. not (str_eq l.borrower borrower || is_strict_child borrower l.borrower))
        s.borrows;
}
