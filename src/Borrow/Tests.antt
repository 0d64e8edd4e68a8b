-- ===== src/Borrow/Tests.antt =====
-- Places and loans of a small function.
use uinx.Prelude.{
  here, str_eq, In, some, ◌⊎◌, contains, codes, [], ◌∷◌, ◌≡◌, ◌↔◌, true, false, refl,
}
use uinx.Diagnostic.{SourceRange}
use uinx.Borrow.{Borrow, BorrowKind, State}
use uinx.Borrow.Places.{is_strict_child, places_disjoint, places_conflict}
use uinx.Borrow.Tree
use uinx.Borrow.Tree.{Hir, Expr, Stmt, Stmts, SymbolKind}
use uinx.Borrow.Liveness.{prepare_liveness}
use uinx.Borrow.Liveness.Paths
use uinx.Borrow.Liveness.Noted.{address_of, followed_by, ElsewhereIn}
use uinx.Borrow.Expire.{expire_dead_loans, expire_dead_loans-used}
use uinx.Borrow.Uses.{expression_uses, expression_place_uses}
use uinx.Borrow.Uses.Parts.{Within, WritesName}
use uinx.Borrow.Uses.Exact.{NameOf, PlaceIn, expression_uses_iff}
use uinx.Borrow.Places.Overlap.{
  Separate, places_disjoint_iff, places_conflict_sym, places_conflict-child,
}
use uinx.Borrow.Loans.{loan_live_at}
use uinx.Borrow.Loans.Live.{IsOver, loan_live_at_iff}

abbrev nowhere : SourceRange
nowhere = record {
  begin = record { file = []; line = 1; column = 1; offset = 0 };
  end = record { file = []; line = 1; column = 1; offset = 0 };
}

-- the reference `r#2` holds `a#1.x`
abbrev loan : Borrow
loan = record {
  place = codes "a#1.x";
  borrower = codes "r#2";
  is_mut = false;
  kind = BorrowKind.shared;
  origin = nowhere;
  reservation = nowhere;
  activated = false;
}

places_disjoint_iff_example :
    (places_disjoint (codes "a#1.x") (codes "a#1.y") ≡ true)
    ↔ Separate (codes "a#1.x") (codes "a#1.y")
places_disjoint_iff_example = places_disjoint_iff (codes "a#1.x") (codes "a#1.y")

siblings-disjoint : places_disjoint (codes "a#1.x") (codes "a#1.y") ≡ true
unfolding places_disjoint
siblings-disjoint = refl

elements-conflict : places_disjoint (codes "a#1.[*]") (codes "a#1.x") ≡ false
unfolding places_disjoint
elements-conflict = refl

places_conflict_sym_example :
    (places_conflict (codes "a#1") (codes "a#1") ≡ true)
    × (places_conflict (codes "a#1") (codes "b#2.x")
        ≡ places_conflict (codes "b#2.x") (codes "a#1"))
places_conflict_sym_example = places_conflict_sym (codes "a#1") (codes "b#2.x")

child-found : is_strict_child (codes "a#1") (codes "a#1.x") ≡ true
unfolding is_strict_child
child-found = refl

places_conflict-child_example :
    (places_conflict (codes "a#1") (codes "a#1.x") ≡ true)
    × (places_conflict (codes "a#1.x") (codes "a#1") ≡ true)
places_conflict-child_example = places_conflict-child (codes "a#1") (codes "a#1.x") child-found

loan_live_at_iff_example :
    (loan_live_at [] loan [] (codes "a#1" ∷ []) ≡ false) ↔ IsOver [] loan [] (codes "a#1" ∷ [])
loan_live_at_iff_example = loan_live_at_iff [] loan [] (codes "a#1" ∷ [])

-- `a` and `b` are the parameters with the numbers 1 and 2
abbrev tables : Hir
tables = record {
  symbols = SymbolKind.function ∷ SymbolKind.parameter ∷ SymbolKind.parameter ∷ [];
  expr_resolution = (1, 1) ∷ (2, 2) ∷ [];
  bindings = [];
  for_bindings = [];
}

-- `f(a[b])`
abbrev call : Expr
call = Tree.call_expr (Tree.name_expr 0 (codes "f")) (
    Tree.next_expr (Tree.index_expr (Tree.name_expr 1 (codes "a")) (Tree.name_expr 2 (codes "b")))
      Tree.no_exprs)

expression_uses_iff_example :
    ((contains (codes "b#2") (expression_uses tables call) ≡ true)
      ↔ ((s : Expr) × Within s call × (NameOf tables (codes "b#2") s ⊎ WritesName (codes "b#2") s)))
    × ((contains (codes "b#2") (expression_place_uses tables call) ≡ true) ↔ (
        (s : Expr) × Within s call × (PlaceIn tables (codes "b#2") s ⊎ WritesName (codes "b#2") s)))
expression_uses_iff_example = expression_uses_iff tables call (codes "b#2")

places_of_call :
    expression_place_uses tables call ≡ codes "b#2" ∷ codes "a#1.[*]" ∷ codes "a#1" ∷ codes "f" ∷ []
unfolding expression_place_uses str_eq
places_of_call = refl

-- the local `r#2`; `let r = &a.x`, then `r`
abbrev tables_of_r : Hir
tables_of_r = record {
  symbols = SymbolKind.function ∷ SymbolKind.parameter ∷ SymbolKind.local ∷ [];
  expr_resolution = (1, 1) ∷ (3, 2) ∷ [];
  bindings = (10, 2) ∷ [];
  for_bindings = [];
}

abbrev let_r : Stmts
let_r =
    Tree.next_stmt
      (Tree.let_stmt 10 (codes "r")
        (some (Tree.borrow_expr (Tree.member_expr (Tree.name_expr 1 (codes "a")) (codes "x")))))
      Tree.no_stmts

abbrev reads_r : Stmt
reads_r = Tree.expr_stmt 11 (Tree.name_expr 3 (codes "r"))

abbrev one_loan : State
one_loan = record {
  moved = [];
  borrows = loan ∷ [];
  scopes = [];
  ref_origins = [];
  async_context = false;
  reachable = true;
}

let_r-ElsewhereIn : ElsewhereIn (address_of reads_r) let_r
unfolding ElsewhereIn
let_r-ElsewhereIn = (refl, _)

expire_dead_loans-used_example :
    In loan
      (expire_dead_loans []
        (prepare_liveness tables_of_r (followed_by let_r (Tree.next_stmt reads_r Tree.no_stmts)))
        (address_of reads_r)
        one_loan).borrows
unfolding prepare_liveness Paths.is_used
expire_dead_loans-used_example =
    expire_dead_loans-used tables_of_r [] let_r reads_r Tree.no_stmts loan one_loan
      let_r-ElsewhereIn (here refl) refl (Paths.stops_at refl (Paths.expr_uses refl))
