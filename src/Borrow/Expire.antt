-- ===== src/Borrow/Expire.antt =====
-- `expire_dead_loans` of src/borrow_liveness.cpp: the loans whose borrowers are not used from a
-- statement on end before it. The names of the globals of the checked module are an argument.
use uinx.Prelude.{
  ℕ, Bool, true, false, not, ◌&&◌, ◌||◌, List, [], ◌∷◌, Bytes, codes, str_eq, starts_with, contains,
  keep_if, Option, none, some, In, here, there, ◌≡◌, sym, ap, ◌∙◌, arith, Bool-cases, inl, inr,
  subst, or_first,
}
use uinx.Borrow.{Borrow, State}
use uinx.Borrow.Places.{root_of}
use uinx.Borrow.Loans.{loan_live_at}
use uinx.Borrow.Tree
use uinx.Borrow.Tree.{Hir, Stmt, Stmts, find_at}
use uinx.Borrow.Liveness.{Plane, Notes, liveness_block, prepare_liveness, root_plane, no_notes}
use uinx.Borrow.Liveness.Paths.{used, WayThrough}
use uinx.Borrow.Liveness.Ways.{WayThrough-ways}
use uinx.Borrow.Liveness.Correct.{liveness_block-Before}
use uinx.Borrow.Liveness.Noted.{
  address_of, followed_by, ElsewhereIn, find_at-liveness_stmt, followed_by-Keeps,
}

abbrev or_empty : Option (List Bytes) → List Bytes
or_empty none = []
or_empty (some live) = live

-- whether the loan stays, by what is live before the statement
unfoldable pub stays_live : List Bytes → List Bytes → List Bytes → Borrow → Bool
unfolding loan_live_at str_eq starts_with
stays_live globals live_roots live_places loan =
    not (str_eq loan.borrower (codes "<temporary>"))
    && (starts_with (codes "<twophase:") loan.borrower
        || loan_live_at globals loan live_roots live_places)

-- `expire_dead_loans`, at the address of a statement
unfoldable pub expire_dead_loans : List Bytes → Notes × Notes → ℕ → State → State
unfolding stays_live find_at
expire_dead_loans globals notes a s = record s {
  borrows =
      keep_if
        (stays_live globals (or_empty (find_at a notes.0.before))
          (or_empty (find_at a notes.1.before)))
        s.borrows;
}

In-keep_if :
    {A : Type 0} (q : A → Bool) (a : A) (xs : List A) → In a xs → q a ≡ true → In a (keep_if q xs)
In-keep_if q a [] i h = elim i [ ]
In-keep_if q a (x ∷ xs) (here e) h = rw (ap q (sym e) ∙ h) (here e)
In-keep_if q a (x ∷ xs) (there i) h = elim (Bool-cases (q x)) [
  | inl yes' ↦ rw yes' (there (In-keep_if q a xs i h))
  | inr no' ↦ rw no' (In-keep_if q a xs i h)
]

stays_live-root :
    (globals roots places : List Bytes) (loan : Borrow)
    → str_eq loan.borrower (codes "<temporary>") ≡ false
    → contains (root_of loan.borrower) roots ≡ true
    → stays_live globals roots places loan ≡ true
unfolding stays_live loan_live_at
stays_live-root globals roots places loan named live = ground (arith, named, live)

-- What is used on a way through statements is live before them.
live_block :
    (p : Plane) (ss : Stmts) (n : Notes) (x : Bytes)
    → WayThrough p x ss used
    → contains x (liveness_block p ss [] [] [] n).0 ≡ true
live_block p ss n x w =
    (liveness_block-Before p ss [] [] [] n).elements x ∙ or_first _ _ (WayThrough-ways p x w)

live_at :
    (hir : Hir) (front : Stmts) (s : Stmt) (ss : Stmts) (x : Bytes)
    → ElsewhereIn (address_of s) front
    → WayThrough (root_plane hir) x (Tree.next_stmt s ss) used
    → contains x (
        or_empty (
          find_at
            (address_of s)
            (prepare_liveness hir (followed_by front (Tree.next_stmt s ss))).0.before))
      ≡ true
unfolding prepare_liveness liveness_block
live_at hir front s ss x e w =
    subst (λ o. contains x (or_empty o) ≡ true)
      (sym (
        followed_by-Keeps (address_of s) (root_plane hir) front (Tree.next_stmt s ss) [] [] []
          no_notes e
        ∙ find_at-liveness_stmt (root_plane hir) s _ [] [] _))
      (live_block (root_plane hir) (Tree.next_stmt s ss) no_notes x w)

-- At a statement of the body of a function, whose address no statement in front of it has or
-- contains, `expire_dead_loans` keeps a loan whose borrower is not a temporary, where a way from
-- that statement through the rest of the body leads to a use of the borrower's root.
pub expire_dead_loans-used :
    (hir : Hir) (globals : List Bytes) (front : Stmts) (s : Stmt) (ss : Stmts) (loan : Borrow)
    (st : State)
    → ElsewhereIn (address_of s) front
    → In loan st.borrows
    → str_eq loan.borrower (codes "<temporary>") ≡ false
    → WayThrough (root_plane hir) (root_of loan.borrower) (Tree.next_stmt s ss) used
    → In loan
        (expire_dead_loans globals
          (prepare_liveness hir (followed_by front (Tree.next_stmt s ss)))
          (address_of s)
          st).borrows
unfolding expire_dead_loans
expire_dead_loans-used hir globals front s ss loan st e i named w =
    In-keep_if _ loan st.borrows i
      (stays_live-root globals _ _ loan named (live_at hir front s ss _ e w))
