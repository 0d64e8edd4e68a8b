-- ===== src/Borrow/Liveness/Tests.antt =====
-- Liveness in small functions.
use uinx.Prelude.{[], ◌∷◌, codes, some, contains, true, ◌≡◌, ◌↔◌, inl, refl}
use uinx.Borrow.Tree
use uinx.Borrow.Tree.{Hir, Stmt, Stmts, SymbolKind, place_of}
use uinx.Borrow.Uses.{expression_uses}
use uinx.Borrow.Liveness.{liveness_stmt, liveness_place_block, root_plane, no_notes}
use uinx.Borrow.Liveness.Paths
use uinx.Borrow.Liveness.Paths.{LoopsBreak}
use uinx.Borrow.Liveness.Exact.{LiveBefore, liveness_stmt_iff, liveness_stmt-LiveBefore}

-- `a` is the parameter with the number 1, `b` is bound by a `let`.
abbrev tables : Hir
tables = record {
  symbols = SymbolKind.function ∷ SymbolKind.parameter ∷ SymbolKind.local ∷ [];
  expr_resolution = (1, 1) ∷ (2, 2) ∷ (3, 1) ∷ [];
  bindings = (10, 2) ∷ [];
  for_bindings = [];
}

-- `while b { a.x; break }`
abbrev loop_stmt : Stmt
loop_stmt = Tree.while_stmt 11 (Tree.name_expr 2 (codes "b")) (
    Tree.next_stmt (Tree.expr_stmt 12 (Tree.member_expr (Tree.name_expr 1 (codes "a")) (codes "x")))
      (Tree.next_stmt (Tree.break_stmt 13) Tree.no_stmts))

-- `let b = a` in front of it
abbrev body : Stmts
body =
    Tree.next_stmt (Tree.let_stmt 10 (codes "b") (some (Tree.name_expr 3 (codes "a"))))
      (Tree.next_stmt loop_stmt Tree.no_stmts)

roots_before_loop :
    (liveness_stmt (root_plane tables) loop_stmt [] [] [] no_notes).0
    ≡ codes "b#2" ∷ codes "a#1" ∷ []
unfolding liveness_stmt root_plane
roots_before_loop = refl

places_before_body :
    (liveness_place_block tables body [] [] [] no_notes).0 ≡ codes "a#1.x" ∷ codes "a#1" ∷ []
unfolding liveness_place_block
places_before_body = refl

-- `loop { if b { break }; a.x }`
abbrev endless : Stmt
endless = Tree.loop_stmt 14 (
    Tree.next_stmt
      (Tree.if_stmt 15 (Tree.name_expr 2 (codes "b"))
        (Tree.next_stmt (Tree.break_stmt 16) Tree.no_stmts) Tree.no_else)
      (Tree.next_stmt
        (Tree.expr_stmt 17 (Tree.member_expr (Tree.name_expr 1 (codes "a")) (codes "x")))
        Tree.no_stmts))

endless-LoopsBreak : LoopsBreak (root_plane tables) (codes "a#1") endless
unfolding LoopsBreak
endless-LoopsBreak =
    (inl (Paths.stops_at refl (Paths.through_then (Paths.stops_at refl Paths.breaks))), ((_, _), _))

liveness_stmt_iff_example :
    ((contains
          (codes "a#1")
          (liveness_stmt (root_plane tables) endless (codes "a#1" ∷ []) [] [] no_notes).0
        ≡ true)
      ↔ LiveBefore (root_plane tables) (codes "a#1") endless (codes "a#1" ∷ []) [] [])
    × ((liveness_stmt (root_plane tables) endless (codes "a#1" ∷ []) [] [] no_notes).1.not_converged
        ≡ [])
liveness_stmt_iff_example =
    liveness_stmt_iff (root_plane tables) endless (codes "a#1" ∷ []) [] [] no_notes (codes "a#1")
      endless-LoopsBreak

liveness_stmt-LiveBefore_example :
    contains (codes "a#1") (liveness_stmt (root_plane tables) loop_stmt [] [] [] no_notes).0 ≡ true
unfolding Paths.is_used root_plane
liveness_stmt-LiveBefore_example =
    liveness_stmt-LiveBefore (root_plane tables) loop_stmt [] [] [] no_notes (codes "a#1")
      (inl (Paths.while_body (Paths.stops_at refl (Paths.expr_uses refl))))

-- An operand that is read and written is used by its plain name, where the key of the name is `b#2`.
operand_uses :
    expression_uses tables
      (Tree.asm_expr (Tree.next_operand Tree.no_value (codes "b") Tree.no_operands))
    ≡ codes "b" ∷ []
unfolding expression_uses
operand_uses = refl

place_of_b : place_of tables (Tree.name_expr 2 (codes "b")) ≡ some (codes "b#2")
unfolding place_of
place_of_b = refl
