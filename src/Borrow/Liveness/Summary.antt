-- ===== src/Borrow/Liveness/Summary.antt =====
-- The ways through statements, computed as the analysis takes them: whether there is one to each exit.
-- A `loop` ends here also where a round does.
use uinx.Prelude.{Bool, true, false, ◌&&◌, ◌||◌, Bytes}
use uinx.Borrow.Tree
use uinx.Borrow.Tree.{Expr, Stmt, Stmts, ElseBlock}
use uinx.Borrow.Liveness.{Plane}
use uinx.Borrow.Liveness.Paths.{
  Exit, leaves, is_used, is_used_in, lets_pass, loop_passes, target_used, target_passes,
}

abbrev pub is_use : Exit → Bool
is_use Exit.used = true
is_use _ = false

abbrev pub is_end : Exit → Bool
is_end Exit.ended = true
is_end _ = false

abbrev pub is_break : Exit → Bool
is_break Exit.broke = true
is_break _ = false

abbrev pub is_continue : Exit → Bool
is_continue Exit.continued = true
is_continue _ = false

-- a way to a use, or behind the statement
abbrev pub two_ways : Bool → Bool → Exit → Bool
two_ways u e Exit.used = u
two_ways u e Exit.ended = e
two_ways u e _ = false

-- the ways through two statements in sequence
abbrev pub in_turn : (Exit → Bool) → (Exit → Bool) → Exit → Bool
in_turn f g t = (leaves t && f t) || (f Exit.ended && g t)

abbrev pub either : (Exit → Bool) → (Exit → Bool) → Exit → Bool
either f g t = f t || g t

-- what is live before, by what is live where the ways end
abbrev pub weigh : (Exit → Bool) → Bool → Bool → Bool → Bool
weigh f after break' continue' =
    f Exit.used
    || ((f Exit.ended && after) || ((f Exit.broke && break') || (f Exit.continued && continue')))

module _ (p : Plane) (x : Bytes) where
  unfoldable mutual
    unfolding is_used is_used_in target_used target_passes

    pub ways : Stmt → Exit → Bool
    ways (Tree.let_stmt a name init) t = two_ways (is_used_in p x init) (lets_pass p x a name) t
    ways (Tree.assign_stmt a target op value) t =
        two_ways (is_used p x value || target_used p x op target (p.whole_binding target))
          (target_passes p x op (p.whole_binding target)) t
    ways (Tree.expr_stmt a e) t = two_ways (is_used p x e) true t
    ways (Tree.return_stmt a value) t = two_ways (is_used_in p x value) false t
    ways (Tree.block_stmt a block) t = ways_block block t
    ways (Tree.unsafe_stmt a block) t = ways_block block t
    ways (Tree.if_stmt a c then' else') t =
        (is_use t && is_used p x c) || (ways_block then' t || ways_else else' t)
    ways (Tree.while_stmt a c body) t = two_ways (is_used p x c || ways_block body Exit.used) true t
    ways (Tree.for_stmt a name b e body) t =
        two_ways
          (is_used p x e
            || (is_used p x b || (loop_passes p x a name && ways_block body Exit.used)))
          (loop_passes p x a name) t
    ways (Tree.loop_stmt a body) t =
        two_ways (ways_block body Exit.used)
          (ways_block body Exit.broke
            || (ways_block body Exit.ended || ways_block body Exit.continued))
          t
    ways (Tree.break_stmt a) t = is_break t
    ways (Tree.continue_stmt a) t = is_continue t
    ways (Tree.fence_stmt a) t = is_end t

    pub ways_block : Stmts → Exit → Bool
    ways_block Tree.no_stmts t = is_end t
    ways_block (Tree.next_stmt s ss) t = in_turn (ways s) (ways_block ss) t

    pub ways_else : ElseBlock → Exit → Bool
    ways_else Tree.no_else t = is_end t
    ways_else (Tree.else_block block) t = ways_block block t
