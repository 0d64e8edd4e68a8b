-- ===== src/Borrow/Liveness/Correct.antt =====
-- The analysis of liveness finds what the ways through the statements say.
use uinx.Prelude.{
  ℕ, Bool, true, false, not, ◌&&◌, ◌||◌, List, [], Bytes, contains, str_eq, Option, none, some, ◌≡◌,
  refl, ◌∙◌, arith, Bool-cases, inl, inr, codes,
}
use uinx.Borrow.Sets.{insert_all, erase_if, contains-insert_all, contains-erase_if}
use uinx.Borrow.Tree
use uinx.Borrow.Tree.{Expr, Stmt, Stmts, ElseBlock}
use uinx.Borrow.Liveness.{
  on_live, Plane, Notes, Flow, liveness_stmt, liveness_block, liveness_else, uses_of, assign_target,
  note_after,
}
use uinx.Borrow.Liveness.Paths.{Exit, is_used, is_used_in, lets_pass, target_used, target_passes}
use uinx.Borrow.Liveness.Summary.{ways, ways_block, ways_else, weigh, two_ways}
use uinx.Borrow.Liveness.Converges.{Holds, loop_header-Holds}
use uinx.Borrow.Liveness.Weights.{
  weigh-in_turn, only_end, insert-weigh, adds, keeps, round-weigh, if-weigh, while_round-weigh,
  while-weigh, for_round-weigh, for-weigh, loop-weigh,
}

-- what is live before the statements, of what is behind them and around them
abbrev pub Before :
    (Bytes → Exit → Bool) → List Bytes → List Bytes → List Bytes → Notes → Flow → Type 0
Before f after break' continue' n o =
    Holds (λ x. weigh (f x) (contains x after) (contains x break') (contains x continue')) n o

module _ (p : Plane) where
  uses_of-is_used_in : (x : Bytes) (e : Option Expr) → contains x (uses_of p e) ≡ is_used_in p x e
  unfolding contains is_used_in is_used
  uses_of-is_used_in x none = refl
  uses_of-is_used_in x (some e) = refl

  assign_target-passes :
      (x op : Bytes) (target : Expr) (key : Option Bytes) (after : List Bytes)
      → contains x (assign_target p op target key after)
        ≡ (target_used p x op target key || (target_passes p x op key && contains x after))
  unfolding target_used target_passes is_used
  assign_target-passes x op target none after = contains-insert_all x (p.uses target) after
  assign_target-passes x op target (some key) after = elim (Bool-cases (str_eq op (codes "="))) [
    | inl yes' ↦ rw yes' (contains-erase_if x (p.ended_by key) after)
    | inr no' ↦ rw no' (contains-insert_all x (p.uses target) after)
  ]

  let-Before :
      (x : Bytes) (a : ℕ) (name : Bytes) (init : Option Expr) (after : List Bytes) (b c : Bool)
      → contains x (insert_all (uses_of p init) (erase_if (p.ended_by (p.let_key a name)) after))
        ≡ weigh (two_ways (is_used_in p x init) (lets_pass p x a name)) (contains x after) b c
  let-Before x a name init after b c =
      insert-weigh x _ _ _ (lets_pass p x a name) (contains x after) b c (uses_of-is_used_in x init)
        (contains-erase_if x _ after)

  assign-Before :
      (x op : Bytes) (target value : Expr) (key : Option Bytes) (after : List Bytes) (b c : Bool)
      → contains x (insert_all (p.uses value) (assign_target p op target key after))
        ≡ weigh
            (two_ways
              (is_used p x value || target_used p x op target key)
              (target_passes p x op key))
            (contains x after)
            b
            c
  unfolding is_used
  assign-Before x op target value key after b c = ground (
    arith,
    contains-insert_all x (p.uses value) (assign_target p op target key after),
    assign_target-passes x op target key after,
  )

  mutual
    unfolding liveness_stmt ways is_used

    pub liveness_stmt-Before :
        (s : Stmt) (after break' continue' : List Bytes) (n : Notes)
        → Before
            (λ x. ways p x s)
            after
            break'
            continue'
            n
            (liveness_stmt p s after break' continue' n)
    liveness_stmt-Before (Tree.let_stmt a name init) after break' continue' n = record {
      elements = λ x. let-Before x a name init after (contains x break') (contains x continue');
      quiet = refl;
    }
    liveness_stmt-Before (Tree.assign_stmt a target op value) after break' continue' n = record {
      elements = λ x.
          assign-Before x op target value (p.whole_binding target) after (contains x break')
            (contains x continue');
      quiet = refl;
    }
    liveness_stmt-Before (Tree.expr_stmt a e) after break' continue' n = record {
      elements = λ x.
          insert-weigh x (p.uses e) after _ true _ (contains x break') (contains x continue') refl
            refl;
      quiet = refl;
    }
    liveness_stmt-Before (Tree.return_stmt a value) after break' continue' n = record {
      elements = λ x.
          insert-weigh x (uses_of p value) [] _ false (contains x after) (contains x break')
            (contains x continue') (uses_of-is_used_in x value) refl;
      quiet = refl;
    }
    liveness_stmt-Before (Tree.block_stmt a block) after break' continue' n =
        let ih = liveness_block-Before block after break' continue' (note_after a after n) in
        record { elements = ih.elements; quiet = ih.quiet }
    liveness_stmt-Before (Tree.unsafe_stmt a block) after break' continue' n =
        let ih = liveness_block-Before block after break' continue' (note_after a after n) in
        record { elements = ih.elements; quiet = ih.quiet }
    liveness_stmt-Before (Tree.if_stmt a c then' else') after break' continue' n =
        let left = liveness_block-Before then' after break' continue' (note_after a after n) in
        let right = liveness_else-Before else' after break' continue' _ in
        record {
          elements = λ x.
              if-weigh x (p.uses c) _ _ (ways_block p x then') (ways_else p x else') _ _ _
                (right.elements x) (left.elements x);
          quiet = right.quiet ∙ left.quiet;
        }
    liveness_stmt-Before (Tree.while_stmt a c body) after break' continue' n =
        let header =
          loop_header-Holds
            (λ x.
              contains x (p.uses c)
              || (adds (ways_block p x body) (contains x after) || contains x after))
            (λ x. keeps (ways_block p x body))
            (λ h m.
              on_live (λ w. insert_all (p.uses c) (insert_all w after))
                (liveness_block p body h after h m))
            (λ h m.
              let ih = liveness_block-Before body h after h m in
              record {
                elements = λ x.
                    while_round-weigh x (p.uses c) _ after (ways_block p x body) (contains x h)
                      (ih.elements x);
                quiet = ih.quiet;
              })
            a after (note_after a after n) in
        record {
          elements = λ x.
              header.elements x
              ∙ while-weigh (ways_block p x body) (contains x (p.uses c)) (contains x after)
                  (contains x break') (contains x continue');
          quiet = header.quiet;
        }
    liveness_stmt-Before (Tree.for_stmt a name b e body) after break' continue' n =
        let header =
          loop_header-Holds
            (λ x.
              (not (p.looped_by (p.for_key a name) x)
                && adds (ways_block p x body) (contains x after))
              || contains x after)
            (λ x. not (p.looped_by (p.for_key a name) x) && keeps (ways_block p x body))
            (λ h m.
              on_live (λ w. insert_all (erase_if (p.looped_by (p.for_key a name)) w) after)
                (liveness_block p body h after h m))
            (λ h m.
              let ih = liveness_block-Before body h after h m in
              record {
                elements = λ x.
                    for_round-weigh x (p.looped_by (p.for_key a name)) _ after (ways_block p x body)
                      (contains x h) (ih.elements x);
                quiet = ih.quiet;
              })
            a after (note_after a after n) in
        record {
          elements = λ x.
              for-weigh x (p.looped_by (p.for_key a name)) _ (p.uses e) (p.uses b)
                (ways_block p x body) (contains x after) (contains x break') (contains x continue')
                (header.elements x);
          quiet = header.quiet;
        }
    liveness_stmt-Before (Tree.loop_stmt a body) after break' continue' n =
        let header =
          loop_header-Holds (λ x. adds (ways_block p x body) (contains x after))
            (λ x. keeps (ways_block p x body)) (λ h m. liveness_block p body h after h m)
            (λ h m.
              let ih = liveness_block-Before body h after h m in
              record {
                elements = λ x.
                    ih.elements x
                    ∙ round-weigh (ways_block p x body) (contains x h) (contains x after);
                quiet = ih.quiet;
              })
            a after (note_after a after n) in
        record {
          elements = λ x.
              header.elements x
              ∙ loop-weigh (ways_block p x body) (contains x after) (contains x break')
                  (contains x continue');
          quiet = header.quiet;
        }
    liveness_stmt-Before (Tree.break_stmt a) after break' continue' n = record {
      elements = λ x. only_end (contains x break');
      quiet = refl;
    }
    liveness_stmt-Before (Tree.continue_stmt a) after break' continue' n = record {
      elements = λ x. refl;
      quiet = refl;
    }
    liveness_stmt-Before (Tree.fence_stmt a) after break' continue' n = record {
      elements = λ x. only_end (contains x after);
      quiet = refl;
    }

    pub liveness_block-Before :
        (ss : Stmts) (after break' continue' : List Bytes) (n : Notes)
        → Before
            (λ x. ways_block p x ss)
            after
            break'
            continue'
            n
            (liveness_block p ss after break' continue' n)
    liveness_block-Before Tree.no_stmts after break' continue' n = record {
      elements = λ x. only_end (contains x after);
      quiet = refl;
    }
    liveness_block-Before (Tree.next_stmt s ss) after break' continue' n =
        let rest = liveness_block-Before ss after break' continue' n in
        let first = liveness_stmt-Before s _ break' continue' _ in
        record {
          elements = λ x.
              first.elements x
              ∙ (rw (rest.elements x) (weigh-in_turn (ways p x s) (ways_block p x ss) _ _ _));
          quiet = first.quiet ∙ rest.quiet;
        }

    liveness_else-Before :
        (e : ElseBlock) (after break' continue' : List Bytes) (n : Notes)
        → Before
            (λ x. ways_else p x e)
            after
            break'
            continue'
            n
            (liveness_else p e after break' continue' n)
    liveness_else-Before Tree.no_else after break' continue' n = record {
      elements = λ x. only_end (contains x after);
      quiet = refl;
    }
    liveness_else-Before (Tree.else_block block) after break' continue' n =
        liveness_block-Before block after break' continue' n
