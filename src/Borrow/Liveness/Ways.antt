-- ===== src/Borrow/Liveness/Ways.antt =====
-- The ways that there are, are computed; where every `loop` can be left, no others are.
use uinx.Prelude.{
  ℕ, Bool, true, ◌&&◌, ◌||◌, Bytes, ◌≡◌, inl, inr, refl, and_left, and_right, or_cases, or_first,
  or_second,
}
use uinx.Borrow.Tree
use uinx.Borrow.Tree.{Expr, Stmt, Stmts, ElseBlock}
use uinx.Borrow.Liveness.{Plane}
use uinx.Borrow.Liveness.Paths
use uinx.Borrow.Liveness.Paths.{
  Exit, used, ended, broke, continued, leaves, Way, WayThrough, ForRounds, LoopsBreak, LoopsBreakIn,
  LoopsBreakElse, is_used, is_used_in, target_used, target_passes, loop_passes,
}
use uinx.Borrow.Liveness.Summary.{ways, ways_block, ways_else, two_ways, is_use}

and_both : (a b : Bool) → a ≡ true → b ≡ true → (a && b) ≡ true
and_both a b h g = rw (h, g) refl

module _ (p : Plane) (x : Bytes) where
  rounds-two_ways :
      (e b pass u : Bool) (t : Exit)
      → pass ≡ true
      → two_ways u true t ≡ true
      → two_ways (e || (b || (pass && u))) pass t ≡ true
  rounds-two_ways e b pass u Exit.used h g = or_second e _ (or_second b _ (and_both pass u h g))
  rounds-two_ways e b pass u Exit.ended h g = h
  rounds-two_ways e b pass u Exit.broke h g = cc
  rounds-two_ways e b pass u Exit.continued h g = cc

  mutual
    unfolding ways

    pub Way-ways : {s : Stmt} {t : Exit} → Way p x s t → ways p x s t ≡ true
    Way-ways (Paths.let_uses h) = h
    Way-ways (Paths.let_ends h) = h
    Way-ways (Paths.value_uses h) = or_first _ _ h
    Way-ways (Paths.target_uses h) = or_second _ _ h
    Way-ways (Paths.assign_ends h) = h
    Way-ways (Paths.expr_uses h) = h
    Way-ways Paths.expr_ends = refl
    Way-ways (Paths.return_uses h) = h
    Way-ways (Paths.through_block w) = WayThrough-ways w
    Way-ways (Paths.through_unsafe w) = WayThrough-ways w
    Way-ways (Paths.if_uses h) = or_first _ _ h
    Way-ways (Paths.through_then w) = or_second _ _ (or_first _ _ (WayThrough-ways w))
    Way-ways (Paths.through_else w) = or_second _ _ (or_second _ _ (WayThrough-ways w))
    Way-ways Paths.past_then = or_second _ _ refl
    Way-ways (Paths.while_uses h) = or_first _ _ h
    Way-ways Paths.while_ends = refl
    Way-ways (Paths.while_body w) = or_second _ _ (WayThrough-ways w)
    Way-ways (Paths.while_breaks w) = refl
    Way-ways (Paths.while_again w v) = Way-ways v
    Way-ways (Paths.while_continues w v) = Way-ways v
    Way-ways (Paths.begin_uses h) = or_second _ _ (or_first _ _ h)
    Way-ways (Paths.end_uses h) = or_first _ _ h
    Way-ways (Paths.through_for {a} {name} {b} {e} {body} {t} h r) =
        rounds-two_ways (is_used p x e) (is_used p x b) _ (ways_block p x body used) t h
          (ForRounds-ways r)
    Way-ways (Paths.loop_body w) = WayThrough-ways w
    Way-ways (Paths.loop_breaks w) = or_first _ _ (WayThrough-ways w)
    Way-ways (Paths.loop_again w v) = Way-ways v
    Way-ways (Paths.loop_continues w v) = Way-ways v
    Way-ways Paths.breaks = refl
    Way-ways Paths.continues = refl
    Way-ways Paths.fence_ends = refl

    pub WayThrough-ways : {ss : Stmts} {t : Exit} → WayThrough p x ss t → ways_block p x ss t ≡ true
    WayThrough-ways Paths.at_end = refl
    WayThrough-ways (Paths.stops_at l w) = or_first _ _ (and_both _ _ l (Way-ways w))
    WayThrough-ways (Paths.goes_on w v) =
        or_second _ _ (and_both _ _ (Way-ways w) (WayThrough-ways v))

    ForRounds-ways :
        {body : Stmts} {t : Exit}
        → ForRounds p x body t
        → two_ways (ways_block p x body used) true t ≡ true
    ForRounds-ways Paths.no_round = refl
    ForRounds-ways (Paths.round_uses w) = WayThrough-ways w
    ForRounds-ways (Paths.round_breaks w) = refl
    ForRounds-ways (Paths.next_round w r) = ForRounds-ways r
    ForRounds-ways (Paths.continue_round w r) = ForRounds-ways r

  at_condition :
      (a : ℕ) (c : Expr) (then' : Stmts) (else' : ElseBlock) (t : Exit)
      → (is_use t && is_used p x c) ≡ true
      → Way p x (Tree.if_stmt a c then' else') t
  at_condition a c then' else' Exit.used h = Paths.if_uses h
  at_condition a c then' else' Exit.ended h = cc
  at_condition a c then' else' Exit.broke h = cc
  at_condition a c then' else' Exit.continued h = cc

  mutual
    unfolding ways LoopsBreak

    pub ways-Way : (s : Stmt) (t : Exit) → LoopsBreak p x s → ways p x s t ≡ true → Way p x s t
    ways-Way (Tree.let_stmt a name init) Exit.used k h = Paths.let_uses h
    ways-Way (Tree.let_stmt a name init) Exit.ended k h = Paths.let_ends h
    ways-Way (Tree.let_stmt a name init) Exit.broke k h = cc
    ways-Way (Tree.let_stmt a name init) Exit.continued k h = cc
    ways-Way (Tree.assign_stmt a target op value) Exit.used k h = elim (or_cases _ _ h) [
      | inl u ↦ Paths.value_uses u
      | inr u ↦ Paths.target_uses u
    ]
    ways-Way (Tree.assign_stmt a target op value) Exit.ended k h = Paths.assign_ends h
    ways-Way (Tree.assign_stmt a target op value) Exit.broke k h = cc
    ways-Way (Tree.assign_stmt a target op value) Exit.continued k h = cc
    ways-Way (Tree.expr_stmt a e) Exit.used k h = Paths.expr_uses h
    ways-Way (Tree.expr_stmt a e) Exit.ended k h = Paths.expr_ends
    ways-Way (Tree.expr_stmt a e) Exit.broke k h = cc
    ways-Way (Tree.expr_stmt a e) Exit.continued k h = cc
    ways-Way (Tree.return_stmt a value) Exit.used k h = Paths.return_uses h
    ways-Way (Tree.return_stmt a value) Exit.ended k h = cc
    ways-Way (Tree.return_stmt a value) Exit.broke k h = cc
    ways-Way (Tree.return_stmt a value) Exit.continued k h = cc
    ways-Way (Tree.block_stmt a block) t k h = Paths.through_block (ways-WayThrough block t k h)
    ways-Way (Tree.unsafe_stmt a block) t k h = Paths.through_unsafe (ways-WayThrough block t k h)
    ways-Way (Tree.if_stmt a c then' else') t k h =
        elim (or_cases (is_use t && is_used p x c) _ h) [
          | inl u ↦ at_condition a c then' else' t u
          | inr w ↦ elim (or_cases (ways_block p x then' t) _ w) [
            | inl v ↦ Paths.through_then (ways-WayThrough then' t k.0 v)
            | inr v ↦ ways_else-Way a c then' else' t k.1 v
          ]
        ]
    ways-Way (Tree.while_stmt a c body) Exit.used k h = elim (or_cases _ _ h) [
      | inl u ↦ Paths.while_uses u
      | inr w ↦ Paths.while_body (ways-WayThrough body used k w)
    ]
    ways-Way (Tree.while_stmt a c body) Exit.ended k h = Paths.while_ends
    ways-Way (Tree.while_stmt a c body) Exit.broke k h = cc
    ways-Way (Tree.while_stmt a c body) Exit.continued k h = cc
    ways-Way (Tree.for_stmt a name b e body) Exit.used k h = elim (or_cases (is_used p x e) _ h) [
      | inl u ↦ Paths.end_uses u
      | inr g ↦ elim (or_cases (is_used p x b) _ g) [
        | inl u ↦ Paths.begin_uses u
        | inr w ↦ Paths.through_for (and_left _ _ w) (
            Paths.round_uses (ways-WayThrough body used k (and_right (loop_passes p x a name) _ w)))
      ]
    ]
    ways-Way (Tree.for_stmt a name b e body) Exit.ended k h = Paths.through_for h Paths.no_round
    ways-Way (Tree.for_stmt a name b e body) Exit.broke k h = cc
    ways-Way (Tree.for_stmt a name b e body) Exit.continued k h = cc
    ways-Way (Tree.loop_stmt a body) Exit.used k h =
        Paths.loop_body (ways-WayThrough body used k.1 h)
    ways-Way (Tree.loop_stmt a body) Exit.ended k h = elim k.0 [
      | inl w ↦ Paths.loop_breaks w
      | inr none' ↦ elim (or_cases (ways_block p x body broke) _ h) [
        | inl w ↦ Paths.loop_breaks (ways-WayThrough body broke k.1 w)
        | inr g ↦ elim (or_cases (ways_block p x body ended) _ g) [
          | inl w ↦ absurd (none'.0 (ways-WayThrough body ended k.1 w))
          | inr w ↦ absurd (none'.1 (ways-WayThrough body continued k.1 w))
        ]
      ]
    ]
    ways-Way (Tree.loop_stmt a body) Exit.broke k h = cc
    ways-Way (Tree.loop_stmt a body) Exit.continued k h = cc
    ways-Way (Tree.break_stmt a) Exit.used k h = cc
    ways-Way (Tree.break_stmt a) Exit.ended k h = cc
    ways-Way (Tree.break_stmt a) Exit.broke k h = Paths.breaks
    ways-Way (Tree.break_stmt a) Exit.continued k h = cc
    ways-Way (Tree.continue_stmt a) Exit.used k h = cc
    ways-Way (Tree.continue_stmt a) Exit.ended k h = cc
    ways-Way (Tree.continue_stmt a) Exit.broke k h = cc
    ways-Way (Tree.continue_stmt a) Exit.continued k h = Paths.continues
    ways-Way (Tree.fence_stmt a) Exit.used k h = cc
    ways-Way (Tree.fence_stmt a) Exit.ended k h = Paths.fence_ends
    ways-Way (Tree.fence_stmt a) Exit.broke k h = cc
    ways-Way (Tree.fence_stmt a) Exit.continued k h = cc

    pub ways-WayThrough :
        (ss : Stmts) (t : Exit)
        → LoopsBreakIn p x ss
        → ways_block p x ss t ≡ true
        → WayThrough p x ss t
    ways-WayThrough Tree.no_stmts Exit.used k h = cc
    ways-WayThrough Tree.no_stmts Exit.ended k h = Paths.at_end
    ways-WayThrough Tree.no_stmts Exit.broke k h = cc
    ways-WayThrough Tree.no_stmts Exit.continued k h = cc
    ways-WayThrough (Tree.next_stmt s ss) t k h = elim (or_cases (leaves t && ways p x s t) _ h) [
      | inl w ↦ Paths.stops_at (and_left _ _ w) (ways-Way s t k.0 (and_right (leaves t) _ w))
      | inr w ↦
          Paths.goes_on (ways-Way s ended k.0 (and_left _ _ w))
            (ways-WayThrough ss t k.1 (and_right (ways p x s ended) _ w))
    ]

    ways_else-Way :
        (a : ℕ) (c : Expr) (then' : Stmts) (else' : ElseBlock) (t : Exit)
        → LoopsBreakElse p x else'
        → ways_else p x else' t ≡ true
        → Way p x (Tree.if_stmt a c then' else') t
    ways_else-Way a c then' Tree.no_else Exit.used k h = cc
    ways_else-Way a c then' Tree.no_else Exit.ended k h = Paths.past_then
    ways_else-Way a c then' Tree.no_else Exit.broke k h = cc
    ways_else-Way a c then' Tree.no_else Exit.continued k h = cc
    ways_else-Way a c then' (Tree.else_block block) t k h =
        Paths.through_else (ways-WayThrough block t k h)
