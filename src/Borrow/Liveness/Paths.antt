-- ===== src/Borrow/Liveness/Paths.antt =====
-- What liveness means: the ways control takes through statements to a use of a name or place, or
-- out of them, on which the name gets no new value.
use uinx.Prelude.{
  ◌⊎◌, ℕ, Bool, true, false, not, Bytes, codes, str_eq, contains, Option, none, some, ◌≡◌,
  if◌then◌else◌,
}
use uinx.Borrow.Tree
use uinx.Borrow.Tree.{Expr, Stmt, Stmts, ElseBlock}
use uinx.Borrow.Liveness.{Plane}

-- how a way ends: at a use, behind the statement, or at a `break` or `continue` of the loop around
pub data Exit : Type 0 where
  used ended broke continued : Exit

-- what leaves a block in the middle
abbrev pub leaves : Exit → Bool
leaves Exit.ended = false
leaves _ = true

module _ (p : Plane) (x : Bytes) where
  unfoldable pub is_used : Expr → Bool
  unfolding contains
  is_used e = contains x (p.uses e)

  unfoldable pub is_used_in : Option Expr → Bool
  unfolding is_used
  is_used_in none = false
  is_used_in (some e) = is_used e

  abbrev pub lets_pass : ℕ → Bytes → Bool
  lets_pass a name = not (p.ended_by (p.let_key a name) x)

  abbrev pub loop_passes : ℕ → Bytes → Bool
  loop_passes a name = not (p.looped_by (p.for_key a name) x)

  -- An assignment with `=` to a whole binding gives it a value; any other reads its target.
  unfoldable pub target_used : Bytes → Expr → Option Bytes → Bool
  unfolding is_used str_eq
  target_used op target none = is_used target
  target_used op target (some key) = if str_eq op (codes "=") then false else is_used target

  unfoldable pub target_passes : Bytes → Option Bytes → Bool
  unfolding str_eq
  target_passes op none = true
  target_passes op (some key) = if str_eq op (codes "=") then not (p.ended_by key x) else true

  mutual
    pub data Way : Stmt → Exit → Type 0 where
      let_uses :
          {a : ℕ} {name : Bytes} {init : Option Expr}
          → is_used_in init ≡ true
          → Way (Tree.let_stmt a name init) used
      let_ends :
          {a : ℕ} {name : Bytes} {init : Option Expr}
          → lets_pass a name ≡ true
          → Way (Tree.let_stmt a name init) ended
      value_uses :
          {a : ℕ} {target value : Expr} {op : Bytes}
          → is_used value ≡ true
          → Way (Tree.assign_stmt a target op value) used
      target_uses :
          {a : ℕ} {target value : Expr} {op : Bytes}
          → target_used op target (p.whole_binding target) ≡ true
          → Way (Tree.assign_stmt a target op value) used
      assign_ends :
          {a : ℕ} {target value : Expr} {op : Bytes}
          → target_passes op (p.whole_binding target) ≡ true
          → Way (Tree.assign_stmt a target op value) ended
      expr_uses : {a : ℕ} {e : Expr} → is_used e ≡ true → Way (Tree.expr_stmt a e) used
      expr_ends : {a : ℕ} {e : Expr} → Way (Tree.expr_stmt a e) ended
      return_uses :
          {a : ℕ} {value : Option Expr}
          → is_used_in value ≡ true
          → Way (Tree.return_stmt a value) used
      through_block :
          {a : ℕ} {block : Stmts} {t : Exit} → WayThrough block t → Way (Tree.block_stmt a block) t
      through_unsafe :
          {a : ℕ} {block : Stmts} {t : Exit} → WayThrough block t → Way (Tree.unsafe_stmt a block) t
      if_uses :
          {a : ℕ} {c : Expr} {then' : Stmts} {else' : ElseBlock}
          → is_used c ≡ true
          → Way (Tree.if_stmt a c then' else') used
      through_then :
          {a : ℕ} {c : Expr} {then' : Stmts} {else' : ElseBlock} {t : Exit}
          → WayThrough then' t
          → Way (Tree.if_stmt a c then' else') t
      through_else :
          {a : ℕ} {c : Expr} {then' else' : Stmts} {t : Exit}
          → WayThrough else' t
          → Way (Tree.if_stmt a c then' (Tree.else_block else')) t
      past_then :
          {a : ℕ} {c : Expr} {then' : Stmts} → Way (Tree.if_stmt a c then' Tree.no_else) ended
      while_uses :
          {a : ℕ} {c : Expr} {body : Stmts} → is_used c ≡ true → Way (Tree.while_stmt a c body) used
      while_ends : {a : ℕ} {c : Expr} {body : Stmts} → Way (Tree.while_stmt a c body) ended
      while_body :
          {a : ℕ} {c : Expr} {body : Stmts}
          → WayThrough body used
          → Way (Tree.while_stmt a c body) used
      while_breaks :
          {a : ℕ} {c : Expr} {body : Stmts}
          → WayThrough body broke
          → Way (Tree.while_stmt a c body) ended
      while_again :
          {a : ℕ} {c : Expr} {body : Stmts} {t : Exit}
          → WayThrough body ended
          → Way (Tree.while_stmt a c body) t
          → Way (Tree.while_stmt a c body) t
      while_continues :
          {a : ℕ} {c : Expr} {body : Stmts} {t : Exit}
          → WayThrough body continued
          → Way (Tree.while_stmt a c body) t
          → Way (Tree.while_stmt a c body) t
      begin_uses :
          {a : ℕ} {name : Bytes} {b e : Expr} {body : Stmts}
          → is_used b ≡ true
          → Way (Tree.for_stmt a name b e body) used
      end_uses :
          {a : ℕ} {name : Bytes} {b e : Expr} {body : Stmts}
          → is_used e ≡ true
          → Way (Tree.for_stmt a name b e body) used
      through_for :
          {a : ℕ} {name : Bytes} {b e : Expr} {body : Stmts} {t : Exit}
          → loop_passes a name ≡ true
          → ForRounds body t
          → Way (Tree.for_stmt a name b e body) t
      loop_body : {a : ℕ} {body : Stmts} → WayThrough body used → Way (Tree.loop_stmt a body) used
      loop_breaks :
          {a : ℕ} {body : Stmts} → WayThrough body broke → Way (Tree.loop_stmt a body) ended
      loop_again :
          {a : ℕ} {body : Stmts} {t : Exit}
          → WayThrough body ended
          → Way (Tree.loop_stmt a body) t
          → Way (Tree.loop_stmt a body) t
      loop_continues :
          {a : ℕ} {body : Stmts} {t : Exit}
          → WayThrough body continued
          → Way (Tree.loop_stmt a body) t
          → Way (Tree.loop_stmt a body) t
      breaks : {a : ℕ} → Way (Tree.break_stmt a) broke
      continues : {a : ℕ} → Way (Tree.continue_stmt a) continued
      fence_ends : {a : ℕ} → Way (Tree.fence_stmt a) ended

    pub data WayThrough : Stmts → Exit → Type 0 where
      at_end : WayThrough Tree.no_stmts ended
      stops_at :
          {s : Stmt} {ss : Stmts} {t : Exit}
          → leaves t ≡ true
          → Way s t
          → WayThrough (Tree.next_stmt s ss) t
      goes_on :
          {s : Stmt} {ss : Stmts} {t : Exit}
          → Way s ended
          → WayThrough ss t
          → WayThrough (Tree.next_stmt s ss) t

    -- the rounds of a `for` loop
    pub data ForRounds : Stmts → Exit → Type 0 where
      no_round : {body : Stmts} → ForRounds body ended
      round_uses : {body : Stmts} → WayThrough body used → ForRounds body used
      round_breaks : {body : Stmts} → WayThrough body broke → ForRounds body ended
      next_round :
          {body : Stmts} {t : Exit} → WayThrough body ended → ForRounds body t → ForRounds body t
      continue_round :
          {body : Stmts} {t : Exit}
          → WayThrough body continued
          → ForRounds body t
          → ForRounds body t

  -- In every `loop` a way leads to a `break`, or none to the end of a round.
  unfoldable mutual
    pub LoopsBreak : Stmt → Type 0
    LoopsBreak (Tree.block_stmt a block) = LoopsBreakIn block
    LoopsBreak (Tree.unsafe_stmt a block) = LoopsBreakIn block
    LoopsBreak (Tree.if_stmt a c then' else') = LoopsBreakIn then' × LoopsBreakElse else'
    LoopsBreak (Tree.while_stmt a c body) = LoopsBreakIn body
    LoopsBreak (Tree.for_stmt a name b e body) = LoopsBreakIn body
    LoopsBreak (Tree.loop_stmt a body) =
        (WayThrough body broke ⊎ (¬ WayThrough body ended × ¬ WayThrough body continued))
        × LoopsBreakIn body
    LoopsBreak _ = Unit

    pub LoopsBreakIn : Stmts → Type 0
    LoopsBreakIn Tree.no_stmts = Unit
    LoopsBreakIn (Tree.next_stmt s ss) = LoopsBreak s × LoopsBreakIn ss

    pub LoopsBreakElse : ElseBlock → Type 0
    LoopsBreakElse Tree.no_else = Unit
    LoopsBreakElse (Tree.else_block block) = LoopsBreakIn block
