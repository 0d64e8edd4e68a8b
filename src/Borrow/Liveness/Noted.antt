-- ===== src/Borrow/Liveness/Noted.antt =====
-- What the analysis of liveness notes before a statement, and what it leaves of the notes on others.
use uinx.Prelude.{
  ℕ, zero, suc, Bool, true, false, List, ◌∷◌, Bytes, some, ◌==◌, ◌≡◌, refl, ◌∙◌, arith, Bool-cases,
  inl, inr,
}
use uinx.Borrow.Sets.{same_set, insert_all, erase_if}
use uinx.Borrow.Tree
use uinx.Borrow.Tree.{Stmt, Stmts, ElseBlock, find_at}
use uinx.Borrow.Liveness.{
  Plane, Notes, Flow, on_live, note_after, note_error, converge, max_dataflow_iterations,
  loop_header, liveness_stmt, liveness_block, liveness_else,
}

abbrev pub address_of : Stmt → ℕ
address_of (Tree.let_stmt a name init) = a
address_of (Tree.assign_stmt a target op value) = a
address_of (Tree.expr_stmt a e) = a
address_of (Tree.return_stmt a value) = a
address_of (Tree.block_stmt a block) = a
address_of (Tree.if_stmt a c then' else') = a
address_of (Tree.while_stmt a c body) = a
address_of (Tree.for_stmt a name b e body) = a
address_of (Tree.loop_stmt a body) = a
address_of (Tree.break_stmt a) = a
address_of (Tree.continue_stmt a) = a
address_of (Tree.fence_stmt a) = a
address_of (Tree.unsafe_stmt a body) = a

abbrev pub followed_by : Stmts → Stmts → Stmts
followed_by Tree.no_stmts rest = rest
followed_by (Tree.next_stmt s ss) rest = Tree.next_stmt s (followed_by ss rest)

find_at_first : {V : Type 0} (a : ℕ) (v : V) (m : List (ℕ × V)) → find_at a ((a, v) ∷ m) ≡ some v
unfolding find_at
find_at_first a v m = ground arith

-- What a statement notes last is what is live before it.
pub find_at-liveness_stmt :
    (p : Plane) (s : Stmt) (after break' continue' : List Bytes) (n : Notes)
    → find_at (address_of s) (liveness_stmt p s after break' continue' n).1.before
      ≡ some (liveness_stmt p s after break' continue' n).0
unfolding liveness_stmt
find_at-liveness_stmt p (Tree.let_stmt a name init) after b c n = find_at_first a _ _
find_at-liveness_stmt p (Tree.assign_stmt a target op value) after b c n = find_at_first a _ _
find_at-liveness_stmt p (Tree.expr_stmt a e) after b c n = find_at_first a _ _
find_at-liveness_stmt p (Tree.return_stmt a value) after b c n = find_at_first a _ _
find_at-liveness_stmt p (Tree.block_stmt a block) after b c n = find_at_first a _ _
find_at-liveness_stmt p (Tree.if_stmt a e then' else') after b c n = find_at_first a _ _
find_at-liveness_stmt p (Tree.while_stmt a e body) after b c n = find_at_first a _ _
find_at-liveness_stmt p (Tree.for_stmt a name l r body) after b c n = find_at_first a _ _
find_at-liveness_stmt p (Tree.loop_stmt a body) after b c n = find_at_first a _ _
find_at-liveness_stmt p (Tree.break_stmt a) after b c n = find_at_first a _ _
find_at-liveness_stmt p (Tree.continue_stmt a) after b c n = find_at_first a _ _
find_at-liveness_stmt p (Tree.fence_stmt a) after b c n = find_at_first a _ _
find_at-liveness_stmt p (Tree.unsafe_stmt a body) after b c n = find_at_first a _ _

module _ (at' : ℕ) where
  -- No statement in there has the address `at'`.
  unfoldable mutual
    pub Elsewhere : Stmt → Type 0
    Elsewhere (Tree.block_stmt a block) = ((a == at') ≡ false) × ElsewhereIn block
    Elsewhere (Tree.unsafe_stmt a block) = ((a == at') ≡ false) × ElsewhereIn block
    Elsewhere (Tree.if_stmt a c then' else') =
        ((a == at') ≡ false) × ElsewhereIn then' × ElsewhereElse else'
    Elsewhere (Tree.while_stmt a c body) = ((a == at') ≡ false) × ElsewhereIn body
    Elsewhere (Tree.for_stmt a name b e body) = ((a == at') ≡ false) × ElsewhereIn body
    Elsewhere (Tree.loop_stmt a body) = ((a == at') ≡ false) × ElsewhereIn body
    Elsewhere (Tree.let_stmt a name init) = (a == at') ≡ false
    Elsewhere (Tree.assign_stmt a target op value) = (a == at') ≡ false
    Elsewhere (Tree.expr_stmt a e) = (a == at') ≡ false
    Elsewhere (Tree.return_stmt a value) = (a == at') ≡ false
    Elsewhere (Tree.break_stmt a) = (a == at') ≡ false
    Elsewhere (Tree.continue_stmt a) = (a == at') ≡ false
    Elsewhere (Tree.fence_stmt a) = (a == at') ≡ false

    pub ElsewhereIn : Stmts → Type 0
    ElsewhereIn Tree.no_stmts = Unit
    ElsewhereIn (Tree.next_stmt s ss) = Elsewhere s × ElsewhereIn ss

    pub ElsewhereElse : ElseBlock → Type 0
    ElsewhereElse Tree.no_else = Unit
    ElsewhereElse (Tree.else_block block) = ElsewhereIn block

  -- the same is noted before the statement at the address
  abbrev Keeps : List (ℕ × List Bytes) → List (ℕ × List Bytes) → Type 0
  Keeps xs ys = find_at at' ys ≡ find_at at' xs

  note-Keeps :
      (a : ℕ) (live : List Bytes) (xs ys : List (ℕ × List Bytes))
      → (a == at') ≡ false
      → Keeps xs ys
      → Keeps xs ((a, live) ∷ ys)
  unfolding find_at
  note-Keeps a live xs ys e k = ground (arith, e, k)

  note_error-Keeps :
      (a : ℕ) (done : Bool) (xs : List (ℕ × List Bytes)) (m : Notes)
      → Keeps xs m.before
      → Keeps xs (note_error a done m).before
  note_error-Keeps a true xs m k = k
  note_error-Keeps a false xs m k = k

  module _ (round : List Bytes → Notes → Flow)
      (kept : (h : List Bytes) (n : Notes) → Keeps n.before (round h n).1.before) where
    converge-Keeps :
        (k : ℕ) (header : List Bytes) (n : Notes)
        → Keeps n.before (converge k round header n).2.before
    unfolding converge
    converge-Keeps zero header n = refl
    converge-Keeps (suc k) header n = elim (Bool-cases (same_set (round header n).0 header)) [
      | inl yes' ↦ rw yes' (kept header n)
      | inr no' ↦ rw no' (converge-Keeps k (round header n).0 (round header n).1 ∙ kept header n)
    ]

    loop_header-Keeps :
        (a : ℕ) (after : List Bytes) (n : Notes)
        → Keeps n.before (loop_header a round after n).1.before
    unfolding loop_header
    loop_header-Keeps a after n =
        note_error-Keeps a _ n.before _ (converge-Keeps max_dataflow_iterations after n)

  module _ (p : Plane) where
    mutual
      unfolding liveness_stmt Elsewhere

      pub liveness_stmt-Keeps :
          (s : Stmt) (after b c : List Bytes) (n : Notes)
          → Elsewhere s
          → Keeps n.before (liveness_stmt p s after b c n).1.before
      liveness_stmt-Keeps (Tree.let_stmt a name init) after b c n e =
          note-Keeps a _ n.before _ e refl
      liveness_stmt-Keeps (Tree.assign_stmt a target op value) after b c n e =
          note-Keeps a _ n.before _ e refl
      liveness_stmt-Keeps (Tree.expr_stmt a x) after b c n e = note-Keeps a _ n.before _ e refl
      liveness_stmt-Keeps (Tree.return_stmt a value) after b c n e =
          note-Keeps a _ n.before _ e refl
      liveness_stmt-Keeps (Tree.break_stmt a) after b c n e = note-Keeps a _ n.before _ e refl
      liveness_stmt-Keeps (Tree.continue_stmt a) after b c n e = note-Keeps a _ n.before _ e refl
      liveness_stmt-Keeps (Tree.fence_stmt a) after b c n e = note-Keeps a _ n.before _ e refl
      liveness_stmt-Keeps (Tree.block_stmt a block) after b c n e =
          note-Keeps a _ n.before _ e.0 (liveness_block-Keeps block after b c _ e.1)
      liveness_stmt-Keeps (Tree.unsafe_stmt a block) after b c n e =
          note-Keeps a _ n.before _ e.0 (liveness_block-Keeps block after b c _ e.1)
      liveness_stmt-Keeps (Tree.if_stmt a x then' else') after b c n e =
          note-Keeps a _ n.before _ e.0
            (liveness_else-Keeps else' after b c _ e.2 ∙ liveness_block-Keeps then' after b c _ e.1)
      liveness_stmt-Keeps (Tree.while_stmt a x body) after b c n e = note-Keeps a _ n.before _ e.0 (
          loop_header-Keeps
            (λ h m.
              on_live (λ l. insert_all (p.uses x) (insert_all l after))
                (liveness_block p body h after h m))
            (λ h m. liveness_block-Keeps body h after h m e.1) a after (note_after a after n))
      liveness_stmt-Keeps (Tree.for_stmt a name l r body) after b c n e =
          note-Keeps a _ n.before _ e.0 (
            loop_header-Keeps
              (λ h m.
                on_live (λ u. insert_all (erase_if (p.looped_by (p.for_key a name)) u) after)
                  (liveness_block p body h after h m))
              (λ h m. liveness_block-Keeps body h after h m e.1) a after (note_after a after n))
      liveness_stmt-Keeps (Tree.loop_stmt a body) after b c n e = note-Keeps a _ n.before _ e.0 (
          loop_header-Keeps (λ h m. liveness_block p body h after h m)
            (λ h m. liveness_block-Keeps body h after h m e.1) a after (note_after a after n))

      pub liveness_block-Keeps :
          (ss : Stmts) (after b c : List Bytes) (n : Notes)
          → ElsewhereIn ss
          → Keeps n.before (liveness_block p ss after b c n).1.before
      liveness_block-Keeps Tree.no_stmts after b c n e = refl
      liveness_block-Keeps (Tree.next_stmt s ss) after b c n e =
          liveness_stmt-Keeps s _ b c _ e.0 ∙ liveness_block-Keeps ss after b c n e.1

      liveness_else-Keeps :
          (s : ElseBlock) (after b c : List Bytes) (n : Notes)
          → ElsewhereElse s
          → Keeps n.before (liveness_else p s after b c n).1.before
      liveness_else-Keeps Tree.no_else after b c n e = refl
      liveness_else-Keeps (Tree.else_block block) after b c n e =
          liveness_block-Keeps block after b c n e

    -- The statements in front leave the notes on those behind.
    pub followed_by-Keeps :
        (front rest : Stmts) (after b c : List Bytes) (n : Notes)
        → ElsewhereIn front
        → Keeps
            (liveness_block p rest after b c n).1.before
            (liveness_block p (followed_by front rest) after b c n).1.before
    unfolding liveness_block Elsewhere
    followed_by-Keeps Tree.no_stmts rest after b c n e = refl
    followed_by-Keeps (Tree.next_stmt s ss) rest after b c n e =
        liveness_stmt-Keeps s _ b c _ e.0 ∙ followed_by-Keeps ss rest after b c n e.1
