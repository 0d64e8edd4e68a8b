-- ===== src/Borrow/Liveness.antt =====
-- The analysis of liveness of src/borrow_liveness.cpp, which goes backwards through the statements
-- of a function. `liveness_stmt` for roots and `liveness_place_stmt` for whole places have the same
-- branches; a `Plane` holds what differs.
pub mod Paths
pub mod Summary
pub mod Converges
pub mod Ways
pub mod Weights
pub mod Correct
pub mod Exact
pub mod Noted
mod Tests
use uinx.Prelude.{
  ℕ, zero, suc, Bool, true, false, ◌||◌, List, [], ◌∷◌, Bytes, codes, str_eq, Option, none, some,
  if◌then◌else◌,
}
use uinx.Borrow.Places.{root_of, is_strict_child}
use uinx.Borrow.Sets.{insert_all, erase_if, same_set}
use uinx.Borrow.Tree
use uinx.Borrow.Tree.{Hir, Expr, Stmt, Stmts, ElseBlock, place_of, binding_key, for_binding_key}
use uinx.Borrow.Uses.{expression_uses, expression_place_uses}

pub record Plane : Type 0 where
  pub uses : Expr → List Bytes
  pub let_key : ℕ → Bytes → Bytes
  pub for_key : ℕ → Bytes → Bytes
  -- the key of the binding that an assignment target is as a whole
  pub whole_binding : Expr → Option Bytes
  -- what a new value of a binding ends, and what a loop does that binds
  pub ended_by : Bytes → Bytes → Bool
  pub looped_by : Bytes → Bytes → Bool

-- `live_before_`, `live_after_` by the address of a statement, the last entry first, and the
-- statements at which E0408 is reported
pub record Notes : Type 0 where
  pub before : List (ℕ × List Bytes)
  pub after : List (ℕ × List Bytes)
  pub not_converged : List ℕ

abbrev pub Flow : Type 0
Flow = List Bytes × Notes

abbrev pub note_after : ℕ → List Bytes → Notes → Notes
note_after a live n = record n { after = (a, live) ∷ n.after }

abbrev pub note_before : ℕ → Flow → Flow
note_before a (live, n) = (live, record n { before = (a, live) ∷ n.before })

abbrev pub note_error : ℕ → Bool → Notes → Notes
note_error a true n = n
note_error a false n = record n { not_converged = a ∷ n.not_converged }

-- the end of a round of the loop over headers
abbrev pub next_header :
    (List Bytes → Notes → List Bytes × Bool × Notes) → List Bytes → Flow → List Bytes × Bool × Notes
next_header go header (next, n) = if same_set next header then (header, true, n) else go next n

-- the loop over headers, on the rounds that are left; whether it converged stands behind the header
unfoldable pub converge :
    ℕ → (List Bytes → Notes → Flow) → List Bytes → Notes → List Bytes × Bool × Notes
unfolding same_set
converge zero round header n = (header, false, n)
converge (suc k) round header n = next_header (converge k round) header (round header n)

abbrev pub max_dataflow_iterations : ℕ
max_dataflow_iterations = 4096

abbrev pub loop_header : ℕ → (List Bytes → Notes → Flow) → List Bytes → Notes → Flow
unfolding converge
loop_header a round after n =
    let (header, done, n') = converge max_dataflow_iterations round after n in
    (header, note_error a done n')

-- a step on the set of a flow
abbrev pub on_live : (List Bytes → List Bytes) → Flow → Flow
on_live f (live, n) = (f live, n)

module _ (p : Plane) where
  abbrev pub uses_of : Option Expr → List Bytes
  uses_of none = []
  uses_of (some e) = p.uses e

  -- the effect of an assignment to its target
  abbrev pub assign_target : Bytes → Expr → Option Bytes → List Bytes → List Bytes
  assign_target op target none live = insert_all (p.uses target) live
  assign_target op target (some key) live =
      if str_eq op (codes "=")
      then erase_if (p.ended_by key) live
      else insert_all (p.uses target) live

  unfoldable mutual
    unfolding insert_all erase_if str_eq loop_header

    -- `liveness_stmt`: the sets behind the statement, behind its loop, and at the start of its loop,
    -- then what is noted
    pub liveness_stmt : Stmt → List Bytes → List Bytes → List Bytes → Notes → Flow
    liveness_stmt (Tree.let_stmt a name init) after break' continue' n = note_before a (
      insert_all (uses_of init) (erase_if (p.ended_by (p.let_key a name)) after),
      note_after a after n,
    )
    liveness_stmt (Tree.assign_stmt a target op value) after break' continue' n = note_before a (
      insert_all (p.uses value) (assign_target op target (p.whole_binding target) after),
      note_after a after n,
    )
    liveness_stmt (Tree.expr_stmt a e) after break' continue' n =
        note_before a (insert_all (p.uses e) after, note_after a after n)
    liveness_stmt (Tree.return_stmt a value) after break' continue' n =
        note_before a (insert_all (uses_of value) [], note_after a after n)
    liveness_stmt (Tree.block_stmt a block) after break' continue' n =
        note_before a (liveness_block block after break' continue' (note_after a after n))
    liveness_stmt (Tree.unsafe_stmt a block) after break' continue' n =
        note_before a (liveness_block block after break' continue' (note_after a after n))
    liveness_stmt (Tree.if_stmt a condition then' else') after break' continue' n = note_before a (
        let (left, n1) = liveness_block then' after break' continue' (note_after a after n) in
        on_live (λ right. insert_all (p.uses condition) (insert_all right left))
          (liveness_else else' after break' continue' n1))
    liveness_stmt (Tree.while_stmt a condition body) after break' continue' n = note_before a (
        loop_header a
          (λ header m.
            on_live (λ b. insert_all (p.uses condition) (insert_all b after))
              (liveness_block body header after header m))
          after (note_after a after n))
    liveness_stmt (Tree.for_stmt a name begin end' body) after break' continue' n = note_before a (
        on_live
          (λ header.
            insert_all (p.uses end')
              (insert_all (p.uses begin) (erase_if (p.looped_by (p.for_key a name)) header)))
          (loop_header a
            (λ header m.
              on_live (λ b. insert_all (erase_if (p.looped_by (p.for_key a name)) b) after)
                (liveness_block body header after header m))
            after (note_after a after n)))
    liveness_stmt (Tree.loop_stmt a body) after break' continue' n = note_before a (
        loop_header a (λ header m. liveness_block body header after header m) after
          (note_after a after n))
    liveness_stmt (Tree.break_stmt a) after break' continue' n =
        note_before a (break', note_after a after n)
    liveness_stmt (Tree.continue_stmt a) after break' continue' n =
        note_before a (continue', note_after a after n)
    liveness_stmt (Tree.fence_stmt a) after break' continue' n =
        note_before a (after, note_after a after n)

    -- `liveness_block`
    pub liveness_block : Stmts → List Bytes → List Bytes → List Bytes → Notes → Flow
    liveness_block Tree.no_stmts after break' continue' n = (after, n)
    liveness_block (Tree.next_stmt s ss) after break' continue' n =
        let (live, n1) = liveness_block ss after break' continue' n in
        liveness_stmt s live break' continue' n1

    pub liveness_else : ElseBlock → List Bytes → List Bytes → List Bytes → Notes → Flow
    liveness_else Tree.no_else after break' continue' n = (after, n)
    liveness_else (Tree.else_block block) after break' continue' n =
        liveness_block block after break' continue' n

-- the binding that a place is as a whole
abbrev pub whole : Option Bytes → Option Bytes
unfolding root_of str_eq
whole none = none
whole (some place) = if str_eq place (root_of place) then some place else none

-- the analysis of roots
unfoldable pub root_plane : Hir → Plane
unfolding expression_uses binding_key for_binding_key place_of whole str_eq
root_plane hir = record {
  uses = expression_uses hir;
  let_key = binding_key hir;
  for_key = for_binding_key hir;
  whole_binding = λ e. whole (place_of hir e);
  ended_by = λ key name. str_eq name key;
  looped_by = λ key name. str_eq name key;
}

-- the analysis of places
unfoldable pub place_plane : Hir → Plane
unfolding expression_place_uses binding_key for_binding_key place_of whole is_strict_child root_of
    str_eq
place_plane hir = record {
  uses = expression_place_uses hir;
  let_key = binding_key hir;
  for_key = for_binding_key hir;
  whole_binding = λ e. whole (place_of hir e);
  ended_by = λ key place. str_eq place key || is_strict_child key place;
  looped_by = λ key place. str_eq place key || str_eq (root_of place) key;
}

-- `liveness_place_stmt` and `liveness_place_block`
unfoldable pub liveness_place_stmt :
    Hir → Stmt → List Bytes → List Bytes → List Bytes → Notes → Flow
unfolding liveness_stmt place_plane
liveness_place_stmt hir s after break' continue' n =
    liveness_stmt (place_plane hir) s after break' continue' n

unfoldable pub liveness_place_block :
    Hir → Stmts → List Bytes → List Bytes → List Bytes → Notes → Flow
unfolding liveness_block place_plane
liveness_place_block hir ss after break' continue' n =
    liveness_block (place_plane hir) ss after break' continue' n

abbrev pub no_notes : Notes
no_notes = record { before = []; after = []; not_converged = [] }

-- `prepare_liveness`, of a function with a body: what the analyses of roots and of places note
unfoldable pub prepare_liveness : Hir → Stmts → Notes × Notes
unfolding liveness_block root_plane liveness_place_block
prepare_liveness hir body = (
  (liveness_block (root_plane hir) body [] [] [] no_notes).1,
  (liveness_place_block hir body [] [] [] no_notes).1,
)
