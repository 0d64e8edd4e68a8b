-- ===== src/Borrow/Uses.antt =====
-- What an expression uses: `collect_expr_uses` and `collect_place_uses` of src/borrow_liveness.cpp.
-- Both go through the same parts of an expression, and differ in what they take from a node itself.
pub mod Parts
pub mod Collected
pub mod Found
pub mod Exact
use uinx.Prelude.{List, [], ◌∷◌, map, Bytes, Option, none, some, ◌==◌, if◌then◌else◌}
use uinx.Borrow.Places.{root_of}
use uinx.Borrow.Sets.{insert, insert_all}
use uinx.Borrow.Tree
use uinx.Borrow.Tree.{Hir, Expr, Exprs, AsmOperands, AsmValue, place_of}

-- the name that an operand writes, where it has one
unfoldable pub insert_name : Bytes → List Bytes → List Bytes
unfolding insert
insert_name [] out = out
insert_name (c ∷ cs) out = insert (c ∷ cs) out

unfoldable mutual
  unfolding insert_all insert_name

  -- the walk of both: what the node itself uses, then its parts
  pub collect_uses : (Expr → List Bytes) → Expr → List Bytes → List Bytes
  collect_uses own Tree.leaf_expr out = insert_all (own Tree.leaf_expr) out
  collect_uses own (Tree.name_expr a name) out = insert_all (own (Tree.name_expr a name)) out
  collect_uses own (Tree.struct_literal_expr fields) out =
      collect_each own fields (insert_all (own (Tree.struct_literal_expr fields)) out)
  collect_uses own (Tree.unary_expr e) out =
      collect_uses own e (insert_all (own (Tree.unary_expr e)) out)
  collect_uses own (Tree.borrow_expr e) out =
      collect_uses own e (insert_all (own (Tree.borrow_expr e)) out)
  collect_uses own (Tree.await_expr e) out =
      collect_uses own e (insert_all (own (Tree.await_expr e)) out)
  collect_uses own (Tree.cast_expr e) out =
      collect_uses own e (insert_all (own (Tree.cast_expr e)) out)
  collect_uses own (Tree.binary_expr l r) out =
      collect_uses own r (collect_uses own l (insert_all (own (Tree.binary_expr l r)) out))
  collect_uses own (Tree.call_expr f args) out =
      collect_each own args (collect_uses own f (insert_all (own (Tree.call_expr f args)) out))
  collect_uses own (Tree.member_expr e m) out =
      collect_uses own e (insert_all (own (Tree.member_expr e m)) out)
  collect_uses own (Tree.index_expr e i) out =
      collect_uses own i (collect_uses own e (insert_all (own (Tree.index_expr e i)) out))
  collect_uses own (Tree.asm_expr operands) out =
      collect_operands own operands (insert_all (own (Tree.asm_expr operands)) out)

  pub collect_each : (Expr → List Bytes) → Exprs → List Bytes → List Bytes
  collect_each own Tree.no_exprs out = out
  collect_each own (Tree.next_expr e es) out = collect_each own es (collect_uses own e out)

  pub collect_operands : (Expr → List Bytes) → AsmOperands → List Bytes → List Bytes
  collect_operands own Tree.no_operands out = out
  collect_operands own (Tree.next_operand value name os) out =
      collect_operands own os (insert_name name (collect_value own value out))

  pub collect_value : (Expr → List Bytes) → AsmValue → List Bytes → List Bytes
  collect_value own Tree.no_value out = out
  collect_value own (Tree.value_of e) out = collect_uses own e out

abbrev root_found : Option Bytes → List Bytes
root_found none = []
root_found (some p) = root_of p ∷ []

-- what `collect_expr_uses` takes from a node
unfoldable pub own_roots : Hir → Expr → List Bytes
unfolding place_of root_of
own_roots hir (Tree.name_expr a name) = root_found (place_of hir (Tree.name_expr a name))
own_roots hir _ = []

-- what stands before each dot
unfoldable pub parents : Bytes → List Bytes
parents [] = []
parents (c ∷ cs) = let rest = map (λ p. c ∷ p) (parents cs) in if c == b'.' then [] ∷ rest else rest

abbrev place_found : Option Bytes → List Bytes
place_found none = []
place_found (some p) = p ∷ parents p

-- what `collect_place_uses` takes from a node: its place, and those around it
unfoldable pub own_places : Hir → Expr → List Bytes
unfolding place_of parents
own_places hir e = place_found (place_of hir e)

-- `collect_expr_uses` and `collect_place_uses`
unfoldable pub collect_expr_uses : Hir → Expr → List Bytes → List Bytes
unfolding collect_uses own_roots
collect_expr_uses hir e out = collect_uses (own_roots hir) e out

unfoldable pub collect_place_uses : Hir → Expr → List Bytes → List Bytes
unfolding collect_uses own_places
collect_place_uses hir e out = collect_uses (own_places hir) e out

-- `expression_uses`
unfoldable pub expression_uses : Hir → Expr → List Bytes
unfolding collect_expr_uses
expression_uses hir e = collect_expr_uses hir e []

-- `expression_place_uses`
unfoldable pub expression_place_uses : Hir → Expr → List Bytes
unfolding collect_place_uses
expression_place_uses hir e = collect_place_uses hir e []
