-- ===== src/Borrow/Uses/Collected.antt =====
-- What the walk over an expression collects: what its parts use, and what they write.
use uinx.Prelude.{Bool, false, ◌||◌, List, [], ◌∷◌, Bytes, contains, str_eq, ◌≡◌, refl, arith}
use uinx.Borrow.Sets.{contains-insert, contains-insert_all}
use uinx.Borrow.Tree
use uinx.Borrow.Tree.{Expr, Exprs, AsmOperands, AsmValue}
use uinx.Borrow.Uses.{insert_name, collect_uses, collect_each, collect_operands, collect_value}

module _ (own : Expr → List Bytes) (x : Bytes) where
  unfoldable pub written : Bytes → Bool
  unfolding str_eq
  written [] = false
  written (c ∷ cs) = str_eq (c ∷ cs) x

  unfoldable pub owns : Expr → Bool
  unfolding contains
  owns e = contains x (own e)

  unfoldable mutual
    unfolding contains str_eq owns written

    pub used : Expr → Bool
    used Tree.leaf_expr = owns Tree.leaf_expr
    used (Tree.name_expr a name) = owns (Tree.name_expr a name)
    used (Tree.struct_literal_expr fields) =
        owns (Tree.struct_literal_expr fields) || used_each fields
    used (Tree.unary_expr e) = owns (Tree.unary_expr e) || used e
    used (Tree.borrow_expr e) = owns (Tree.borrow_expr e) || used e
    used (Tree.await_expr e) = owns (Tree.await_expr e) || used e
    used (Tree.cast_expr e) = owns (Tree.cast_expr e) || used e
    used (Tree.binary_expr l r) = owns (Tree.binary_expr l r) || (used l || used r)
    used (Tree.call_expr f args) = owns (Tree.call_expr f args) || (used f || used_each args)
    used (Tree.member_expr e m) = owns (Tree.member_expr e m) || used e
    used (Tree.index_expr e i) = owns (Tree.index_expr e i) || (used e || used i)
    used (Tree.asm_expr os) = owns (Tree.asm_expr os) || used_operands os

    pub used_each : Exprs → Bool
    used_each Tree.no_exprs = false
    used_each (Tree.next_expr e es) = used e || used_each es

    pub used_operands : AsmOperands → Bool
    used_operands Tree.no_operands = false
    used_operands (Tree.next_operand v name os) = used_value v || (written name || used_operands os)

    pub used_value : AsmValue → Bool
    used_value Tree.no_value = false
    used_value (Tree.value_of e) = used e

  contains-insert_name :
      (name : Bytes) (out : List Bytes)
      → contains x (insert_name name out) ≡ (written name || contains x out)
  unfolding insert_name contains written
  contains-insert_name [] out = refl
  contains-insert_name (c ∷ cs) out = contains-insert x (c ∷ cs) out

  part_of : (o u c d b : Bool) → b ≡ (u || d) → d ≡ (o || c) → b ≡ ((o || u) || c)
  part_of o u c d b h g = ground (arith, h, g)

  parts_of :
      (o u v c d b a : Bool)
      → a ≡ (v || b)
      → b ≡ (u || d)
      → d ≡ (o || c)
      → a ≡ ((o || (u || v)) || c)
  parts_of o u v c d b a f h g = ground (arith, f, h, g)

  mutual
    unfolding used collect_uses contains owns written

    pub contains-collect_uses :
        (e : Expr) (out : List Bytes)
        → contains x (collect_uses own e out) ≡ (used e || contains x out)
    contains-collect_uses Tree.leaf_expr out = contains-insert_all x (own Tree.leaf_expr) out
    contains-collect_uses (Tree.name_expr a name) out =
        contains-insert_all x (own (Tree.name_expr a name)) out
    contains-collect_uses (Tree.struct_literal_expr fields) out =
        part_of _ (used_each fields) _ _ _ (contains-collect_each fields _)
          (contains-insert_all x (own (Tree.struct_literal_expr fields)) out)
    contains-collect_uses (Tree.unary_expr e) out =
        part_of _ (used e) _ _ _ (contains-collect_uses e _)
          (contains-insert_all x (own (Tree.unary_expr e)) out)
    contains-collect_uses (Tree.borrow_expr e) out =
        part_of _ (used e) _ _ _ (contains-collect_uses e _)
          (contains-insert_all x (own (Tree.borrow_expr e)) out)
    contains-collect_uses (Tree.await_expr e) out =
        part_of _ (used e) _ _ _ (contains-collect_uses e _)
          (contains-insert_all x (own (Tree.await_expr e)) out)
    contains-collect_uses (Tree.cast_expr e) out =
        part_of _ (used e) _ _ _ (contains-collect_uses e _)
          (contains-insert_all x (own (Tree.cast_expr e)) out)
    contains-collect_uses (Tree.binary_expr l r) out =
        parts_of _ (used l) (used r) _ _ _ _ (contains-collect_uses r _) (contains-collect_uses l _)
          (contains-insert_all x (own (Tree.binary_expr l r)) out)
    contains-collect_uses (Tree.call_expr f args) out =
        parts_of _ (used f) (used_each args) _ _ _ _ (contains-collect_each args _)
          (contains-collect_uses f _) (contains-insert_all x (own (Tree.call_expr f args)) out)
    contains-collect_uses (Tree.member_expr e m) out =
        part_of _ (used e) _ _ _ (contains-collect_uses e _)
          (contains-insert_all x (own (Tree.member_expr e m)) out)
    contains-collect_uses (Tree.index_expr e i) out =
        parts_of _ (used e) (used i) _ _ _ _ (contains-collect_uses i _) (contains-collect_uses e _)
          (contains-insert_all x (own (Tree.index_expr e i)) out)
    contains-collect_uses (Tree.asm_expr os) out =
        part_of _ (used_operands os) _ _ _ (contains-collect_operands os _)
          (contains-insert_all x (own (Tree.asm_expr os)) out)

    contains-collect_each :
        (es : Exprs) (out : List Bytes)
        → contains x (collect_each own es out) ≡ (used_each es || contains x out)
    contains-collect_each Tree.no_exprs out = refl
    contains-collect_each (Tree.next_expr e es) out =
        part_of (used e) (used_each es) _ _ _ (contains-collect_each es _)
          (contains-collect_uses e out)

    contains-collect_operands :
        (os : AsmOperands) (out : List Bytes)
        → contains x (collect_operands own os out) ≡ (used_operands os || contains x out)
    contains-collect_operands Tree.no_operands out = refl
    contains-collect_operands (Tree.next_operand v name os) out =
        parts_of (used_value v) (written name) (used_operands os) _ _ _ _
          (contains-collect_operands os _) (contains-insert_name name _)
          (contains-collect_value v out)

    contains-collect_value :
        (v : AsmValue) (out : List Bytes)
        → contains x (collect_value own v out) ≡ (used_value v || contains x out)
    contains-collect_value Tree.no_value out = refl
    contains-collect_value (Tree.value_of e) out = contains-collect_uses e out
