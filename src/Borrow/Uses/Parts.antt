-- ===== src/Borrow/Uses/Parts.antt =====
-- The parts of an expression, and the names that its operands of `asm` write.
use uinx.Prelude.{Bytes, [], ◌≡◌}
use uinx.Borrow.Tree
use uinx.Borrow.Tree.{Expr, Exprs, AsmOperands}

mutual
  -- the expression itself, or a part of it at any depth
  pub data Within : Expr → Expr → Type 0 where
    itself : {e : Expr} → Within e e
    in_struct_literal :
        {s : Expr} {fields : Exprs}
        → WithinEach s fields
        → Within s (Tree.struct_literal_expr fields)
    in_unary : {s e : Expr} → Within s e → Within s (Tree.unary_expr e)
    in_borrow : {s e : Expr} → Within s e → Within s (Tree.borrow_expr e)
    in_await : {s e : Expr} → Within s e → Within s (Tree.await_expr e)
    in_cast : {s e : Expr} → Within s e → Within s (Tree.cast_expr e)
    in_left : {s l r : Expr} → Within s l → Within s (Tree.binary_expr l r)
    in_right : {s l r : Expr} → Within s r → Within s (Tree.binary_expr l r)
    in_callee : {s f : Expr} {args : Exprs} → Within s f → Within s (Tree.call_expr f args)
    in_args : {s f : Expr} {args : Exprs} → WithinEach s args → Within s (Tree.call_expr f args)
    in_base : {s e : Expr} {m : Bytes} → Within s e → Within s (Tree.member_expr e m)
    in_indexed : {s e i : Expr} → Within s e → Within s (Tree.index_expr e i)
    in_index : {s e i : Expr} → Within s i → Within s (Tree.index_expr e i)
    in_asm : {s : Expr} {os : AsmOperands} → WithinOperands s os → Within s (Tree.asm_expr os)

  pub data WithinEach : Expr → Exprs → Type 0 where
    in_first : {s e : Expr} {es : Exprs} → Within s e → WithinEach s (Tree.next_expr e es)
    in_others : {s e : Expr} {es : Exprs} → WithinEach s es → WithinEach s (Tree.next_expr e es)

  pub data WithinOperands : Expr → AsmOperands → Type 0 where
    in_value :
        {s e : Expr} {name : Bytes} {os : AsmOperands}
        → Within s e
        → WithinOperands s (Tree.next_operand (Tree.value_of e) name os)
    in_operands :
        {s : Expr} {v : Tree.AsmValue} {name : Bytes} {os : AsmOperands}
        → WithinOperands s os
        → WithinOperands s (Tree.next_operand v name os)

pub data Outputs : Bytes → AsmOperands → Type 0 where
  output_first :
      {x : Bytes} {v : Tree.AsmValue} {os : AsmOperands}
      → ¬ (x ≡ [])
      → Outputs x (Tree.next_operand v x os)
  output_next :
      {x name : Bytes} {v : Tree.AsmValue} {os : AsmOperands}
      → Outputs x os
      → Outputs x (Tree.next_operand v name os)

-- a name that is an output of an `asm`
pub data WritesName : Bytes → Expr → Type 0 where
  writes_name : {x : Bytes} {os : AsmOperands} → Outputs x os → WritesName x (Tree.asm_expr os)
