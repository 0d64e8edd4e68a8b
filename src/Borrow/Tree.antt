-- ===== src/Borrow/Tree.antt =====
-- The syntax tree of include/uinx/ast.hpp as the borrow checker reads it, with the tables of
-- include/uinx/hir.hpp. A node that a table has as a key, and every statement, holds a number that
-- stands for its address; what the analysis of liveness does not read is left out of the nodes.
use uinx.Prelude.{
  ℕ, Bool, true, false, List, [], ◌∷◌, ◌++◌, Bytes, codes, get_elem?, Option, none, some, ◌==◌,
  if◌then◌else◌,
}
use uinx.Optimizer.Numbers.{decimal}

mutual
  pub data Expr : Type 0 where
    -- a literal
    leaf_expr : Expr
    name_expr : ℕ → Bytes → Expr
    -- the values of the fields
    struct_literal_expr : Exprs → Expr
    unary_expr borrow_expr await_expr cast_expr : Expr → Expr
    binary_expr : Expr → Expr → Expr
    call_expr : Expr → Exprs → Expr
    member_expr : Expr → Bytes → Expr
    index_expr : Expr → Expr → Expr
    asm_expr : AsmOperands → Expr

  pub data Exprs : Type 0 where
    no_exprs : Exprs
    next_expr : Expr → Exprs → Exprs

  -- value, out_name
  pub data AsmOperands : Type 0 where
    no_operands : AsmOperands
    next_operand : AsmValue → Bytes → AsmOperands → AsmOperands

  pub data AsmValue : Type 0 where
    no_value : AsmValue
    value_of : Expr → AsmValue

mutual
  pub data Stmt : Type 0 where
    let_stmt : ℕ → Bytes → Option Expr → Stmt
    assign_stmt : ℕ → Expr → Bytes → Expr → Stmt
    expr_stmt : ℕ → Expr → Stmt
    return_stmt : ℕ → Option Expr → Stmt
    block_stmt : ℕ → Stmts → Stmt
    if_stmt : ℕ → Expr → Stmts → ElseBlock → Stmt
    while_stmt : ℕ → Expr → Stmts → Stmt
    for_stmt : ℕ → Bytes → Expr → Expr → Stmts → Stmt
    loop_stmt : ℕ → Stmts → Stmt
    break_stmt continue_stmt fence_stmt : ℕ → Stmt
    unsafe_stmt : ℕ → Stmts → Stmt

  pub data Stmts : Type 0 where
    no_stmts : Stmts
    next_stmt : Stmt → Stmts → Stmts

  pub data ElseBlock : Type 0 where
    no_else : ElseBlock
    else_block : Stmts → ElseBlock

pub data SymbolKind : Type 0 where
  function struct trait global local parameter field generic : SymbolKind

-- The symbols stand at the index that is their number; a table is the list of its pairs.
pub record Hir : Type 0 where
  pub symbols : List SymbolKind
  pub expr_resolution : List (ℕ × ℕ)
  pub bindings : List (ℕ × ℕ)
  pub for_bindings : List (ℕ × ℕ)

unfoldable pub find_at {ℓ} : {V : Type ℓ} → ℕ → List (ℕ × V) → Option V
find_at a [] = none
find_at a ((b, v) ∷ m) = if b == a then some v else find_at a m

-- `symbol_key`
unfoldable pub symbol_key : Bytes → ℕ → Bytes
unfolding decimal
symbol_key name id = name ++ (codes "#" ++ decimal 10 id)

abbrev pub is_local : Option SymbolKind → Bool
is_local (some SymbolKind.local) = true
is_local (some SymbolKind.parameter) = true
is_local _ = false

-- the key of a name, by what the table holds at its address
abbrev pub key_or : Bytes → Option ℕ → Bytes
key_or name none = name
key_or name (some id) = symbol_key name id

abbrev name_key : List SymbolKind → Bytes → Option ℕ → Bytes
name_key symbols name none = name
name_key symbols name (some id) =
    if is_local (get_elem? symbols id) then symbol_key name id else name

abbrev extended : Bytes → Option Bytes → Option Bytes
extended suffix none = none
extended suffix (some p) = some (p ++ suffix)

-- `place_of`
unfoldable pub place_of : Hir → Expr → Option Bytes
unfolding find_at symbol_key
place_of hir (Expr.name_expr a name) =
    some (name_key hir.symbols name (find_at a hir.expr_resolution))
place_of hir (Expr.member_expr base m) = extended (codes "." ++ m) (place_of hir base)
place_of hir (Expr.index_expr base i) = extended (codes ".[*]") (place_of hir base)
place_of hir _ = none

-- `binding_key` and `for_binding_key`
unfoldable pub binding_key : Hir → ℕ → Bytes → Bytes
unfolding find_at symbol_key
binding_key hir a name = key_or name (find_at a hir.bindings)

unfoldable pub for_binding_key : Hir → ℕ → Bytes → Bytes
unfolding find_at symbol_key
for_binding_key hir a name = key_or name (find_at a hir.for_bindings)
