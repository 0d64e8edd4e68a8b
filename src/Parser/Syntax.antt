-- ===== src/Parser/Syntax.antt =====
-- include/uinx/ast.hpp: expressions, statements and items, without their source ranges, which the
-- parser copies from the tokens and never reads.
use uinx.Prelude.{Bool, List, Bytes, Option}
use uinx.Mir.{AsmKind}
use uinx.Types.FromAst.{TypeRef, TypeRefs}

mutual
  pub data Expr : Type 0 where
    integer_expr float_expr string_expr char_expr : Bytes → Expr
    bool_expr : Bool → Expr
    name_expr : Bytes → Expr
    struct_literal_expr : Bytes → TypeRefs → FieldInits → Expr
    unary_expr : Bytes → Expr → Expr
    binary_expr : Bytes → Expr → Expr → Expr
    borrow_expr : Expr → Bool → Expr
    call_expr : Expr → TypeRefs → Exprs → Expr
    member_expr : Expr → Bytes → Expr
    index_expr : Expr → Expr → Expr
    await_expr : Expr → Expr
    cast_expr : Expr → TypeRef → Expr
    asm_expr : Bytes → AsmOperands → Bool → Expr

  pub data Exprs : Type 0 where
    no_exprs : Exprs
    next_expr : Expr → Exprs → Exprs

  pub data FieldInits : Type 0 where
    no_fields : FieldInits
    next_field : Bytes → Expr → FieldInits → FieldInits

  -- kind, constraint, value, out_name; nothing is a kind that is not set
  pub data AsmOperands : Type 0 where
    no_operands : AsmOperands
    next_operand : Option AsmKind → Bytes → AsmValue → Bytes → AsmOperands → AsmOperands

  pub data AsmValue : Type 0 where
    no_value : AsmValue
    value_of : Expr → AsmValue

mutual
  pub data Stmt : Type 0 where
    let_stmt : Bytes → Bool → Option TypeRef → Option Expr → Stmt
    assign_stmt : Expr → Bytes → Expr → Stmt
    expr_stmt : Expr → Stmt
    return_stmt : Option Expr → Stmt
    block_stmt : Stmts → Stmt
    if_stmt : Expr → Stmts → ElseBlock → Stmt
    while_stmt : Expr → Stmts → Stmt
    for_stmt : Bytes → Expr → Expr → Bool → Stmts → Stmt
    loop_stmt : Stmts → Stmt
    break_stmt continue_stmt : Stmt
    fence_stmt : Bytes → Bool → Stmt
    unsafe_stmt : Stmts → Stmt

  pub data Stmts : Type 0 where
    no_stmts : Stmts
    next_stmt : Stmt → Stmts → Stmts

  pub data ElseBlock : Type 0 where
    no_else : ElseBlock
    else_block : Stmts → ElseBlock

pub record Param : Type 0 where
  pub name : Bytes
  pub param_type : TypeRef
  pub is_mut : Bool

pub record GenericParam : Type 0 where
  pub name : Bytes
  pub bounds : List Bytes

pub record FunctionDecl : Type 0 where
  pub name : Bytes
  pub generics : List GenericParam
  pub params : List Param
  pub return_type : TypeRef
  pub body : Option Stmts
  pub is_pub : Bool
  pub is_unsafe : Bool
  pub is_async : Bool
  pub is_extern : Bool
  pub is_concurrent : Bool
  pub abi : Bytes

pub record FieldDecl : Type 0 where
  pub name : Bytes
  pub field_type : TypeRef
  pub is_pub : Bool
  pub is_shared : Bool

pub record StructDecl : Type 0 where
  pub name : Bytes
  pub generics : List GenericParam
  pub fields : List FieldDecl
  pub is_pub : Bool

pub record TraitMethod : Type 0 where
  pub name : Bytes
  pub params : List Param
  pub return_type : TypeRef
  pub is_unsafe : Bool

pub record TraitDecl : Type 0 where
  pub name : Bytes
  pub generics : List GenericParam
  pub methods : List TraitMethod
  pub is_pub : Bool

pub record ImplDecl : Type 0 where
  pub trait_name : Option Bytes
  pub for_type : TypeRef
  pub methods : List FunctionDecl

pub data MarkerKind : Type 0 where
  send sync : MarkerKind

pub record MarkerDecl : Type 0 where
  pub kind : MarkerKind
  pub marked_type : TypeRef
  pub generics : List GenericParam

pub data SmpMode : Type 0 where
  auto manual strict : SmpMode

pub record GlobalDecl : Type 0 where
  pub name : Bytes
  pub global_type : TypeRef
  pub init : Expr
  pub is_pub : Bool
  pub is_mut : Bool
  pub is_const : Bool
  pub is_shared : Bool
  pub is_percpu : Bool

pub data Item : Type 0 where
  function_item : FunctionDecl → Item
  struct_item : StructDecl → Item
  trait_item : TraitDecl → Item
  impl_item : ImplDecl → Item
  global_item : GlobalDecl → Item
  marker_item : MarkerDecl → Item

-- `ast::Module`
pub record ParsedModule : Type 0 where
  pub file : Bytes
  pub no_std : Bool
  pub smp_mode : SmpMode
  pub needs : List Bytes
  pub dontneeds : List Bytes
  pub items : List Item
