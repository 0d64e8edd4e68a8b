-- ===== src/Mir.antt =====
-- include/uinx/mir.hpp: the instructions, blocks and functions of the intermediate representation.
-- Source ranges are left out: no pass reads them.
use uinx.Prelude.{Bool, List, Bytes}
use uinx.Types.{Ty}

pub data Op : Type 0 where
  alloca const_int const_float const_bool const_char const_string struct_init : Op
  load store atomic_rmw fence compiler_fence field_addr index_addr : Op
  binary compare_op call cast address_of await inline_asm drop_value : Op
  jump cond_jump ret : Op

pub data AsmKind : Type 0 where
  asm_in asm_out asm_inout asm_clobber : AsmKind

pub record AsmOperand : Type 0 where
  pub kind : AsmKind
  pub constraint : Bytes
  pub value : Bytes
  pub out_slot : Bytes
  pub operand_type : Ty

pub record Instruction : Type 0 where
  pub op : Op
  pub result : Bytes
  pub result_type : Ty
  pub args : List Bytes
  pub text : Bytes
  pub asm_operands : List AsmOperand
  pub flag : Bool
  pub auxiliary_type : Ty

pub record BasicBlock : Type 0 where
  pub label : Bytes
  pub instructions : List Instruction
  pub terminated : Bool

pub record Parameter : Type 0 where
  pub name : Bytes
  pub param_type : Ty

pub record Function : Type 0 where
  pub name : Bytes
  pub source_name : Bytes
  pub params : List Parameter
  pub result : Ty
  pub blocks : List BasicBlock
  pub is_extern : Bool
  pub is_unsafe : Bool
  pub is_async : Bool
  pub abi : Bytes

pub record StringConstant : Type 0 where
  pub symbol : Bytes
  pub value : Bytes

pub record Global : Type 0 where
  pub name : Bytes
  pub global_type : Ty
  pub initializer : Bytes
  pub is_mut : Bool
  pub is_shared : Bool
  pub is_percpu : Bool

-- A lowered module, without its list of structure declarations, which point into the syntax tree.
pub record Module : Type 0 where
  pub functions : List Function
  pub strings : List StringConstant
  pub globals : List Global
