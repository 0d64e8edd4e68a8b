-- ===== src/Optimizer/Forward.antt =====
-- MIROptimizer::forward_local_loads of src/mir_optimizer.cpp.
use uinx.Prelude.{
  starts_with, ℕ, zero, suc, Bool, true, false, ◌&&◌, ◌||◌, List, [], ◌∷◌, Bytes, codes, str_eq,
  find, Option, none, some, if◌then◌else◌, map,
}
use uinx.Mir.{Op, AsmOperand, Instruction, BasicBlock}
use uinx.Optimizer.Dead.{is_empty}

abbrev pub Names : Type 0
Names = List (Bytes × Bytes)

-- `resolve`: up to `depth` steps through the aliases
unfoldable pub resolve : ℕ → Names → Bytes → Bytes
unfolding find str_eq
resolve zero aliases v = v
resolve (suc depth) aliases v = elim (find v aliases) [
  | none ↦ v
  | some w ↦ let next = resolve depth aliases w in if str_eq w v then v else next
]

abbrev pub max_depth : ℕ
max_depth = 32

-- `address.find(text) != npos`
unfoldable pub occurs_in : Bytes → Bytes → Bool
unfolding starts_with
occurs_in p [] = starts_with p []
occurs_in p (c ∷ cs) = starts_with p (c ∷ cs) || occurs_in p cs

unfoldable pub is_local_slot : Bytes → Bool
unfolding starts_with occurs_in
is_local_slot a = starts_with (codes "%") a && occurs_in (codes ".slot.") a

-- `slots.erase(key)`
unfoldable pub erase_name : Bytes → Names → Names
unfolding str_eq
erase_name k [] = []
erase_name k ((j, v) ∷ m) = if str_eq j k then erase_name k m else (j, v) ∷ erase_name k m

abbrev resolve_operand : Names → AsmOperand → AsmOperand
resolve_operand aliases o =
    if is_empty o.value then o else record o { value = resolve max_depth aliases o.value }

-- the instruction with its arguments and operands resolved
unfoldable pub resolve_instruction : Names → Instruction → Instruction
unfolding resolve
resolve_instruction aliases i = record i {
  args = map (resolve max_depth aliases) i.args;
  asm_operands = map (resolve_operand aliases) i.asm_operands;
}

-- whether the operation makes all that is known of the slots void; the flag marks a volatile access
unfoldable pub clears_slots : Op → Bool → Bool
clears_slots Op.call flag = true
clears_slots Op.inline_asm flag = true
clears_slots Op.atomic_rmw flag = true
clears_slots Op.fence flag = true
clears_slots Op.compiler_fence flag = true
clears_slots Op.load flag = flag
clears_slots Op.store flag = flag
clears_slots _ flag = false

unfoldable pub slots_after : Op → Bool → List Bytes → Names → Names
unfolding is_local_slot erase_name clears_slots
slots_after Op.store false (v ∷ a ∷ _) slots = if is_local_slot a then (a, v) ∷ slots else []
slots_after Op.address_of flag (a ∷ _) slots = erase_name a slots
slots_after op flag args slots = if clears_slots op flag then [] else slots

-- what is known of the slot that a plain load reads
unfoldable pub known_load : Op → Bool → List Bytes → Names → Option Bytes
unfolding find str_eq
known_load Op.load false (a ∷ _) slots = find a slots
known_load _ flag args slots = none

-- the loop over the instructions of a block
unfoldable pub forward_instructions : Names → Names → List Instruction → List Instruction
unfolding resolve_instruction slots_after known_load
forward_instructions slots aliases [] = []
forward_instructions slots aliases (i ∷ is) =
    let i' = resolve_instruction aliases i in
    elim (known_load i'.op i'.flag i'.args slots) [
      | some v ↦
          let aliases' = (i'.result, resolve max_depth aliases v) ∷ aliases in
          forward_instructions slots aliases' is
      | none ↦
          let slots' = slots_after i'.op i'.flag i'.args slots in
          i' ∷ forward_instructions slots' aliases is
    ]

-- `forward_local_loads`: each block by itself
unfoldable pub forward_local_loads : List BasicBlock → List BasicBlock
unfolding forward_instructions
forward_local_loads [] = []
forward_local_loads (b ∷ bs) =
    record b { instructions = forward_instructions [] [] b.instructions } ∷ forward_local_loads bs
