-- ===== src/Optimizer/Dead.antt =====
-- MIROptimizer::eliminate_dead_values of src/mir_optimizer.cpp.
pub mod Correct
use uinx.Prelude.{
  ℕ, zero, suc, ◌+◌, Bool, true, false, not, ◌&&◌, ◌||◌, List, [], ◌∷◌, Bytes, str_eq, Option, none,
  some, map, ◌==◌, if◌then◌else◌, length, keep_if, any_of,
}
use uinx.Mir.{Op, AsmOperand, Instruction, BasicBlock}

abbrev pub is_empty : Bytes → Bool
is_empty [] = true
is_empty (_ ∷ _) = false

-- `uses[name]`: how often the arguments name it
unfoldable pub uses_in_args : Bytes → List Bytes → ℕ
uses_in_args n [] = 0
uses_in_args n (a ∷ as') = (if str_eq a n then 1 else 0) + uses_in_args n as'

-- and the operands of an assembly block, where they have a value
unfoldable pub uses_in_operands : Bytes → List AsmOperand → ℕ
uses_in_operands n [] = 0
uses_in_operands n (o ∷ os) =
    (if not (is_empty o.value) && str_eq o.value n then 1 else 0) + uses_in_operands n os

unfoldable pub uses_in : Bytes → List Instruction → ℕ
uses_in n [] = 0
uses_in n (i ∷ is) = uses_in_args n i.args + (uses_in_operands n i.asm_operands + uses_in n is)

-- the map `uses` over the whole function
unfoldable pub uses : Bytes → List BasicBlock → ℕ
unfolding uses_in uses_in_args uses_in_operands
uses n [] = 0
uses n (b ∷ bs) = uses_in n b.instructions + uses n bs

-- The operations that may be dropped where their result has no use; the flag is that of the
-- instruction, which marks a load as volatile.
unfoldable pub pure_op : Op → Bool → Bool
pure_op Op.alloca flag = true
pure_op Op.const_int flag = true
pure_op Op.const_float flag = true
pure_op Op.const_bool flag = true
pure_op Op.const_char flag = true
pure_op Op.const_string flag = true
pure_op Op.struct_init flag = true
pure_op Op.field_addr flag = true
pure_op Op.binary flag = true
pure_op Op.compare_op flag = true
pure_op Op.cast flag = true
pure_op Op.address_of flag = true
pure_op Op.load flag = not flag
pure_op _ flag = false

abbrev pub is_pure : Instruction → Bool
is_pure i = pure_op i.op i.flag

unfoldable pub is_dead : List BasicBlock → Instruction → Bool
unfolding uses pure_op
is_dead bs i = not (is_empty i.result) && (uses i.result bs == 0 && is_pure i)

-- the blocks without their dead instructions, the uses being those of `all`
unfoldable pub prune_block : List BasicBlock → BasicBlock → BasicBlock
unfolding is_dead
prune_block all b = record b { instructions = keep_if (λ i. not (is_dead all i)) b.instructions }

-- one round of the loop
unfoldable pub prune : List BasicBlock → List BasicBlock
unfolding prune_block
prune bs = map (prune_block bs) bs

-- whether a round sets `changed`
unfoldable pub has_dead : List BasicBlock → Bool
unfolding is_dead
has_dead bs = any_of (λ b. any_of (is_dead bs) b.instructions) bs

-- `while (changed)`, on fuel; nothing means that the fuel ran out
unfoldable pub dead_loop : ℕ → List BasicBlock → Option (List BasicBlock)
dead_loop zero bs = none
dead_loop (suc fuel) bs =
    let rest = dead_loop fuel (prune bs) in if has_dead bs then rest else some (prune bs)

unfoldable pub instruction_count : List BasicBlock → ℕ
instruction_count [] = 0
instruction_count (b ∷ bs) = length b.instructions + instruction_count bs

-- A round for each instruction and one more are enough.
unfoldable pub eliminate_dead_values : List BasicBlock → Option (List BasicBlock)
unfolding dead_loop instruction_count prune has_dead
eliminate_dead_values bs = dead_loop (instruction_count bs + 1) bs
