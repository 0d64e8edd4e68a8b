-- ===== src/Optimizer/Reachable.antt =====
-- MIROptimizer::remove_unreachable of src/mir_optimizer.cpp. `work` has the back of the vector at its
-- head; an index past the end has no block, which the loop tests before it reads one.
pub mod Search
pub mod Correct
pub mod Flow
use uinx.Prelude.{
  ℕ, zero, suc, ◌+◌, ◌*◌, Bool, true, false, not, ◌&&◌, ◌||◌, List, [], ◌∷◌, ◌++◌, Bytes, codes,
  str_eq, find, contains, Option, none, some, ◌==◌, ltb, leb, if◌then◌else◌, length, get_elem?,
  get_last?, keep_if,
}
use uinx.Mir.{Op, Instruction, BasicBlock, Function}

-- `labels`: each label with the index of its last block, which the newest entry gives
unfoldable pub label_table : ℕ → List BasicBlock → List (Bytes × ℕ) → List (Bytes × ℕ)
label_table i [] m = m
label_table i (b ∷ bs) m = label_table (i + 1) bs ((b.label, i) ∷ m)

abbrev pub labels_of : List BasicBlock → List (Bytes × ℕ)
labels_of bs = label_table 0 bs []

-- the index of a label, where there is one
abbrev pub found_index : Option ℕ → List ℕ
found_index none = []
found_index (some i) = i ∷ []

-- the next block, where there is one
unfoldable pub fall_through : ℕ → ℕ → List ℕ
fall_through size index = if ltb (index + 1) size then (index + 1) ∷ [] else []

-- What the last instruction pushes, the last pushed first. A jump with too few arguments is taken
-- as any other instruction.
unfoldable pub tail_targets : List (Bytes × ℕ) → ℕ → ℕ → Op → List Bytes → List ℕ
unfolding fall_through
tail_targets m size index Op.jump (target ∷ _) = found_index (find target m)
tail_targets m size index Op.cond_jump (_ ∷ a ∷ b ∷ _) =
    found_index (find b m) ++ found_index (find a m)
tail_targets m size index Op.ret args = []
tail_targets m size index op args = fall_through size index

-- what the loop pushes for a block
unfoldable pub block_targets : List (Bytes × ℕ) → ℕ → ℕ → Option Instruction → List ℕ
unfolding tail_targets fall_through
block_targets m size index none = fall_through size index
block_targets m size index (some tail) = tail_targets m size index tail.op tail.args

abbrev pub label_at : Option BasicBlock → Bytes
label_at none = []
label_at (some b) = b.label

unfoldable pub targets_at : List BasicBlock → ℕ → Option BasicBlock → List ℕ
unfolding block_targets
targets_at bs index none = []
targets_at bs index (some b) =
    block_targets (labels_of bs) (length bs) index (get_last? b.instructions)

-- `while (!work.empty())`, on fuel; nothing means that the fuel ran out. `reachable` is the result.
unfoldable pub reach_loop : List BasicBlock → ℕ → List ℕ → List Bytes → Option (List Bytes)
reach_loop bs zero work reachable = none
reach_loop bs (suc fuel) [] reachable = some reachable
reach_loop bs (suc fuel) (index ∷ work) reachable =
    let label = label_at (get_elem? bs index) in
    elim (leb (length bs) index || contains label reachable) [
      | true ↦ reach_loop bs fuel work reachable
      | false ↦
          reach_loop bs fuel (targets_at bs index (get_elem? bs index) ++ work) (label ∷ reachable)
    ]

-- Three rounds for each block and two more are enough.
abbrev pub reach_fuel : List BasicBlock → ℕ
reach_fuel bs = 3 * length bs + 2

abbrev pub keep_reached : List BasicBlock → Option (List Bytes) → Option (List BasicBlock)
keep_reached bs none = none
keep_reached bs (some reachable) = some (keep_if (λ b. contains b.label reachable) bs)

-- `remove_unreachable`, on the blocks of the function
unfoldable pub remove_unreachable : List BasicBlock → Option (List BasicBlock)
unfolding reach_loop
remove_unreachable [] = some []
remove_unreachable (b ∷ bs) =
    keep_reached (b ∷ bs) (reach_loop (b ∷ bs) (reach_fuel (b ∷ bs)) (0 ∷ []) [])
