-- ===== src/Optimizer/Run.antt =====
-- `MIROptimizer::run` of src/mir_optimizer.cpp.
pub mod Total
use uinx.Prelude.{
  ℕ, zero, suc, Bool, true, false, not, List, [], ◌∷◌, Option, none, some, if◌then◌else◌, leb,
}
use uinx.Mir.{BasicBlock, Function, Module}
use uinx.Optimizer.Dead.{eliminate_dead_values}
use uinx.Optimizer.Fold.{constant_fold, Folded, folded, undefined}
use uinx.Optimizer.Forward.{forward_local_loads}
use uinx.Optimizer.Reachable.{remove_unreachable}

-- How a run ends: with a value, at a division of constants that C++ leaves undefined, or not within
-- the fuel of a pass.
pub data Outcome {ℓ} (A : Type ℓ) : Type ℓ where
  returned : A → Outcome A
  overflowed : Outcome A
  endless : Outcome A

abbrev pub within_fuel {ℓ} : {A : Type ℓ} → Option A → Outcome A
within_fuel none = endless
within_fuel (some a) = returned a

abbrev pub where_defined {ℓ} : {A : Type ℓ} → Folded A → Outcome A
where_defined (folded a) = returned a
where_defined undefined = overflowed

infixl 5 ◌>>=◌
abbrev pub ◌>>=◌ {ℓ κ} : {A : Type ℓ} {B : Type κ} → Outcome A → (A → Outcome B) → Outcome B
returned a >>= f = f a
overflowed >>= f = overflowed
endless >>= f = endless

-- the passes that level 2 adds
unfoldable pub second_round : ℕ → List BasicBlock → Outcome (List BasicBlock)
second_round level bs =
    if leb 2 level
    then within_fuel (eliminate_dead_values (forward_local_loads bs))
    else returned bs

unfoldable pub optimize_blocks : ℕ → List BasicBlock → Outcome (List BasicBlock)
unfolding second_round
optimize_blocks level bs = do
  reached ← within_fuel (remove_unreachable bs)
  known ← where_defined (constant_fold (forward_local_loads reached))
  used ← within_fuel (eliminate_dead_values known)
  second_round level used

unfoldable pub optimize_function : ℕ → Function → Outcome Function
unfolding optimize_blocks
optimize_function level f =
    if f.is_extern
    then returned f
    else (do bs ← optimize_blocks level f.blocks; returned (record f { blocks = bs }))

unfoldable pub optimize_functions : ℕ → List Function → Outcome (List Function)
unfolding optimize_function
optimize_functions level [] = returned []
optimize_functions level (f ∷ fs) = do
  f' ← optimize_function level f
  fs' ← optimize_functions level fs
  returned (f' ∷ fs')

-- `run`, at a level that is not negative: what is below 1 does nothing
unfoldable pub run : ℕ → Module → Outcome Module
unfolding optimize_functions
run zero m = returned m
run (suc level) m = do
  fs ← optimize_functions (suc level) m.functions
  returned (record m { functions = fs })
