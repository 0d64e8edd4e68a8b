-- ===== src/Optimizer/Tests.antt =====
-- The passes on small functions.
use uinx.Prelude.{
  str_eq, not, bool_eq, ◌*◌, ◌⊎◌, ◌<◌, ℕ, zero, suc, ◌+◌, ◌%◌, ◌≤◌, ◌↔◌, ◌≡◌, Bytes, codes, refl,
  List, [], ◌∷◌, some, true, false, arith, ap,
}
use uinx.Mir.{Op, Instruction, BasicBlock, Module}
use uinx.Types.{TypeKind, Ty, ty, nil, null}
use uinx.Optimizer.Dead.{eliminate_dead_values}
use uinx.Optimizer.Dead.Correct.{IsPruned, eliminate_dead_values-IsPruned}
use uinx.Optimizer.Reachable.{remove_unreachable}
use uinx.Optimizer.Reachable.Correct.{UniqueLabels, Kept}
use uinx.Optimizer.Reachable.Flow.{FlowReaches, remove_unreachable-Kept}
use uinx.Optimizer.Numbers.{is_negative, magnitude}
use uinx.Optimizer.Fold.Truncated.{fold_binary-truncated}
use uinx.Optimizer.Fold.{is_overflow, fold_binary, fold_compare}
use uinx.Optimizer.Fold.Signed.{raised, fold_compare-signed, fold_binary-unbounded}
use uinx.Optimizer.Run.{run}
use uinx.Optimizer.Run.Total.{Ends, divides_in, run-Ends}

abbrev i32 : Ty
i32 = ty TypeKind.i32 (codes "i32") nil null false false

abbrev instruction : Op → Bytes → List Bytes → Bytes → Instruction
instruction op result args text = record {
  op = op;
  result = result;
  result_type = i32;
  args = args;
  text = text;
  asm_operands = [];
  flag = false;
  auxiliary_type = i32;
}

abbrev block : Bytes → List Instruction → BasicBlock
block l is = record { label = l; instructions = is; terminated = true }

-- the first block jumps over the second, which nothing leads to
abbrev blocks : List BasicBlock
blocks =
    block (codes "entry") (
      instruction Op.const_int (codes "%0") [] (codes "2")
      ∷ instruction Op.binary (codes "%1") (codes "%0" ∷ codes "%0" ∷ []) (codes "+")
      ∷ instruction Op.jump [] (codes "done" ∷ []) []
      ∷ [])
    ∷ block (codes "lost") (instruction Op.ret [] [] [] ∷ [])
    ∷ block (codes "done") (instruction Op.ret [] [] [] ∷ [])
    ∷ []

abbrev small : Module
small = record {
  functions =
      record {
        name = codes "f";
        source_name = codes "f";
        params = [];
        result = i32;
        blocks = blocks;
        is_extern = false;
        is_unsafe = false;
        is_async = false;
        abi = [];
      }
      ∷ [];
  strings = [];
  globals = [];
}

abbrev first : Bytes → ℕ
first [] = 0
first (b ∷ bs) = b

blocks-UniqueLabels : UniqueLabels blocks
blocks-UniqueLabels zero zero h k e = refl
blocks-UniqueLabels zero (suc zero) h k e = absurd (omega (arith, ap first e))
blocks-UniqueLabels zero (suc (suc zero)) h k e = absurd (omega (arith, ap first e))
blocks-UniqueLabels (suc zero) zero h k e = absurd (omega (arith, ap first e))
blocks-UniqueLabels (suc zero) (suc zero) h k e = refl
blocks-UniqueLabels (suc zero) (suc (suc zero)) h k e = absurd (omega (arith, ap first e))
blocks-UniqueLabels (suc (suc zero)) zero h k e = absurd (omega (arith, ap first e))
blocks-UniqueLabels (suc (suc zero)) (suc zero) h k e = absurd (omega (arith, ap first e))
blocks-UniqueLabels (suc (suc zero)) (suc (suc zero)) h k e = refl
blocks-UniqueLabels (suc (suc (suc i))) j h k e = absurd (omega arith)
blocks-UniqueLabels i (suc (suc (suc j))) h k e = absurd (omega arith)

remove_unreachable-Kept_example :
    (kept : List BasicBlock) × (remove_unreachable blocks ≡ some kept)
    × Kept (FlowReaches blocks) 0 blocks kept
remove_unreachable-Kept_example = remove_unreachable-Kept blocks blocks-UniqueLabels

eliminate_dead_values-IsPruned_example :
    (cs : List BasicBlock) × (eliminate_dead_values blocks ≡ some cs) × IsPruned blocks cs
eliminate_dead_values-IsPruned_example = eliminate_dead_values-IsPruned blocks

run-Ends_example : Ends (divides_in small.functions) (run 2 small)
run-Ends_example = run-Ends 2 small

abbrev minus_one : ℕ
minus_one = 18_446_744_073_709_551_615

abbrev one : ℕ
one = 1

fold_compare-signed_example :
    ((fold_compare false (codes "<") minus_one one ≡ true) ↔ (raised minus_one < raised one))
    × ((fold_compare false (codes "<=") minus_one one ≡ true) ↔ (raised minus_one ≤ raised one))
    × ((fold_compare false (codes ">") minus_one one ≡ true) ↔ (raised one < raised minus_one))
    × ((fold_compare false (codes ">=") minus_one one ≡ true) ↔ (raised one ≤ raised minus_one))
    × ((fold_compare false (codes "==") minus_one one ≡ true) ↔ (minus_one ≡ one))
    × ((fold_compare false (codes "!=") minus_one one ≡ true) ↔ ¬ (minus_one ≡ one))
fold_compare-signed_example = fold_compare-signed minus_one one (omega arith) (omega arith)

fold_binary-unbounded_example :
    (fold_binary false (codes "+") 2_147_483_647 1 ≡ some (2_147_483_647 + 1))
    × (fold_compare false (codes "<") (2_147_483_647 + 1) 0 ≡ false)
    × (2_147_483_648 ≤ (2_147_483_647 + 1) % 4_294_967_296)
fold_binary-unbounded_example =
    fold_binary-unbounded 2_147_483_647 1 (omega arith) (omega arith) (omega arith)

-- -7, divided by 2
abbrev minus_seven : ℕ
minus_seven = 18_446_744_073_709_551_609

abbrev two : ℕ
two = 2

minus_seven-quotient :
    fold_binary false (codes "/") minus_seven two ≡ some 18_446_744_073_709_551_613
unfolding fold_binary str_eq
minus_seven-quotient = refl

minus_seven-fits : is_overflow false (codes "/") minus_seven two ≡ false
unfolding is_overflow str_eq
minus_seven-fits = refl

fold_binary-truncated_example :
    (q : ℕ) × (r : ℕ) × (fold_binary false (codes "/") minus_seven two ≡ some q)
    × (fold_binary false (codes "%") minus_seven two ≡ some r)
    × (magnitude q * magnitude two + magnitude r ≡ magnitude minus_seven)
    × (magnitude r < magnitude two)
    × ((q ≡ 0) ⊎ (is_negative q ≡ not (bool_eq (is_negative minus_seven) (is_negative two))))
    × ((r ≡ 0) ⊎ (is_negative r ≡ is_negative minus_seven))
fold_binary-truncated_example =
    fold_binary-truncated minus_seven two (omega arith) (λ e. absurd (omega (arith, e)))
      minus_seven-fits
