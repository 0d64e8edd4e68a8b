-- ===== src/Optimizer/Fold/Signed.antt =====
-- Comparisons and sums of signed numbers in `constant_fold` of src/mir_optimizer.cpp.
use uinx.Prelude.{ℕ, ◌+◌, ◌%◌, ◌<◌, ◌≤◌, ◌≡◌, ◌↔◌, true, false, codes, str_eq, some, arith, ap}
use uinx.Optimizer.Numbers.{word_mod, sign_bit}
use uinx.Optimizer.Fold.{less, fold_compare, fold_binary}

-- The number of a bit pattern, moved up so that the least one is 0.
abbrev pub raised : ℕ → ℕ
raised w = (w + sign_bit) % word_mod

less_iff : (a b : ℕ) → a < word_mod → b < word_mod → (less false a b ≡ true) ↔ (raised a < raised b)
unfolding less
less_iff a b ha hb = ground arith

-- On patterns of 64 bits each of the six comparisons of signed numbers that are folded is that of
-- the patterns raised by half the range, which are in the order of the numbers.
pub fold_compare-signed :
    (a b : ℕ)
    → a < word_mod
    → b < word_mod
    → ((fold_compare false (codes "<") a b ≡ true) ↔ (raised a < raised b))
      × ((fold_compare false (codes "<=") a b ≡ true) ↔ (raised a ≤ raised b))
      × ((fold_compare false (codes ">") a b ≡ true) ↔ (raised b < raised a))
      × ((fold_compare false (codes ">=") a b ≡ true) ↔ (raised b ≤ raised a))
      × ((fold_compare false (codes "==") a b ≡ true) ↔ (a ≡ b))
      × ((fold_compare false (codes "!=") a b ≡ true) ↔ ¬ (a ≡ b))
unfolding fold_compare str_eq
fold_compare-signed a b ha hb = (
  less_iff a b ha hb,
  ground (arith, less_iff b a hb ha),
  less_iff b a hb ha,
  ground (arith, less_iff a b ha hb),
  ground arith,
  ground arith,
)

-- The sum of two positive numbers of 32 bits that overflows is folded to a number that is found not
-- negative, although the sum in 32 bits is negative.
pub fold_binary-unbounded :
    (a b : ℕ)
    → a < 2_147_483_648
    → b < 2_147_483_648
    → 2_147_483_648 ≤ a + b
    → (fold_binary false (codes "+") a b ≡ some (a + b))
      × (fold_compare false (codes "<") (a + b) 0 ≡ false)
      × (2_147_483_648 ≤ (a + b) % 4_294_967_296)
unfolding fold_binary fold_compare str_eq less
fold_binary-unbounded a b ha hb h = (ap some (omega arith), ground arith, omega arith)
