-- ===== src/Optimizer/Fold/Truncated.antt =====
-- Signed quotients and remainders in `constant_fold` of src/mir_optimizer.cpp.
use native.Mathlib.Nat.{div-add-mod', mod-lt, mul-le-mul_left}
use uinx.Prelude.{
  ℕ, ◌+◌, ◌*◌, ◌/◌, ◌%◌, ◌<◌, ◌≤◌, ◌≡◌, ◌⊎◌, inl, inr, Bool, true, false, not, codes, str_eq, some,
  arith, bool_eq, Bool-cases, if◌then◌else◌,
}
use uinx.Optimizer.Numbers.{word_mod, sign_bit, is_negative, magnitude, negate}
use uinx.Optimizer.Fold.{fold_binary, is_overflow, divide, remainder}

magnitude-positive : (q : ℕ) → q < sign_bit → magnitude (q % word_mod) ≡ q
magnitude-positive q h = ground arith

magnitude-negate : (q : ℕ) → q ≤ sign_bit → magnitude (negate q) ≡ q
magnitude-negate q h = ground arith

magnitude_le : (a : ℕ) → magnitude a ≤ sign_bit
magnitude_le a = ground arith

magnitude_pos : (b : ℕ) → b < word_mod → ¬ (b ≡ 0) → 0 < magnitude b
magnitude_pos b h n = ground arith

positive-is_negative : (q : ℕ) → q < sign_bit → is_negative (q % word_mod) ≡ false
positive-is_negative q h = ground arith

negate-is_negative : (q : ℕ) → q ≤ sign_bit → (negate q ≡ 0) ⊎ (is_negative (negate q) ≡ true)
negate-is_negative q h = ground arith

signed :
    (s : Bool) (r : ℕ)
    → r < sign_bit
    → (magnitude (if s then negate r else r) ≡ r)
      × (((if s then negate r else r) ≡ 0) ⊎ (is_negative (if s then negate r else r) ≡ s))
signed true r h = (magnitude-negate r (omega (arith, h)), negate-is_negative r (omega (arith, h)))
signed false r h = (ground (arith, h), inr (ground (arith, h)))

part_le : (x y z : ℕ) → x + y ≡ z → x ≤ z
part_le x y z h = omega (arith, h)

quotient_le : (q m n : ℕ) → q * m ≤ n → 0 < m → q ≤ n
quotient_le q m n h p = omega (arith, h, mul-le-mul_left {m = 1} {n = m} q (omega arith))

quotient_lt : (q m n : ℕ) → q * m ≤ n → 1 < m → 0 < n → q < n
quotient_lt q m n h p z = omega (arith, h, mul-le-mul_left {m = 2} {n = m} q (omega arith))

below : {x y z : ℕ} → x ≤ y → y ≤ z → x ≤ z
below h g = omega (arith, h, g)

strictly_below : {x y z : ℕ} → x < y → y ≤ z → x < z
strictly_below h g = omega (arith, h, g)

quotient_bound :
    (a b : ℕ)
    → b < word_mod
    → ¬ (b ≡ 0)
    → bool_eq (is_negative a) (is_negative b) ≡ true
    → is_overflow false (codes "/") a b ≡ false
    → (q : ℕ) → q * magnitude b ≤ magnitude a
    → q < sign_bit
unfolding is_overflow str_eq
quotient_bound a b hb n same fine q h = ground (
  arith,
  same,
  fine,
  magnitude_le a,
  quotient_le q (magnitude b) (magnitude a) h (magnitude_pos b hb n),
  quotient_lt q (magnitude b) (magnitude a) h,
)

-- A quotient and a remainder by what they are of.
abbrev IsQuotient : ℕ → ℕ → ℕ → ℕ → Type 0
IsQuotient a b q0 q =
    (magnitude q ≡ q0) × ((q ≡ 0) ⊎ (is_negative q ≡ not (bool_eq (is_negative a) (is_negative b))))

divide-IsQuotient :
    (a b : ℕ)
    → b < word_mod
    → ¬ (b ≡ 0)
    → is_overflow false (codes "/") a b ≡ false
    → IsQuotient a b (magnitude a / magnitude b) (divide false a b)
unfolding divide
divide-IsQuotient a b hb n fine =
    let q = magnitude a / magnitude b in
    let fits : q * magnitude b ≤ magnitude a =
      part_le _ _ _ (div-add-mod' (magnitude a) (magnitude b)) in
    let small : q ≤ sign_bit =
      below (quotient_le q _ _ fits (magnitude_pos b hb n)) (magnitude_le a) in
    elim (Bool-cases (bool_eq (is_negative a) (is_negative b))) [
      | inl same ↦
          let bound = quotient_bound a b hb n same fine q fits in
          rw same (magnitude-positive q bound, inr (positive-is_negative q bound))
      | inr other ↦ rw other (magnitude-negate q small, negate-is_negative q small)
    ]

remainder-signed :
    (a b : ℕ)
    → b < word_mod
    → ¬ (b ≡ 0)
    → (magnitude (remainder false a b) ≡ magnitude a % magnitude b)
      × ((remainder false a b ≡ 0) ⊎ (is_negative (remainder false a b) ≡ is_negative a))
unfolding remainder
remainder-signed a b hb n =
    signed (is_negative a) (magnitude a % magnitude b)
      (strictly_below (mod-lt (magnitude a) (magnitude_pos b hb n)) (magnitude_le b))

-- By a divisor of 64 bits that is not 0, except for the least number by -1, signed numbers are folded
-- to a quotient and a remainder of the division towards zero: of the absolute values, the quotient
-- times the divisor and the remainder make the dividend, and the remainder is below the divisor; a
-- quotient that is not 0 is negative exactly where the signs differ, and a remainder that is not 0
-- has the sign of the dividend.
pub fold_binary-truncated :
    (a b : ℕ)
    → b < word_mod
    → ¬ (b ≡ 0)
    → is_overflow false (codes "/") a b ≡ false
    → (q : ℕ) × (r : ℕ) × (fold_binary false (codes "/") a b ≡ some q)
      × (fold_binary false (codes "%") a b ≡ some r)
      × (magnitude q * magnitude b + magnitude r ≡ magnitude a)
      × (magnitude r < magnitude b)
      × ((q ≡ 0) ⊎ (is_negative q ≡ not (bool_eq (is_negative a) (is_negative b))))
      × ((r ≡ 0) ⊎ (is_negative r ≡ is_negative a))
unfolding fold_binary str_eq
fold_binary-truncated a b hb n fine =
    let quotient = divide-IsQuotient a b hb n fine in
    let rest = remainder-signed a b hb n in
    (
      divide false a b,
      remainder false a b,
      ground (arith, n),
      ground (arith, n),
      rw (quotient.0, rest.0) (div-add-mod' (magnitude a) (magnitude b)),
      rw rest.0 (mod-lt (magnitude a) (magnitude_pos b hb n)),
      quotient.1,
      rest.1,
    )
