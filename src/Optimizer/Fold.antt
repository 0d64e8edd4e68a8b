-- ===== src/Optimizer/Fold.antt =====
-- MIROptimizer::constant_fold of src/mir_optimizer.cpp, and unsigned_integer_kind of
-- src/mir_internal.hpp.
pub mod Signed
pub mod Divisions
pub mod Truncated
use Prim.Native.Nat.{bit_and, bit_or, bit_xor}
use uinx.Prelude.{
  ℕ, ◌+◌, ◌-◌, ◌*◌, ◌/◌, ◌%◌, ◌^◌, Bool, true, false, not, ◌&&◌, ◌||◌, List, [], ◌∷◌, Bytes, codes,
  str_eq, find, Option, none, some, ◌==◌, ltb, leb, if◌then◌else◌, bool_eq,
}
use uinx.Mir.{Op, Instruction, BasicBlock}
use uinx.Optimizer.Numbers.{
  word_mod, sign_bit, is_negative, magnitude, negate, c_str, strtoll, to_string,
}
use uinx.Types.{TypeKind, kind_eq, kind_of, rank, builtin}

unfoldable pub unsigned_integer_kind : TypeKind → Bool
unfolding rank
unsigned_integer_kind k =
    kind_eq k TypeKind.u8
    || (kind_eq k TypeKind.u16
        || (kind_eq k TypeKind.u32
            || (kind_eq k TypeKind.u64 || (kind_eq k TypeKind.u128 || kind_eq k TypeKind.usize))))

abbrev pub Constants : Type 0
Constants = List (Bytes × ℕ)

-- `get`: what is known of a value, or the number that its text is
unfoldable pub get : Constants → Bytes → Option ℕ
unfolding find strtoll c_str
get m v = elim (find v m) [ some n ↦ some n | none ↦ strtoll (c_str v) ]

-- Quotients and remainders of signed numbers go towards zero; of the least number by -1 they are
-- never taken (`is_overflow`).
unfoldable pub divide : Bool → ℕ → ℕ → ℕ
divide true a b = a / b
divide false a b =
    let q = magnitude a / magnitude b in
    if bool_eq (is_negative a) (is_negative b) then q % word_mod else negate q

unfoldable pub remainder : Bool → ℕ → ℕ → ℕ
remainder true a b = a % b
remainder false a b = let r = magnitude a % magnitude b in if is_negative a then negate r else r

unfoldable pub shift_right : Bool → ℕ → ℕ → ℕ
shift_right true a b = a / 2 ^ b
shift_right false a b =
    if is_negative a then word_mod - 1 - (word_mod - 1 - a) / 2 ^ b else a / 2 ^ b

-- A quotient or remainder that C++ leaves undefined, and at which programs commonly trap: of the
-- least signed number by -1.
unfoldable pub is_overflow : Bool → Bytes → ℕ → ℕ → Bool
unfolding str_eq
is_overflow u op a b =
    (str_eq op (codes "/") || str_eq op (codes "%"))
    && (not u && (a == sign_bit && b == word_mod - 1))

-- The chain of operators, where it is defined; nothing where `ok` is false.
unfoldable pub fold_binary : Bool → Bytes → ℕ → ℕ → Option ℕ
unfolding divide remainder shift_right
fold_binary u op a b =
    if str_eq op (codes "+")
    then some ((a + b) % word_mod)
    else if str_eq op (codes "-")
    then some ((a + word_mod - b) % word_mod)
    else if str_eq op (codes "*")
    then some ((a * b) % word_mod)
    else if str_eq op (codes "/")
    then (if b == 0 then none else some (divide u a b))
    else if str_eq op (codes "%")
    then (if b == 0 then none else some (remainder u a b))
    else if str_eq op (codes "&") || str_eq op (codes "&&")
    then some (bit_and a b)
    else if str_eq op (codes "|") || str_eq op (codes "||")
    then some (bit_or a b)
    else if str_eq op (codes "^")
    then some (bit_xor a b)
    else if str_eq op (codes "<<")
    then (if leb 64 b then none else some ((a * 2 ^ b) % word_mod))
    else if str_eq op (codes ">>")
    then (if leb 64 b then none else some (shift_right u a b))
    else none

-- `a < b` on bit patterns, by the signs first where the numbers are signed
unfoldable pub less : Bool → ℕ → ℕ → Bool
less true a b = ltb a b
less false a b = if bool_eq (is_negative a) (is_negative b) then ltb a b else is_negative a

unfoldable pub fold_compare : Bool → Bytes → ℕ → ℕ → Bool
unfolding less
fold_compare u op a b =
    if str_eq op (codes "==")
    then a == b
    else if str_eq op (codes "!=")
    then not (a == b)
    else if str_eq op (codes "<")
    then less u a b
    else if str_eq op (codes "<=")
    then not (less u b a)
    else if str_eq op (codes ">")
    then less u b a
    else if str_eq op (codes ">=")
    then not (less u a b)
    else false

-- What folding comes to: a value, or an undefined quotient or remainder.
pub data Folded {ℓ} (A : Type ℓ) : Type ℓ where
  folded : A → Folded A
  undefined : Folded A

-- The instruction and the map behind it. `set_constant` is `constants[result] = value`.
abbrev set_constant : Bytes → ℕ → Constants → Constants
set_constant r v m = (r, v) ∷ m

abbrev pub is_empty : Bytes → Bool
is_empty [] = true
is_empty (_ ∷ _) = false

abbrev pub digit_text : Bool → Bytes
digit_text true = codes "1"
digit_text false = codes "0"

abbrev pub bit : Bool → ℕ
bit true = 1
bit false = 0

unfoldable pub to_const : Op → Bytes → Instruction → Instruction
to_const op text i = record i { op = op; args = []; text = text }

abbrev record_literal : Instruction → Constants → Option ℕ → Instruction × Constants
record_literal i m none = (i, m)
record_literal i m (some v) = (i, set_constant i.result v m)

-- `!` on a constant: the logical one at `bool`, the bitwise one elsewhere
unfoldable pub fold_not : Instruction → Constants → ℕ → Instruction × Constants
unfolding to_const to_string rank
fold_not i m a =
    if kind_eq (kind_of i.result_type) TypeKind.bool
    then (
      to_const Op.const_bool (to_string (bit (a == 0))) i,
      set_constant i.result (bit (a == 0)) m,
    )
    else (
      to_const Op.const_int (to_string (word_mod - 1 - a)) i,
      set_constant i.result (word_mod - 1 - a) m,
    )

abbrev pub record_result : Instruction → Constants → Option ℕ → Instruction × Constants
record_result i m none = (i, m)
record_result i m (some v) = (to_const Op.const_int (to_string v) i, set_constant i.result v m)

unfoldable pub fold_two :
    Instruction → Constants → Option ℕ → Option ℕ → Folded (Instruction × Constants)
unfolding to_const to_string fold_binary is_overflow unsigned_integer_kind
fold_two i m (some a) (some b) =
    let u = unsigned_integer_kind (kind_of i.result_type) in
    if is_overflow u i.text a b
    then undefined
    else folded (record_result i m (fold_binary u i.text a b))
fold_two i m _ _ = folded (i, m)

-- the branch for `Op::Binary`, on the arguments
unfoldable pub fold_binary_args :
    Instruction → Constants → List Bytes → Folded (Instruction × Constants)
unfolding fold_not fold_two get str_eq
fold_binary_args i m (x ∷ []) = folded (
    if str_eq i.text (codes "!")
    then elim (get m x) [ some a ↦ fold_not i m a | none ↦ (i, m) ]
    else (i, m))
fold_binary_args i m (x ∷ y ∷ []) = fold_two i m (get m x) (get m y)
fold_binary_args i m _ = folded (i, m)

unfoldable pub compared : Instruction → Constants → Option ℕ → Option ℕ → Instruction × Constants
unfolding fold_compare unsigned_integer_kind builtin
compared i m (some a) (some b) =
    let r = fold_compare (unsigned_integer_kind (kind_of i.result_type)) i.text a b in
    (
      record i {
        op = Op.const_bool;
        result_type = builtin (codes "bool");
        args = [];
        text = digit_text r;
      },
      set_constant i.result (bit r) m,
    )
compared i m _ _ = (i, m)

unfoldable pub fold_compare_args : Instruction → Constants → List Bytes → Instruction × Constants
unfolding compared get
fold_compare_args i m (x ∷ y ∷ []) = compared i m (get m x) (get m y)
fold_compare_args i m _ = (i, m)

unfoldable pub fold_op : Op → Instruction → Constants → Folded (Instruction × Constants)
unfolding get fold_binary_args fold_compare_args rank
fold_op Op.const_int i m = folded (record_literal i m (get m i.text))
fold_op Op.const_bool i m = folded (record_literal i m (get m i.text))
fold_op Op.const_char i m = folded (record_literal i m (get m i.text))
fold_op op i m =
    if kind_eq (kind_of i.result_type) TypeKind.i128
      || kind_eq (kind_of i.result_type) TypeKind.u128
    then folded (i, m)
    else elim op [
      | Op.binary ↦ fold_binary_args i m i.args
      | Op.compare_op ↦ folded (fold_compare_args i m i.args)
      | _ ↦ folded (i, m)
    ]

-- one round of the loop over the instructions; without a result nothing is folded
unfoldable pub fold_instruction : Instruction → Constants → Folded (Instruction × Constants)
unfolding fold_op
fold_instruction i m = if is_empty i.result then folded (i, m) else fold_op i.op i m

infixl 5 ◌>>=◌
abbrev pub ◌>>=◌ {ℓ κ} : {A : Type ℓ} {B : Type κ} → Folded A → (A → Folded B) → Folded B
folded a >>= f = f a
undefined >>= f = undefined

unfoldable pub fold_instructions : Constants → List Instruction → Folded (List Instruction)
unfolding fold_instruction
fold_instructions m [] = folded []
fold_instructions m (i ∷ is) = do
  (i', m') ← fold_instruction i m
  is' ← fold_instructions m' is
  folded (i' ∷ is')

-- `constant_fold`: each block by itself
unfoldable pub constant_fold : List BasicBlock → Folded (List BasicBlock)
unfolding fold_instructions
constant_fold [] = folded []
constant_fold (b ∷ bs) = do
  is ← fold_instructions [] b.instructions
  bs' ← constant_fold bs
  folded (record b { instructions = is } ∷ bs')
