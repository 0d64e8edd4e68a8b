-- ===== src/Optimizer/Fold/Divisions.antt =====
-- Where `constant_fold` of src/mir_optimizer.cpp comes to an undefined division, and the passes in
-- front of it, which add no division.
use uinx.Prelude.{
  ℕ, Bool, true, false, not, ◌&&◌, ◌||◌, List, [], ◌∷◌, Bytes, codes, str_eq, any_of, map, keep_if,
  Option, none, some, ◌≡◌, refl, arith, inl, inr, or_cases, ◌⊎◌, if◌then◌else◌, or_first, or_second,
}
use uinx.Mir.{Op, Instruction, BasicBlock}
use uinx.Types.{kind_of}
use uinx.Optimizer.Fold
use uinx.Optimizer.Fold.{
  Constants, Folded, unsigned_integer_kind, fold_two, fold_binary_args, fold_op, fold_instruction,
  fold_instructions, constant_fold, ◌>>=◌,
}
use uinx.Optimizer.Forward.{
  Names, max_depth, resolve, known_load, slots_after, resolve_instruction, forward_instructions,
  forward_local_loads,
}

abbrev is_binary : Op → Bool
is_binary Op.binary = true
is_binary _ = false

-- a quotient or remainder whose type is not unsigned
abbrev pub is_division : Instruction → Bool
is_division i =
    is_binary i.op
    && ((str_eq i.text (codes "/") || str_eq i.text (codes "%"))
        && not (unsigned_integer_kind (kind_of i.result_type)))

abbrev pub has_division : List BasicBlock → Bool
has_division bs = any_of (λ b. any_of is_division b.instructions) bs

abbrev IsUndefined : {A : Type 0} → Folded A → Type 0
IsUndefined o = o ≡ Fold.undefined

at_undefined :
    {A : Type 0} (c : Bool) (a : A)
    → IsUndefined (if c then Fold.undefined else Fold.folded a)
    → c ≡ true
at_undefined c a h = ground (arith, h)

without_numbers : (d n r : Bool) → (d && (n && r)) ≡ true → (d && n) ≡ true
without_numbers d n r h = ground (arith, h)

fold_two-IsUndefined :
    (i : Instruction) (m : Constants) (a b : Option ℕ)
    → i.op ≡ Op.binary
    → IsUndefined (fold_two i m a b)
    → is_division i ≡ true
unfolding fold_two Fold.is_overflow
fold_two-IsUndefined i m (some a) (some b) e h = rw e (
    without_numbers (str_eq i.text (codes "/") || str_eq i.text (codes "%"))
      (not (unsigned_integer_kind (kind_of i.result_type))) _ (at_undefined _ _ h))
fold_two-IsUndefined i m (some a) none e h = cc
fold_two-IsUndefined i m none b e h = cc

fold_binary_args-IsUndefined :
    (i : Instruction) (m : Constants) (args : List Bytes)
    → i.op ≡ Op.binary
    → IsUndefined (fold_binary_args i m args)
    → is_division i ≡ true
unfolding fold_binary_args
fold_binary_args-IsUndefined i m [] e h = cc
fold_binary_args-IsUndefined i m (x ∷ []) e h = cc
fold_binary_args-IsUndefined i m (x ∷ y ∷ []) e h = fold_two-IsUndefined i m _ _ e h
fold_binary_args-IsUndefined i m (x ∷ y ∷ z ∷ args) e h = cc

fold_op-IsUndefined :
    (op : Op) (i : Instruction) (m : Constants)
    → i.op ≡ op
    → IsUndefined (fold_op op i m)
    → is_division i ≡ true
unfolding fold_op
fold_op-IsUndefined Op.binary i m e h =
    fold_binary_args-IsUndefined i m i.args e (ground (arith, h))
fold_op-IsUndefined op i m e h = ground (arith, h)

fold_instruction-IsUndefined :
    (i : Instruction) (m : Constants) → IsUndefined (fold_instruction i m) → is_division i ≡ true
unfolding fold_instruction
fold_instruction-IsUndefined i m h = fold_op-IsUndefined i.op i m refl (ground (arith, h))

-- A chain is undefined where its first part is, or the rest of it at the value of the first.
bind-IsUndefined :
    {A B : Type 0} (o : Folded A) (f : A → Folded B)
    → IsUndefined (o >>= f)
    → IsUndefined o ⊎ ((a : A) × IsUndefined (f a))
bind-IsUndefined (Fold.folded a) f h = inr (a, h)
bind-IsUndefined Fold.undefined f h = inl refl

ends_folded :
    {A B : Type 0} (o : Folded A) (g : A → B)
    → IsUndefined (o >>= λ a. Fold.folded (g a))
    → IsUndefined o
ends_folded (Fold.folded a) g h = cc
ends_folded Fold.undefined g h = refl

fold_instructions-IsUndefined :
    (m : Constants) (is : List Instruction)
    → IsUndefined (fold_instructions m is)
    → any_of is_division is ≡ true
unfolding fold_instructions
fold_instructions-IsUndefined m [] h = cc
fold_instructions-IsUndefined m (i ∷ is) h = elim (bind-IsUndefined (fold_instruction i m) _ h) [
  | inl u ↦ rw (fold_instruction-IsUndefined i m u) refl
  | inr (p, u) ↦ or_second _ _ (fold_instructions-IsUndefined p.1 is (ends_folded _ _ u))
]

-- Where constant folding is undefined there is a division in the blocks.
pub constant_fold-IsUndefined :
    (bs : List BasicBlock) → IsUndefined (constant_fold bs) → has_division bs ≡ true
unfolding constant_fold
constant_fold-IsUndefined [] h = cc
constant_fold-IsUndefined (b ∷ bs) h =
    elim (bind-IsUndefined (fold_instructions [] b.instructions) _ h) [
      | inl u ↦ rw (fold_instructions-IsUndefined [] b.instructions u) refl
      | inr (is, u) ↦ or_second _ _ (constant_fold-IsUndefined bs (ends_folded _ _ u))
    ]

load_cases :
    (l : Option Bytes) (f : Bytes → List Instruction) (js : List Instruction)
    → any_of is_division (elim l [ some v ↦ f v | none ↦ js ]) ≡ true
    → ((v : Bytes) × (any_of is_division (f v) ≡ true)) ⊎ (any_of is_division js ≡ true)
load_cases none f js h = inr h
load_cases (some v) f js h = inl (v, h)

-- The passes in front add none.
forward_instructions-is_division :
    (slots aliases : Names) (is : List Instruction)
    → any_of is_division (forward_instructions slots aliases is) ≡ true
    → any_of is_division is ≡ true
unfolding forward_instructions resolve_instruction
forward_instructions-is_division slots aliases [] h = h
forward_instructions-is_division slots aliases (i ∷ is) h =
    elim (load_cases (known_load i.op i.flag (map (resolve max_depth aliases) i.args) slots)
      (λ v. forward_instructions slots ((i.result, resolve max_depth aliases v) ∷ aliases) is)
      (resolve_instruction aliases i
        ∷ forward_instructions
            (slots_after i.op i.flag (map (resolve max_depth aliases) i.args) slots) aliases is)
      h) [
        | inl (v, d) ↦ or_second _ _ (
            forward_instructions-is_division slots
              ((i.result, resolve max_depth aliases v) ∷ aliases) is d)
        | inr d ↦ elim (or_cases (is_division i) _ d) [
          | inl e ↦ or_first _ _ e
          | inr e ↦ or_second _ _ (
              forward_instructions-is_division
                (slots_after i.op i.flag (map (resolve max_depth aliases) i.args) slots) aliases is
                e)
        ]
      ]

pub forward_local_loads-has_division :
    (bs : List BasicBlock) → has_division (forward_local_loads bs) ≡ true → has_division bs ≡ true
unfolding forward_local_loads
forward_local_loads-has_division [] h = h
forward_local_loads-has_division (b ∷ bs) h = elim (or_cases _ _ h) [
  | inl d ↦ or_first _ _ (forward_instructions-is_division [] [] b.instructions d)
  | inr d ↦ or_second _ _ (forward_local_loads-has_division bs d)
]

pub keep_if-has_division :
    (q : BasicBlock → Bool) (bs : List BasicBlock)
    → has_division (keep_if q bs) ≡ true
    → has_division bs ≡ true
keep_if-has_division q [] h = h
keep_if-has_division q (b ∷ bs) h = ground (arith, h, keep_if-has_division q bs)
