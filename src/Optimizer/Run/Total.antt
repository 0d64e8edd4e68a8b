-- ===== src/Optimizer/Run/Total.antt =====
-- The optimiser ends on every module.
use uinx.Prelude.{
  ℕ, zero, suc, ◌≡◌, ◌∷◌, true, false, Bool, List, [], Option, none, some, refl, ap, ◌∙◌, leb,
  if◌then◌else◌, any_of, ◌⊎◌, inl, inr, Bytes, or_first, or_second,
}
use uinx.Mir.{BasicBlock, Function, Module}
use uinx.Optimizer.Dead.{eliminate_dead_values}
use uinx.Optimizer.Dead.Correct.{eliminate_dead_values-IsPruned}
use uinx.Optimizer.Fold
use uinx.Optimizer.Fold.{Folded, constant_fold}
use uinx.Optimizer.Fold.Divisions.{
  has_division, constant_fold-IsUndefined, forward_local_loads-has_division, keep_if-has_division,
}
use uinx.Optimizer.Forward.{forward_local_loads}
use uinx.Optimizer.Reachable.{remove_unreachable, keep_reached}
use uinx.Optimizer.Reachable.Search.{reach_total}
use uinx.Optimizer.Run
use uinx.Optimizer.Run.{
  Outcome, within_fuel, where_defined, ◌>>=◌, second_round, optimize_blocks, optimize_function,
  optimize_functions, run,
}

-- The call returns a value, or there is a division and the call comes to an undefined one.
abbrev pub Ends : {A : Type 0} → Bool → Outcome A → Type 0
Ends {A} divides o = ((a : A) × (o ≡ Run.returned a)) ⊎ ((divides ≡ true) × (o ≡ Run.overflowed))

bind-Ends :
    {A B : Type 0} (divides : Bool) (o : Outcome A) (f : A → Outcome B)
    → Ends divides o
    → ((a : A) → o ≡ Run.returned a → Ends divides (f a))
    → Ends divides (o >>= f)
bind-Ends divides (Run.returned x) f r g = g x refl
bind-Ends divides Run.overflowed f (inl (a, e)) g = cc
bind-Ends divides Run.overflowed f (inr (d, e)) g = inr (d, refl)
bind-Ends divides Run.endless f (inl (a, e)) g = cc
bind-Ends divides Run.endless f (inr (d, e)) g = cc

more_divisions :
    {A : Type 0} (c d : Bool) (o : Outcome A) → (c ≡ true → d ≡ true) → Ends c o → Ends d o
more_divisions c d o f (inl r) = inl r
more_divisions c d o f (inr (e, u)) = inr (f e, u)

-- What is kept has no division that the blocks have not.
remove_unreachable-Ends :
    (divides : Bool) (bs : List BasicBlock) → Ends divides (within_fuel (remove_unreachable bs))
unfolding remove_unreachable
remove_unreachable-Ends divides [] = inl ([], refl)
remove_unreachable-Ends divides (b ∷ bs) =
    let (r, e) = reach_total (b ∷ bs) in inl (_, ap (λ s. within_fuel (keep_reached (b ∷ bs) s)) e)

abbrev value_or : {A : Type 0} → A → Outcome A → A
value_or d (Run.returned a) = a
value_or d _ = d

keep_reached-has_division :
    (bs kept : List BasicBlock) (r : Option (List Bytes))
    → within_fuel (keep_reached bs r) ≡ Run.returned kept
    → has_division kept ≡ true
    → has_division bs ≡ true
keep_reached-has_division bs kept none e h = cc
keep_reached-has_division bs kept (some r) e h =
    keep_if-has_division _ bs (ap has_division (ap (value_or []) e) ∙ h)

remove_unreachable-has_division :
    (bs kept : List BasicBlock)
    → within_fuel (remove_unreachable bs) ≡ Run.returned kept
    → has_division kept ≡ true
    → has_division bs ≡ true
unfolding remove_unreachable
remove_unreachable-has_division [] kept e h = ap has_division (ap (value_or []) e) ∙ h
remove_unreachable-has_division (b ∷ bs) kept e h = keep_reached-has_division (b ∷ bs) kept _ e h

eliminate-Ends :
    (divides : Bool) (bs : List BasicBlock) → Ends divides (within_fuel (eliminate_dead_values bs))
eliminate-Ends divides bs =
    let (cs, e, _) = eliminate_dead_values-IsPruned bs in inl (cs, ap within_fuel e)

where_defined-Ends :
    (divides : Bool) (o : Folded (List BasicBlock))
    → (o ≡ Fold.undefined → divides ≡ true)
    → Ends divides (where_defined o)
where_defined-Ends divides (Fold.folded bs) f = inl (bs, refl)
where_defined-Ends divides Fold.undefined f = inr (f refl, refl)

second_round-Ends :
    (divides : Bool) (level : ℕ) (bs : List BasicBlock) → Ends divides (second_round level bs)
unfolding second_round
second_round-Ends divides level bs =
    elim (leb 2 level)
      as (λ c. Ends divides (
        if c
        then within_fuel (eliminate_dead_values (forward_local_loads bs))
        else Run.returned bs)) [
          | true ↦ eliminate-Ends divides (forward_local_loads bs)
          | false ↦ inl (bs, refl)
        ]

optimize_blocks-Ends :
    (level : ℕ) (bs : List BasicBlock) → Ends (has_division bs) (optimize_blocks level bs)
unfolding optimize_blocks
optimize_blocks-Ends level bs = bind-Ends _ _ _ (remove_unreachable-Ends _ bs) λ reached e.
    bind-Ends _ _ _
      (where_defined-Ends _ (constant_fold (forward_local_loads reached)) λ u.
        remove_unreachable-has_division bs reached e
          (forward_local_loads-has_division reached (constant_fold-IsUndefined _ u)))
      λ known _. bind-Ends _ _ _ (eliminate-Ends _ known) λ used _. second_round-Ends _ level used

optimize_function-Ends :
    (level : ℕ) (f : Function) → Ends (has_division f.blocks) (optimize_function level f)
unfolding optimize_function
optimize_function-Ends level f =
    elim f.is_extern
      as (λ c. Ends (has_division f.blocks) (
        if c
        then Run.returned f
        else (optimize_blocks level f.blocks >>= λ bs. Run.returned (record f { blocks = bs })))) [
          | true ↦ inl (f, refl)
          | false ↦ bind-Ends _ _ _ (optimize_blocks-Ends level f.blocks) λ bs e. inl (_, refl)
        ]

-- whether a function of the module has a division
abbrev pub divides_in : List Function → Bool
divides_in fs = any_of (λ f. has_division f.blocks) fs

optimize_functions-Ends :
    (level : ℕ) (fs : List Function) → Ends (divides_in fs) (optimize_functions level fs)
unfolding optimize_functions
optimize_functions-Ends level [] = inl ([], refl)
optimize_functions-Ends level (f ∷ fs) =
    bind-Ends _ _ _ (more_divisions _ _ _ (or_first _ _) (optimize_function-Ends level f)) λ f' e.
      bind-Ends _ _ _ (more_divisions _ _ _ (or_second _ _) (optimize_functions-Ends level fs))
        λ fs' d. inl (_, refl)

-- At every level and on every module none of the loops of the optimiser runs without end: it returns
-- a module, or it comes to a quotient or remainder of constants that is undefined, and then the
-- module has an instruction for a quotient or remainder whose type is not unsigned.
pub run-Ends : (level : ℕ) (m : Module) → Ends (divides_in m.functions) (run level m)
unfolding run
run-Ends zero m = inl (m, refl)
run-Ends (suc level) m =
    bind-Ends _ _ _ (optimize_functions-Ends (suc level) m.functions) λ fs e. inl (_, refl)
