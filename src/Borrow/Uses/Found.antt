-- ===== src/Borrow/Uses/Found.antt =====
-- What is collected is what a part uses by itself or writes.
use uinx.Prelude.{
  true, ◌||◌, List, [], ◌∷◌, Bytes, str_eq_iff, str_eq_refl, ◌≡◌, refl, ◌⊎◌, inl, inr, or_cases,
  or_first, or_second, subst,
}
use uinx.Borrow.Tree
use uinx.Borrow.Tree.{Expr, Exprs, AsmOperands, AsmValue}
use uinx.Borrow.Uses.Collected.{used, used_each, used_operands, used_value, owns, written}
use uinx.Borrow.Uses.Parts
use uinx.Borrow.Uses.Parts.{Within, WithinEach, WithinOperands, Outputs, WritesName}

written_self : (own : Expr → List Bytes) (y : Bytes) → ¬ (y ≡ []) → written own y y ≡ true
unfolding written
written_self own [] n = absurd (n refl)
written_self own (c ∷ cs) n = str_eq_refl (c ∷ cs)

module _ (own : Expr → List Bytes) (x : Bytes) where
  -- a part uses the name by itself, or writes it
  abbrev pub At : Expr → Type 0
  At s = (owns own x s ≡ true) ⊎ WritesName x s

  abbrev pub Found : Expr → Type 0
  Found e = (s : Expr) × Within s e × At s

  abbrev FoundEach : Exprs → Type 0
  FoundEach es = (s : Expr) × WithinEach s es × At s

  abbrev FoundIn : AsmOperands → Type 0
  FoundIn os = Outputs x os ⊎ ((s : Expr) × WithinOperands s os × At s)

  in_part : {e d : Expr} → ((s : Expr) → Within s d → Within s e) → Found d → Found e
  in_part f (s, w, a) = (s, f s w, a)

  in_each :
      {e : Expr} {es : Exprs} → ((s : Expr) → WithinEach s es → Within s e) → FoundEach es → Found e
  in_each f (s, w, a) = (s, f s w, a)

  in_operands : {os : AsmOperands} → FoundIn os → Found (Tree.asm_expr os)
  in_operands (inl o) = (_, Parts.itself, inr (Parts.writes_name o))
  in_operands (inr (s, w, a)) = (s, Parts.in_asm w, a)

  here_used : {e : Expr} → owns own x e ≡ true → Found e
  here_used h = (_, Parts.itself, inl h)

  one_part :
      (e d : Expr)
      → ((s : Expr) → Within s d → Within s e)
      → (owns own x e || used own x d) ≡ true
      → (used own x d ≡ true → Found d)
      → Found e
  one_part e d f h g = elim (or_cases _ _ h) [ inl o ↦ here_used o | inr u ↦ in_part f (g u) ]

  written-Outputs :
      (name : Bytes) (v : AsmValue) (os : AsmOperands)
      → written own x name ≡ true
      → Outputs x (Tree.next_operand v name os)
  unfolding written
  written-Outputs [] v os h = cc
  written-Outputs (c ∷ cs) v os h =
      subst (λ y. Outputs y (Tree.next_operand v (c ∷ cs) os)) ((str_eq_iff (c ∷ cs) x).0 h)
        (Parts.output_first λ q. cc)

  mutual
    unfolding used

    pub used-Found : (e : Expr) → used own x e ≡ true → Found e
    used-Found Tree.leaf_expr h = here_used h
    used-Found (Tree.name_expr a name) h = here_used h
    used-Found (Tree.struct_literal_expr fields) h = elim (or_cases _ _ h) [
      | inl o ↦ here_used o
      | inr u ↦ in_each (λ s w. Parts.in_struct_literal w) (used_each-Found fields u)
    ]
    used-Found (Tree.unary_expr e) h = one_part _ e (λ s w. Parts.in_unary w) h (used-Found e)
    used-Found (Tree.borrow_expr e) h = one_part _ e (λ s w. Parts.in_borrow w) h (used-Found e)
    used-Found (Tree.await_expr e) h = one_part _ e (λ s w. Parts.in_await w) h (used-Found e)
    used-Found (Tree.cast_expr e) h = one_part _ e (λ s w. Parts.in_cast w) h (used-Found e)
    used-Found (Tree.member_expr e m) h = one_part _ e (λ s w. Parts.in_base w) h (used-Found e)
    used-Found (Tree.binary_expr l r) h = elim (or_cases _ _ h) [
      | inl o ↦ here_used o
      | inr u ↦ elim (or_cases (used own x l) _ u) [
        | inl v ↦ in_part (λ s w. Parts.in_left w) (used-Found l v)
        | inr v ↦ in_part (λ s w. Parts.in_right w) (used-Found r v)
      ]
    ]
    used-Found (Tree.call_expr f args) h = elim (or_cases _ _ h) [
      | inl o ↦ here_used o
      | inr u ↦ elim (or_cases (used own x f) _ u) [
        | inl v ↦ in_part (λ s w. Parts.in_callee w) (used-Found f v)
        | inr v ↦ in_each (λ s w. Parts.in_args w) (used_each-Found args v)
      ]
    ]
    used-Found (Tree.index_expr e i) h = elim (or_cases _ _ h) [
      | inl o ↦ here_used o
      | inr u ↦ elim (or_cases (used own x e) _ u) [
        | inl v ↦ in_part (λ s w. Parts.in_indexed w) (used-Found e v)
        | inr v ↦ in_part (λ s w. Parts.in_index w) (used-Found i v)
      ]
    ]
    used-Found (Tree.asm_expr os) h = elim (or_cases _ _ h) [
      | inl o ↦ here_used o
      | inr u ↦ in_operands (used_operands-Found os u)
    ]

    used_each-Found : (es : Exprs) → used_each own x es ≡ true → FoundEach es
    used_each-Found Tree.no_exprs h = cc
    used_each-Found (Tree.next_expr e es) h = elim (or_cases (used own x e) _ h) [
      | inl u ↦ let (s, w, a) = used-Found e u in (s, Parts.in_first w, a)
      | inr u ↦ let (s, w, a) = used_each-Found es u in (s, Parts.in_others w, a)
    ]

    used_operands-Found : (os : AsmOperands) → used_operands own x os ≡ true → FoundIn os
    used_operands-Found Tree.no_operands h = cc
    used_operands-Found (Tree.next_operand v name os) h = elim (or_cases (used_value own x v) _ h) [
      | inl u ↦ inr (used_value-Found v name os u)
      | inr u ↦ elim (or_cases (written own x name) _ u) [
        | inl w ↦ inl (written-Outputs name v os w)
        | inr w ↦ elim (used_operands-Found os w) [
          | inl o ↦ inl (Parts.output_next o)
          | inr (s, i, a) ↦ inr (s, Parts.in_operands i, a)
        ]
      ]
    ]

    used_value-Found :
        (v : AsmValue) (name : Bytes) (os : AsmOperands)
        → used_value own x v ≡ true
        → (s : Expr) × WithinOperands s (Tree.next_operand v name os) × At s
    used_value-Found Tree.no_value name os h = cc
    used_value-Found (Tree.value_of e) name os h =
        let (s, w, a) = used-Found e h in (s, Parts.in_value w, a)

  owns-used : (e : Expr) → owns own x e ≡ true → used own x e ≡ true
  unfolding used
  owns-used Tree.leaf_expr h = h
  owns-used (Tree.name_expr a name) h = h
  owns-used e h = or_first _ _ h

  Outputs-used_operands : {os : AsmOperands} → Outputs x os → used_operands own x os ≡ true
  unfolding used written
  Outputs-used_operands (Parts.output_first n) = or_second _ _ (or_first _ _ (written_self own x n))
  Outputs-used_operands (Parts.output_next o) =
      or_second _ _ (or_second _ _ (Outputs-used_operands o))

  At-used : (e : Expr) → At e → used own x e ≡ true
  unfolding used
  At-used e (inl h) = owns-used e h
  At-used e (inr (Parts.writes_name o)) = or_second _ _ (Outputs-used_operands o)

  mutual
    unfolding used

    pub Within-used : {s e : Expr} → Within s e → At s → used own x e ≡ true
    Within-used Parts.itself a = At-used _ a
    Within-used (Parts.in_struct_literal w) a = or_second _ _ (WithinEach-used w a)
    Within-used (Parts.in_unary w) a = or_second _ _ (Within-used w a)
    Within-used (Parts.in_borrow w) a = or_second _ _ (Within-used w a)
    Within-used (Parts.in_await w) a = or_second _ _ (Within-used w a)
    Within-used (Parts.in_cast w) a = or_second _ _ (Within-used w a)
    Within-used (Parts.in_left w) a = or_second _ _ (or_first _ _ (Within-used w a))
    Within-used (Parts.in_right w) a = or_second _ _ (or_second _ _ (Within-used w a))
    Within-used (Parts.in_callee w) a = or_second _ _ (or_first _ _ (Within-used w a))
    Within-used (Parts.in_args w) a = or_second _ _ (or_second _ _ (WithinEach-used w a))
    Within-used (Parts.in_base w) a = or_second _ _ (Within-used w a)
    Within-used (Parts.in_indexed w) a = or_second _ _ (or_first _ _ (Within-used w a))
    Within-used (Parts.in_index w) a = or_second _ _ (or_second _ _ (Within-used w a))
    Within-used (Parts.in_asm w) a = or_second _ _ (WithinOperands-used w a)

    WithinEach-used : {s : Expr} {es : Exprs} → WithinEach s es → At s → used_each own x es ≡ true
    WithinEach-used (Parts.in_first w) a = or_first _ _ (Within-used w a)
    WithinEach-used (Parts.in_others w) a = or_second _ _ (WithinEach-used w a)

    WithinOperands-used :
        {s : Expr} {os : AsmOperands} → WithinOperands s os → At s → used_operands own x os ≡ true
    WithinOperands-used (Parts.in_value w) a = or_first _ _ (Within-used w a)
    WithinOperands-used (Parts.in_operands w) a =
        or_second _ _ (or_second _ _ (WithinOperands-used w a))
