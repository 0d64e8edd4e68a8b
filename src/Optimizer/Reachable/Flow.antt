-- ===== src/Optimizer/Reachable/Flow.antt =====
-- Where control goes behind a block, said without the table of labels, and what the pass keeps.
use uinx.Prelude.{
  ℕ, zero, suc, ◌+◌, ◌<◌, ◌≡◌, ◌⊎◌, ◌↔◌, ◌∷◌, true, false, Bool, List, [], Bytes, refl, sym, ◌∙◌,
  arith, subst, inl, inr, In, here, there, length, find, str_eq, str_eq_iff, str_eq_refl,
  Bool-cases, Option, none, some, get_elem?, get_last?, ltb, Option-cases, if◌then◌else◌,
}
use uinx.Mir.{Op, Instruction, BasicBlock}
use uinx.Optimizer.Reachable.{
  remove_unreachable, label_table, targets_at, block_targets, tail_targets, fall_through,
  found_index, labels_of,
}
use uinx.Optimizer.Reachable.Search.{targets, label, block-exists}
use uinx.Optimizer.Reachable.Correct.{
  UniqueLabels, Kept, Reaches, In-append_cases, In-append, Kept-targets, get_elem?-lt,
}

-- whether an instruction decides where control goes
abbrev pub decides : Op → List Bytes → Bool
decides Op.jump (_ ∷ _) = true
decides Op.cond_jump (_ ∷ _ ∷ _ ∷ _) = true
decides Op.ret args = true
decides op args = false

-- The block at an index has a label.
abbrev Labelled : List BasicBlock → ℕ → Bytes → Type 0
Labelled bs j l = (j < length bs) × (label bs j ≡ l)

Option-injective : {a b : ℕ} → some a ≡ some b → a ≡ b
Option-injective e = cc

table_sound :
    (bs : List BasicBlock) (k j : ℕ) (l : Bytes) (m : List (Bytes × ℕ))
    → find l (label_table k bs m) ≡ some j
    → ((d : ℕ) × (j ≡ k + d) × Labelled bs d l) ⊎ (find l m ≡ some j)
unfolding label_table find
table_sound [] k j l m e = inr e
table_sound (b ∷ bs) k j l m e = elim (table_sound bs (k + 1) j l ((b.label, k) ∷ m) e) [
  | inl (d, at, (lt, is)) ↦ inl (suc d, omega (arith, at), (omega (arith, lt), is))
  | inr f ↦ elim (Bool-cases (str_eq b.label l)) [
    | inl same ↦
        let j=k : some k ≡ some j = rw same at f in
        inl (0, omega (arith, Option-injective j=k), (omega arith, (str_eq_iff b.label l).0 same))
    | inr other ↦ inr (rw other at f)
  ]
]

table_complete :
    (bs : List BasicBlock) (k : ℕ) (l : Bytes) (m : List (Bytes × ℕ))
    → ((d : ℕ) × Labelled bs d l) ⊎ ((j : ℕ) × (find l m ≡ some j))
    → (j : ℕ) × (find l (label_table k bs m) ≡ some j)
unfolding label_table find
table_complete [] k l m (inl (d, (lt, is))) = absurd (omega (arith, lt))
table_complete [] k l m (inr f) = f
table_complete (b ∷ bs) k l m (inl (zero, (lt, is))) =
    table_complete bs (k + 1) l ((b.label, k) ∷ m) (inr (k, rw (is, str_eq_refl l)))
table_complete (b ∷ bs) k l m (inl (suc d, (lt, is))) =
    table_complete bs (k + 1) l ((b.label, k) ∷ m) (inl (d, (omega (arith, lt), is)))
table_complete (b ∷ bs) k l m (inr (j, f)) = elim (Bool-cases (str_eq b.label l)) [
  | inl same ↦ table_complete bs (k + 1) l ((b.label, k) ∷ m) (inr (k, rw same))
  | inr other ↦ table_complete bs (k + 1) l ((b.label, k) ∷ m) (inr (j, rw (other, f)))
]

fall_through_tail :
    (m : List (Bytes × ℕ)) (size i : ℕ) (op : Op) (args : List Bytes)
    → decides op args ≡ false
    → tail_targets m size i op args ≡ fall_through size i
unfolding tail_targets
fall_through_tail m size i Op.jump [] h = refl
fall_through_tail m size i Op.jump (_ ∷ _) h = cc
fall_through_tail m size i Op.cond_jump [] h = refl
fall_through_tail m size i Op.cond_jump (_ ∷ []) h = refl
fall_through_tail m size i Op.cond_jump (_ ∷ _ ∷ []) h = refl
fall_through_tail m size i Op.cond_jump (_ ∷ _ ∷ _ ∷ _) h = cc
fall_through_tail m size i Op.ret args h = cc
fall_through_tail m size i op args h = refl

-- Where an instruction that ends a block leads to.
pub data TailLeads (bs : List BasicBlock) (i j : ℕ) : Op → List Bytes → Type 0 where
  jumps :
      {target : Bytes} {rest : List Bytes}
      → Labelled bs j target
      → TailLeads bs i j Op.jump (target ∷ rest)
  to_first :
      {c x y : Bytes} {rest : List Bytes}
      → Labelled bs j x
      → TailLeads bs i j Op.cond_jump (c ∷ x ∷ y ∷ rest)
  to_second :
      {c x y : Bytes} {rest : List Bytes}
      → Labelled bs j y
      → TailLeads bs i j Op.cond_jump (c ∷ x ∷ y ∷ rest)
  falls :
      {op : Op} {args : List Bytes}
      → decides op args ≡ false
      → j ≡ i + 1
      → j < length bs
      → TailLeads bs i j op args

abbrev pub EndLeads : List BasicBlock → ℕ → ℕ → Option Instruction → Type 0
EndLeads bs i j none = (j ≡ i + 1) × (j < length bs)
EndLeads bs i j (some t) = TailLeads bs i j t.op t.args

-- Control goes from a block to another.
abbrev pub Leads : List BasicBlock → ℕ → ℕ → Type 0
Leads bs i j =
    (b : BasicBlock) × (get_elem? bs i ≡ some b) × EndLeads bs i j (get_last? b.instructions)

-- Control comes to a block from the first one.
pub data FlowReaches (bs : List BasicBlock) : ℕ → Type 0 where
  start : FlowReaches bs 0
  next : {i j : ℕ} → FlowReaches bs i → Leads bs i j → FlowReaches bs j

fall_sound : (size i j : ℕ) → In j (fall_through size i) → (j ≡ i + 1) × (j < size)
unfolding fall_through
fall_sound size i j m = elim (Bool-cases (ltb (i + 1) size)) [
  | inl more ↦ elim (subst (λ (b : Bool). In j (if b then (i + 1) ∷ [] else [])) more m) [
    | here e ↦ (e, ground (arith, e, more))
    | there n ↦ elim n [ ]
  ]
  | inr last ↦ elim (subst (λ (b : Bool). In j (if b then (i + 1) ∷ [] else [])) last m) [ ]
]

fall_complete : (size i j : ℕ) → j ≡ i + 1 → j < size → In j (fall_through size i)
unfolding fall_through
fall_complete size i j e lt =
    let more : ltb (i + 1) size ≡ true = ground (arith, e, lt) in rw more (here e)

module _ (bs : List BasicBlock) where
  Labelled-index : (l : Bytes) (k : ℕ) → find l (labels_of bs) ≡ some k → Labelled bs k l
  unfolding find
  Labelled-index l k e = elim (table_sound bs 0 k l [] e) [
    | inl (d, at, is) ↦ subst (λ (n : ℕ). Labelled bs n l) (omega (arith, at)) is
    | inr never ↦ cc
  ]

  found_sound : (l : Bytes) (j : ℕ) → In j (found_index (find l (labels_of bs))) → Labelled bs j l
  found_sound l j m = elim (Option-cases (find l (labels_of bs))) [
    | inl absent ↦ elim (subst (λ (o : Option ℕ). In j (found_index o)) absent m) [ ]
    | inr (k, e) ↦ elim (subst (λ (o : Option ℕ). In j (found_index o)) e m) [
      | here same ↦ subst (λ (n : ℕ). Labelled bs n l) (sym same) (Labelled-index l k e)
      | there n ↦ elim n [ ]
    ]
  ]

  tail_sound :
      (i j : ℕ) (op : Op) (args : List Bytes)
      → In j (tail_targets (labels_of bs) (length bs) i op args)
      → TailLeads bs i j op args
  unfolding tail_targets
  tail_sound i j Op.jump (x ∷ rest) m = jumps (found_sound x j m)
  tail_sound i j Op.cond_jump (c ∷ x ∷ y ∷ rest) m =
      elim (In-append_cases (found_index (find y (labels_of bs)))
        (found_index (find x (labels_of bs))) m) [
          | inl l ↦ to_second (found_sound y j l)
          | inr r ↦ to_first (found_sound x j r)
        ]
  tail_sound i j Op.ret args m = elim m [ ]
  tail_sound i j op args m = let (e, lt) = fall_sound (length bs) i j m in falls refl e lt

  end_sound :
      (i j : ℕ) (o : Option Instruction)
      → In j (block_targets (labels_of bs) (length bs) i o)
      → EndLeads bs i j o
  unfolding block_targets
  end_sound i j none m = fall_sound (length bs) i j m
  end_sound i j (some t) m = tail_sound i j t.op t.args m

  Leads-sound : (i j : ℕ) → i < length bs → In j (targets bs i) → Leads bs i j
  unfolding targets_at
  Leads-sound i j lt m =
      let (b, at) = block-exists bs i lt in
      (
        b,
        at,
        end_sound i j (get_last? b.instructions)
            (subst (λ (o : Option BasicBlock). In j (targets_at bs i o)) at m),
      )

  Reaches-flow : {i : ℕ} → Reaches bs i → FlowReaches bs i
  Reaches-flow Reaches.entry = start
  Reaches-flow (Reaches.onward {i} {j} w lt m) = next (Reaches-flow w) (Leads-sound i j lt m)

  module _ (unique : UniqueLabels bs) where
    found_complete :
        (l : Bytes) (j : ℕ) → Labelled bs j l → In j (found_index (find l (labels_of bs)))
    found_complete l j (lt, is) =
        let (k, e) = table_complete bs 0 l [] (inl (j, (lt, is))) in
        let (lt', is') = Labelled-index l k e in rw e (here (unique j k lt lt' (is ∙ sym is')))

    tail_complete :
        (i j : ℕ) (op : Op) (args : List Bytes)
        → TailLeads bs i j op args
        → In j (tail_targets (labels_of bs) (length bs) i op args)
    unfolding tail_targets
    tail_complete i j _ _ (jumps {target} l) = found_complete target j l
    tail_complete i j _ _ (to_first {c} {x} {y} l) =
        In-append (found_index (find y (labels_of bs))) (found_index (find x (labels_of bs)))
          (inr (found_complete x j l))
    tail_complete i j _ _ (to_second {c} {x} {y} l) =
        In-append (found_index (find y (labels_of bs))) (found_index (find x (labels_of bs)))
          (inl (found_complete y j l))
    tail_complete i j op args (falls d e lt) =
        rw (fall_through_tail (labels_of bs) (length bs) i op args d)
          (fall_complete (length bs) i j e lt)

    end_complete :
        (i j : ℕ) (o : Option Instruction)
        → EndLeads bs i j o
        → In j (block_targets (labels_of bs) (length bs) i o)
    unfolding block_targets
    end_complete i j none (e, lt) = fall_complete (length bs) i j e lt
    end_complete i j (some t) l = tail_complete i j t.op t.args l

    Leads-complete : (i j : ℕ) → Leads bs i j → (i < length bs) × In j (targets bs i)
    unfolding targets_at
    Leads-complete i j (b, at, l) = (
      get_elem?-lt bs i b at,
      subst (λ (o : Option BasicBlock). In j (targets_at bs i o)) (sym at)
          (end_complete i j (get_last? b.instructions) l),
    )

    FlowReaches-targets : {i : ℕ} → FlowReaches bs i → Reaches bs i
    FlowReaches-targets start = Reaches.entry
    FlowReaches-targets (next {i} {j} w l) =
        let (lt, m) = Leads-complete i j l in Reaches.onward (FlowReaches-targets w) lt m

Kept-map :
    {A : Type 0} {P Q : ℕ → Type 0} {i : ℕ} {all kept : List A}
    → ((k : ℕ) → P k ↔ Q k)
    → Kept P i all kept
    → Kept Q i all kept
Kept-map f Kept.done = Kept.done
Kept-map f (Kept.stays {i = k} p r) = Kept.stays ((f k).0 p) (Kept-map f r)
Kept-map f (Kept.goes {i = k} n r) = Kept.goes (λ q. n ((f k).1 q)) (Kept-map f r)

-- Where the labels are unique, `remove_unreachable` ends, and it keeps, in their order, exactly the
-- blocks that control can come to from the first one: by a jump to its label, by either side of a
-- conditional jump, and to the next block from one that ends in none of these and in no return.
pub remove_unreachable-Kept :
    (bs : List BasicBlock)
    → UniqueLabels bs
    → (kept : List BasicBlock) × (remove_unreachable bs ≡ some kept)
      × Kept (FlowReaches bs) 0 bs kept
remove_unreachable-Kept bs u =
    let (kept, e, r) = Kept-targets bs u in
    (kept, e, Kept-map (λ k. (Reaches-flow bs, FlowReaches-targets bs u)) r)
