-- ===== src/Optimizer/Reachable/Search.antt =====
-- The work list search: it ends, and it reaches what the targets lead to.
use uinx.Prelude.{
  find, get_last?, if◌then◌else◌, ℕ, zero, suc, ◌+◌, ◌*◌, ◌<◌, ◌≤◌, ◌≡◌, ◌++◌, ◌∷◌, ◌||◌, false,
  List, [], Bytes, refl, ap, arith, inl, inr, length, get_elem?, length-append, contains, str_eq,
  str_eq_refl, leb, Bool-cases, Option-cases, Option, none, some,
}
use uinx.Mir.{Op, BasicBlock}
use uinx.Optimizer.Reachable.{
  labels_of, label_at, targets_at, block_targets, tail_targets, fall_through, found_index,
  reach_loop, reach_fuel,
}

-- How many blocks have a label that is not in the set.
abbrev unseen : List BasicBlock → List Bytes → ℕ
unseen [] seen = 0
unseen (b ∷ bs) seen = (if contains b.label seen then 0 else 1) + unseen bs seen

unseen-le-length : (bs : List BasicBlock) (seen : List Bytes) → unseen bs seen ≤ length bs
unseen-le-length [] seen = omega arith
unseen-le-length (b ∷ bs) seen = ground (arith, unseen-le-length bs seen)

pub contains-cons :
    (k j : Bytes) (s : List Bytes) → contains k (j ∷ s) ≡ (str_eq j k || contains k s)
unfolding contains
contains-cons k j s = refl

-- A label that is put in the set takes its block out of the count.
unseen_mono :
    (bs : List BasicBlock) (l : Bytes) (seen : List Bytes) → unseen bs (l ∷ seen) ≤ unseen bs seen
unseen_mono [] l seen = omega arith
unseen_mono (b ∷ bs) l seen = ground (arith, unseen_mono bs l seen, contains-cons b.label l seen)

unseen-insert :
    (bs : List BasicBlock) (i : ℕ) (b : BasicBlock) (seen : List Bytes)
    → get_elem? bs i ≡ some b
    → contains b.label seen ≡ false
    → unseen bs (b.label ∷ seen) < unseen bs seen
unseen-insert [] i b seen e f = cc
unseen-insert (x ∷ bs) zero b seen e f =
    let x=b : x ≡ b = cc in
    rw x=b (
      ground (
        arith,
        unseen_mono bs b.label seen,
        contains-cons b.label b.label seen,
        str_eq_refl b.label,
      ))
unseen-insert (x ∷ bs) (suc i) b seen e f =
    ground (arith, unseen-insert bs i b seen e f, contains-cons x.label b.label seen)

found_index-short : (o : Option ℕ) → length (found_index o) ≤ 1
found_index-short none = omega arith
found_index-short (some i) = omega arith

fall_through-short : (size i : ℕ) → length (fall_through size i) ≤ 2
unfolding fall_through
fall_through-short size i = ground arith

tail_targets-short :
    (m : List (Bytes × ℕ)) (size i : ℕ) (op : Op) (args : List Bytes)
    → length (tail_targets m size i op args) ≤ 2
unfolding tail_targets
tail_targets-short m size i Op.jump [] = fall_through-short size i
tail_targets-short m size i Op.jump (a ∷ _) = omega (arith, found_index-short (find a m))
tail_targets-short m size i Op.cond_jump [] = fall_through-short size i
tail_targets-short m size i Op.cond_jump (a ∷ []) = fall_through-short size i
tail_targets-short m size i Op.cond_jump (a ∷ b ∷ []) = fall_through-short size i
tail_targets-short m size i Op.cond_jump (a ∷ b ∷ c ∷ _) = omega (
  arith,
  length-append (found_index (find c m)) (found_index (find b m)),
  found_index-short (find c m),
  found_index-short (find b m),
)
tail_targets-short m size i Op.ret args = omega arith
tail_targets-short m size i _ args = fall_through-short size i

targets-short :
    (bs : List BasicBlock) (i : ℕ) (o : Option BasicBlock) → length (targets_at bs i o) ≤ 2
unfolding targets_at block_targets
targets-short bs i none = omega arith
targets-short bs i (some b) = elim (Option-cases (get_last? b.instructions)) [
  | inl e ↦ rw e (fall_through-short (length bs) i)
  | inr (t, e) ↦ rw e (tail_targets-short (labels_of bs) (length bs) i t.op t.args)
]

pub block-exists :
    (bs : List BasicBlock) (i : ℕ) → i < length bs → (b : BasicBlock) × (get_elem? bs i ≡ some b)
block-exists [] i h = absurd (omega arith)
block-exists (b ∷ bs) zero h = (b, refl)
block-exists (b ∷ bs) (suc i) h = block-exists bs i (omega arith)

-- How the blocks lead to one another: the targets of a block that is there.
abbrev pub targets : List BasicBlock → ℕ → List ℕ
targets bs i = targets_at bs i (get_elem? bs i)

abbrev pub label : List BasicBlock → ℕ → Bytes
label bs i = label_at (get_elem? bs i)

-- A round that takes a new block counts for three, another for one.
reach_loop_total :
    (bs : List BasicBlock) (fuel : ℕ) (work : List ℕ) (seen : List Bytes)
    → 3 * unseen bs seen + length work < fuel
    → (r : List Bytes) × (reach_loop bs fuel work seen ≡ some r)
unfolding reach_loop
reach_loop_total bs zero work seen h = absurd (omega arith)
reach_loop_total bs (suc fuel) [] seen h = (seen, refl)
reach_loop_total bs (suc fuel) (i ∷ work) seen h =
    elim (Bool-cases (leb (length bs) i || contains (label bs i) seen)) [
      | inl old ↦
          let (r, e) = reach_loop_total bs fuel work seen (omega arith) in
          (r, rw (old, reach_loop) e)
      | inr new ↦
          let (b, at) = block-exists bs i (ground (arith, new)) in
          let l : label bs i ≡ b.label = ap label_at at in
          let fresh : contains b.label seen ≡ false = rw (← l) (ground (arith, new)) in
          let less : unseen bs (label bs i ∷ seen) < unseen bs seen =
            rw l (unseen-insert bs i b seen at fresh) in
          let (r, e) = reach_loop_total bs fuel (targets bs i ++ work) (label bs i ∷ seen) (
            omega (
              arith,
              less,
              targets-short bs i (get_elem? bs i),
              length-append (targets bs i) work,
            )) in
          (r, rw (new, reach_loop) e)
    ]

-- The search from the first block ends.
pub reach_total :
    (bs : List BasicBlock) → (r : List Bytes) × (reach_loop bs (reach_fuel bs) (0 ∷ []) [] ≡ some r)
reach_total bs =
    reach_loop_total bs (reach_fuel bs) (0 ∷ []) [] (omega (arith, unseen-le-length bs []))
