-- ===== src/Optimizer/Dead/Correct.antt =====
-- Dead values: what is removed, what is kept, and that the loop ends.
use uinx.Prelude.{
  refl, zero, suc, ◌+◌, inr, or_cases, some, length-keep_if, ◌<◌, ℕ, inl, false, Bool-cases, any_of,
  length, true, ◌∙◌, ◌≤◌, ◌≡◌, ◌∷◌, Bool, not, List, [], Bytes, arith, keep_if, map,
}
use uinx.Mir.{Instruction, BasicBlock}
use uinx.Optimizer.Dead.{
  suc, is_empty, eliminate_dead_values, dead_loop, has_dead, prune, instruction_count, is_pure,
  uses_in, uses, is_dead, prune_block,
}

uses_in-keep_if :
    (n : Bytes) (p : Instruction → Bool) (is : List Instruction)
    → uses_in n (keep_if p is) ≤ uses_in n is
unfolding uses_in
uses_in-keep_if n p [] = omega arith
uses_in-keep_if n p (i ∷ is) = ground (arith, uses_in-keep_if n p is)

uses-map : (n : Bytes) (all bs : List BasicBlock) → uses n (map (prune_block all) bs) ≤ uses n bs
unfolding uses prune_block
uses-map n all [] = omega arith
uses-map n all (b ∷ bs) =
    omega (arith, uses-map n all bs, uses_in-keep_if n (λ i. not (is_dead all i)) b.instructions)

-- The second list is the first without some elements, each of which satisfies `Q`.
pub data Without (Q : Instruction → Type 0) : List Instruction → List Instruction → Type 0 where
  done : Without Q [] []
  stays :
      {i : Instruction} {is js : List Instruction} → Without Q is js → Without Q (i ∷ is) (i ∷ js)
  goes :
      {i : Instruction} {is js : List Instruction} → Q i → Without Q is js → Without Q (i ∷ is) js

Without-trans :
    (Q : Instruction → Type 0) {is js ks : List Instruction}
    → Without Q is js
    → Without Q js ks
    → Without Q is ks
Without-trans Q done w = w
Without-trans Q (stays v) (stays w) = stays (Without-trans Q v w)
Without-trans Q (stays v) (goes q w) = goes q (Without-trans Q v w)
Without-trans Q (goes q v) w = goes q (Without-trans Q v w)

Without-map :
    (P Q : Instruction → Type 0) {is js : List Instruction}
    → ((i : Instruction) → P i → Q i)
    → Without P is js
    → Without Q is js
Without-map P Q f done = done
Without-map P Q f (stays w) = stays (Without-map P Q f w)
Without-map P Q f (goes {i} p w) = goes (f i p) (Without-map P Q f w)

-- The same blocks, each without some instructions that satisfy `Q`.
pub data BlocksWithout (Q : Instruction → Type 0) : List BasicBlock → List BasicBlock → Type 0 where
  done : BlocksWithout Q [] []
  block :
      {b c : BasicBlock} {bs cs : List BasicBlock}
      → c.label ≡ b.label
      → c.terminated ≡ b.terminated
      → Without Q b.instructions c.instructions
      → BlocksWithout Q bs cs
      → BlocksWithout Q (b ∷ bs) (c ∷ cs)

BlocksWithout_trans :
    (Q : Instruction → Type 0) {bs cs ds : List BasicBlock}
    → BlocksWithout Q bs cs
    → BlocksWithout Q cs ds
    → BlocksWithout Q bs ds
BlocksWithout_trans Q done w = w
BlocksWithout_trans Q (block l t v vs) (block l' t' w ws) =
    block (l' ∙ l) (t' ∙ t) (Without-trans Q v w) (BlocksWithout_trans Q vs ws)

BlocksWithout_map :
    (P Q : Instruction → Type 0) {bs cs : List BasicBlock}
    → ((i : Instruction) → P i → Q i)
    → BlocksWithout P bs cs
    → BlocksWithout Q bs cs
BlocksWithout_map P Q f done = done
BlocksWithout_map P Q f (block l t w ws) =
    block l t (Without-map P Q f w) (BlocksWithout_map P Q f ws)

-- What may be dropped from blocks: a pure instruction with a result that nothing in them uses.
pub record IsRemovable (bs : List BasicBlock) (i : Instruction) : Type 0 where
  pub pure_is : is_pure i ≡ true
  pub named : is_empty i.result ≡ false
  pub unused : uses i.result bs ≡ 0

is_dead-IsRemovable :
    (bs : List BasicBlock) (i : Instruction) → is_dead bs i ≡ true → IsRemovable bs i
unfolding is_dead
is_dead-IsRemovable bs i h = ground arith

keep_if-Without :
    (bs : List BasicBlock) (is : List Instruction)
    → Without (IsRemovable bs) is (keep_if (λ i. not (is_dead bs i)) is)
keep_if-Without bs [] = done
keep_if-Without bs (i ∷ is) = elim (Bool-cases (is_dead bs i)) [
  | inl dead ↦ rw dead (goes (is_dead-IsRemovable bs i dead) (keep_if-Without bs is))
  | inr alive ↦ rw alive (stays (keep_if-Without bs is))
]

map-BlocksWithout :
    (all bs : List BasicBlock) → BlocksWithout (IsRemovable all) bs (map (prune_block all) bs)
unfolding prune_block
map-BlocksWithout all [] = done
map-BlocksWithout all (b ∷ bs) =
    block refl refl (keep_if-Without all b.instructions) (map-BlocksWithout all bs)

prune-BlocksWithout : (bs : List BasicBlock) → BlocksWithout (IsRemovable bs) bs (prune bs)
unfolding prune
prune-BlocksWithout bs = map-BlocksWithout bs bs

uses-prune : (n : Bytes) (bs : List BasicBlock) → uses n (prune bs) ≤ uses n bs
unfolding prune
uses-prune n bs = uses-map n bs bs

keep_if_same :
    (all : List BasicBlock) (is : List Instruction)
    → any_of (is_dead all) is ≡ false
    → keep_if (λ i. not (is_dead all i)) is ≡ is
keep_if_same all [] h = refl
keep_if_same all (i ∷ is) h = ground (arith, keep_if_same all is)

prune_same_in :
    (all bs : List BasicBlock)
    → any_of (λ (b : BasicBlock). any_of (is_dead all) b.instructions) bs ≡ false
    → map (prune_block all) bs ≡ bs
unfolding prune_block
prune_same_in all [] h = refl
prune_same_in all (b ∷ bs) h = ground (arith, keep_if_same all b.instructions, prune_same_in all bs)

prune_same : (bs : List BasicBlock) → has_dead bs ≡ false → prune bs ≡ bs
unfolding prune has_dead
prune_same bs h = prune_same_in bs bs h

keep_if-le :
    (all : List BasicBlock) (is : List Instruction)
    → length (keep_if (λ i. not (is_dead all i)) is) ≤ length is
keep_if-le all is = length-keep_if (λ i. not (is_dead all i)) is

keep_if-lt :
    (all : List BasicBlock) (is : List Instruction)
    → any_of (is_dead all) is ≡ true
    → length (keep_if (λ i. not (is_dead all i)) is) < length is
keep_if-lt all [] h = cc
keep_if-lt all (i ∷ is) h = ground (arith, keep_if-lt all is, keep_if-le all is)

count-map-le :
    (all bs : List BasicBlock) → instruction_count (map (prune_block all) bs) ≤ instruction_count bs
unfolding instruction_count prune_block
count-map-le all [] = omega arith
count-map-le all (b ∷ bs) = omega (arith, count-map-le all bs, keep_if-le all b.instructions)

count-map-lt :
    (all bs : List BasicBlock)
    → any_of (λ (b : BasicBlock). any_of (is_dead all) b.instructions) bs ≡ true
    → instruction_count (map (prune_block all) bs) < instruction_count bs
unfolding instruction_count prune_block
count-map-lt all [] h = cc
count-map-lt all (b ∷ bs) h = elim (or_cases (any_of (is_dead all) b.instructions) _ h) [
  | inl first ↦ omega (arith, keep_if-lt all b.instructions first, count-map-le all bs)
  | inr later ↦ omega (arith, keep_if-le all b.instructions, count-map-lt all bs later)
]

count-prune :
    (bs : List BasicBlock)
    → has_dead bs ≡ true
    → instruction_count (prune bs) < instruction_count bs
unfolding prune has_dead
count-prune bs h = count-map-lt bs bs h

-- The blocks that the pass returns: no instruction of theirs is dead, and they are the given blocks
-- without some instructions that are pure and whose results nothing in them uses.
pub record IsPruned (bs cs : List BasicBlock) : Type 0 where
  pub clean : has_dead cs ≡ false
  pub removed : BlocksWithout (IsRemovable cs) bs cs
  pub fewer : (n : Bytes) → uses n cs ≤ uses n bs

IsPruned-step : (bs cs : List BasicBlock) → IsPruned (prune bs) cs → IsPruned bs cs
IsPruned-step bs cs h = record {
  clean = h.clean;
  removed =
      BlocksWithout_trans (IsRemovable cs)
        (BlocksWithout_map (IsRemovable bs) (IsRemovable cs)
          (λ i r. record {
            pure_is = r.pure_is;
            named = r.named;
            unused = omega (arith, r.unused, h.fewer i.result, uses-prune i.result bs);
          })
          (prune-BlocksWithout bs))
        h.removed;
  fewer = λ n. omega (arith, h.fewer n, uses-prune n bs);
}

BlocksWithout_refl : (Q : Instruction → Type 0) (bs : List BasicBlock) → BlocksWithout Q bs bs
BlocksWithout_refl Q [] = done
BlocksWithout_refl Q (b ∷ bs) = block refl refl (all_stay b.instructions) (BlocksWithout_refl Q bs)
  where
    all_stay : (is : List Instruction) → Without Q is is
    all_stay [] = done
    all_stay (i ∷ is) = stays (all_stay is)

dead_loop-IsPruned :
    (fuel : ℕ) (bs : List BasicBlock)
    → instruction_count bs < fuel
    → (cs : List BasicBlock) × (dead_loop fuel bs ≡ some cs) × IsPruned bs cs
unfolding dead_loop
dead_loop-IsPruned zero bs h = absurd (omega arith)
dead_loop-IsPruned (suc fuel) bs h = elim (Bool-cases (has_dead bs)) [
  | inl more ↦
      let (cs, e, p) = dead_loop-IsPruned fuel (prune bs) (omega (arith, count-prune bs more)) in
      (cs, rw (more, dead_loop) e, IsPruned-step bs cs p)
  | inr over ↦ (
    bs,
    rw (over, dead_loop, prune_same bs over),
    record { clean = over; removed = BlocksWithout_refl _ bs; fewer = λ n. omega arith },
  )
]

-- `eliminate_dead_values` ends. In the blocks that it returns no instruction is dead any more; they
-- are the given blocks, each without some instructions, every one of which is pure and has a result
-- that nothing in the returned blocks uses; the others stay in their order.
pub eliminate_dead_values-IsPruned :
    (bs : List BasicBlock)
    → (cs : List BasicBlock) × (eliminate_dead_values bs ≡ some cs) × IsPruned bs cs
unfolding eliminate_dead_values
eliminate_dead_values-IsPruned bs = dead_loop-IsPruned (instruction_count bs + 1) bs (omega arith)
