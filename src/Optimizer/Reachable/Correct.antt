-- ===== src/Optimizer/Reachable/Correct.antt =====
-- The search keeps exactly the blocks that its own targets lead to.
use uinx.Prelude.{
  keep_if, ◌+◌, ap, get_elem?, subst, ℕ, zero, suc, ◌<◌, ◌≡◌, ◌⊎◌, ◌↔◌, ◌++◌, ◌∷◌, ◌||◌, true, List,
  [], Bytes, refl, sym, arith, inl, inr, In, here, there, length, contains, str_eq, str_eq_iff, leb,
  Bool-cases, some, or_cases,
}
use uinx.Mir.{BasicBlock}
use uinx.Optimizer.Reachable.{keep_reached, label_at, reach_fuel, remove_unreachable, reach_loop}
use uinx.Optimizer.Reachable.Search.{reach_total, targets, label, contains-cons}

-- The blocks that the targets lead to, from the first one.
pub data Reaches (bs : List BasicBlock) : ℕ → Type 0 where
  entry : Reaches bs 0
  onward : {i j : ℕ} → Reaches bs i → i < length bs → In j (targets bs i) → Reaches bs j

-- No two blocks have one label.
abbrev pub UniqueLabels : List BasicBlock → Type 0
UniqueLabels bs = (i j : ℕ) → i < length bs → j < length bs → label bs i ≡ label bs j → i ≡ j

pub In-append : {j : ℕ} (xs ys : List ℕ) → In j xs ⊎ In j ys → In j (xs ++ ys)
In-append [] ys (inl m) = elim m [ ]
In-append (x ∷ xs) ys (inl (here e)) = here e
In-append (x ∷ xs) ys (inl (there m)) = there (In-append xs ys (inl m))
In-append [] ys (inr m) = m
In-append (x ∷ xs) ys (inr m) = there (In-append xs ys (inr m))

pub In-append_cases : {j : ℕ} (xs ys : List ℕ) → In j (xs ++ ys) → In j xs ⊎ In j ys
In-append_cases [] ys m = inr m
In-append_cases (x ∷ xs) ys (here e) = inl (here e)
In-append_cases (x ∷ xs) ys (there m) = elim (In-append_cases xs ys m) [
  | inl l ↦ inl (there l)
  | inr r ↦ inr r
]

contains-insert :
    (k j : Bytes) (s : List Bytes) → (contains k (j ∷ s) ≡ true) ↔ ((j ≡ k) ⊎ (contains k s ≡ true))
contains-insert k j s =
    ground (arith, contains-cons k j s, str_eq_iff j k, or_cases (str_eq j k) (contains k s))

module _ (bs : List BasicBlock) (unique : UniqueLabels bs) where
  -- What the loop keeps. A target of a block that was taken is taken, waits, or has no block.
  record Inv (work : List ℕ) (seen : List Bytes) : Type 0 where
    sound :
        (l : Bytes)
        → contains l seen ≡ true
        → (i : ℕ) × (i < length bs) × (label bs i ≡ l) × Reaches bs i
    queued : (i : ℕ) → In i work → Reaches bs i
    closed :
        (i j : ℕ)
        → i < length bs
        → contains (label bs i) seen ≡ true
        → In j (targets bs i)
        → j < length bs
        → (contains (label bs j) seen ≡ true) ⊎ In j work
    source : (contains (label bs 0) seen ≡ true) ⊎ In 0 work

  -- Below the end of the list the work list matters only where a label is new.
  skip :
      (i j : ℕ) (work : List ℕ) (seen : List Bytes)
      → (leb (length bs) i || contains (label bs i) seen) ≡ true
      → j < length bs
      → (contains (label bs j) seen ≡ true) ⊎ In j (i ∷ work)
      → (contains (label bs j) seen ≡ true) ⊎ In j work
  skip i j work seen old lt (inl c) = inl c
  skip i j work seen old lt (inr (there m)) = inr m
  skip i j work seen old lt (inr (here e)) =
      elim (or_cases (leb (length bs) i) (contains (label bs i) seen) old) [
        | inl past ↦ absurd (ground (arith, past, e))
        | inr c ↦ inl (rw e c)
      ]

  Inv-skip :
      (i : ℕ) (work : List ℕ) (seen : List Bytes)
      → 0 < length bs
      → (leb (length bs) i || contains (label bs i) seen) ≡ true
      → Inv (i ∷ work) seen
      → Inv work seen
  Inv-skip i work seen pos old h = record {
    sound = h.sound;
    queued = λ k m. h.queued k (there m);
    closed = λ k j lt c m lt'. skip i j work seen old lt' (h.closed k j lt c m lt');
    source = skip i 0 work seen old pos h.source;
  }

  -- A block whose label is new is taken: its targets wait.
  taken :
      (i j : ℕ) (work : List ℕ) (seen : List Bytes)
      → (contains (label bs j) seen ≡ true) ⊎ In j (i ∷ work)
      → (contains (label bs j) (label bs i ∷ seen) ≡ true) ⊎ In j (targets bs i ++ work)
  taken i j work seen (inl c) = inl ((contains-insert (label bs j) (label bs i) seen).1 (inr c))
  taken i j work seen (inr (here e)) =
      inl ((contains-insert (label bs j) (label bs i) seen).1 (inl (rw e refl)))
  taken i j work seen (inr (there m)) = inr (In-append (targets bs i) work (inr m))

  Inv-take :
      (i : ℕ) (work : List ℕ) (seen : List Bytes)
      → i < length bs
      → Inv (i ∷ work) seen
      → Inv (targets bs i ++ work) (label bs i ∷ seen)
  Inv-take i work seen lt h = record {
    sound = λ l c. elim ((contains-insert l (label bs i) seen).0 c) [
      | inl e ↦ (i, lt, e, h.queued i (here refl))
      | inr old ↦ h.sound l old
    ];
    queued = λ k m. elim (In-append_cases (targets bs i) work m) [
      | inl new ↦ onward (h.queued i (here refl)) lt new
      | inr old ↦ h.queued k (there old)
    ];
    closed = λ k j ltk c m ltj. elim ((contains-insert (label bs k) (label bs i) seen).0 c) [
      | inl e ↦
          let i=k : i ≡ k = unique i k lt ltk e in
          inr (
            In-append (targets bs i) work
              (inl (subst (λ (n : ℕ). In j (targets bs n)) (sym i=k) m)))
      | inr old ↦ taken i j work seen (h.closed k j ltk old m ltj)
    ];
    source = taken i 0 work seen h.source;
  }

  reach_loop-Inv :
      (fuel : ℕ) (work : List ℕ) (seen r : List Bytes)
      → 0 < length bs
      → reach_loop bs fuel work seen ≡ some r
      → Inv work seen
      → Inv [] r
  unfolding reach_loop
  reach_loop-Inv zero work seen r pos e h = cc
  reach_loop-Inv (suc fuel) [] seen r pos e h = let s : seen ≡ r = cc in rw (← s) h
  reach_loop-Inv (suc fuel) (i ∷ work) seen r pos e h =
      elim (Bool-cases (leb (length bs) i || contains (label bs i) seen)) [
        | inl old ↦
            reach_loop-Inv fuel work seen r pos (rw (old, reach_loop) at e)
              (Inv-skip i work seen pos old h)
        | inr new ↦
            reach_loop-Inv fuel (targets bs i ++ work) (label bs i ∷ seen) r pos
              (rw (new, reach_loop) at e) (Inv-take i work seen (ground (arith, new)) h)
      ]

  only_entry : (i : ℕ) → In i (0 ∷ []) → Reaches bs i
  only_entry i (here e) = rw e entry
  only_entry i (there m) = elim m [ ]

  Inv-start : Inv (0 ∷ []) []
  unfolding contains
  Inv-start = record {
    sound = λ l c. cc;
    queued = only_entry;
    closed = λ i j lt c m lt'. cc;
    source = inr (here refl);
  }

  -- With no work left the set holds the labels of the blocks that are reached.
  complete :
      (r : List Bytes) (i : ℕ)
      → Inv [] r
      → Reaches bs i
      → i < length bs
      → contains (label bs i) r ≡ true
  complete r i h entry lt = elim h.source [ inl c ↦ c | inr m ↦ elim m [ ] ]
  complete r i h (onward {i = k} w ltk m) lt = elim (h.closed k i ltk (complete r k h w ltk) m lt) [
    | inl c ↦ c
    | inr never ↦ elim never [ ]
  ]

  sound_at :
      (r : List Bytes) (i : ℕ)
      → Inv [] r
      → i < length bs
      → contains (label bs i) r ≡ true
      → Reaches bs i
  sound_at r i h lt c =
      let (k, ltk, e, w) = h.sound (label bs i) c in subst (Reaches bs) (unique k i ltk lt e) w

-- `kept` is `all` without exactly the elements at whose index, counted from `i`, `P` fails.
pub data Kept {A : Type 0} (P : ℕ → Type 0) : ℕ → List A → List A → Type 0 where
  done : {i : ℕ} → Kept P i [] []
  stays :
      {i : ℕ} {a : A} {all kept : List A}
      → P i
      → Kept P (suc i) all kept
      → Kept P i (a ∷ all) (a ∷ kept)
  goes :
      {i : ℕ} {a : A} {all kept : List A}
      → ¬ P i
      → Kept P (suc i) all kept
      → Kept P i (a ∷ all) kept

keep_if-Kept :
    (P : ℕ → Type 0) (r : List Bytes) (i : ℕ) (xs : List BasicBlock)
    → ((k : ℕ) (b : BasicBlock) → get_elem? xs k ≡ some b → (contains b.label r ≡ true) ↔ P (k + i))
    → Kept P i xs (keep_if (λ b. contains b.label r) xs)
keep_if-Kept P r i [] h = done
keep_if-Kept P r i (b ∷ xs) h =
    let first : (contains b.label r ≡ true) ↔ P i =
      subst (λ (n : ℕ). (contains b.label r ≡ true) ↔ P n) (omega arith) (h 0 b refl) in
    let later : Kept P (suc i) xs (keep_if (λ c. contains c.label r) xs) =
      keep_if-Kept P r (suc i) xs (λ k c e.
        subst (λ (n : ℕ). (contains c.label r ≡ true) ↔ P n) (omega arith) (h (suc k) c e)) in
    elim (Bool-cases (contains b.label r)) [
      | inl c ↦ rw c (stays (first.0 c) later)
      | inr n ↦ rw n (goes (λ p. cc (first.1 p)) later)
    ]

pub get_elem?-lt :
    {A : Type 0} (xs : List A) (k : ℕ) (a : A) → get_elem? xs k ≡ some a → k < length xs
get_elem?-lt [] k a e = cc
get_elem?-lt (x ∷ xs) zero a e = omega arith
get_elem?-lt (x ∷ xs) (suc k) a e = omega (arith, get_elem?-lt xs k a e)

reached_iff :
    (bs : List BasicBlock) (r : List Bytes) (u : UniqueLabels bs)
    → Inv bs u [] r
    → (k : ℕ) (b : BasicBlock) → get_elem? bs k ≡ some b
    → (contains b.label r ≡ true) ↔ Reaches bs k
reached_iff bs r u h k b e =
    let lt = get_elem?-lt bs k b e in
    let l : label bs k ≡ b.label = ap label_at e in
    (
      λ c. sound_at bs u r k h lt (subst (λ (x : Bytes). contains x r ≡ true) (sym l) c),
      λ w. subst (λ (x : Bytes). contains x r ≡ true) l (complete bs u r k h w lt),
    )

-- Where the labels are unique, `remove_unreachable` ends, and it keeps, in their order, exactly the
-- blocks that the targets lead to from the first one.
pub Kept-targets :
    (bs : List BasicBlock)
    → UniqueLabels bs
    → (kept : List BasicBlock) × (remove_unreachable bs ≡ some kept) × Kept (Reaches bs) 0 bs kept
unfolding remove_unreachable
Kept-targets [] u = ([], refl, done)
Kept-targets (b ∷ bs) u =
    let (r, e) = reach_total (b ∷ bs) in
    let h =
      reach_loop-Inv (b ∷ bs) u (reach_fuel (b ∷ bs)) (0 ∷ []) [] r (omega arith) e
        (Inv-start (b ∷ bs) u) in
    (
      keep_if (λ c. contains c.label r) (b ∷ bs),
      ap (keep_reached (b ∷ bs)) e,
      keep_if-Kept (Reaches (b ∷ bs)) r 0 (b ∷ bs) (λ k c at.
          subst (λ (n : ℕ). (contains c.label r ≡ true) ↔ Reaches (b ∷ bs) n) (omega arith)
            (reached_iff (b ∷ bs) r u h k c at)),
    )
