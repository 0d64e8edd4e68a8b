-- ===== src/Parser/Monad/Total/Rules.antt =====
-- Members of Parser that end, built by tests and in sequence.
use uinx.Prelude.{
  ℕ, suc, ◌≤◌, ◌<◌, ◌≡◌, refl, Bool, true, false, List, Option, some, arith, Bool-cases, inl, inr,
  if◌then◌else◌,
}
use uinx.Token.{TokenKind}
use uinx.Parser.Monad.{Parser, Parses, pure, ◌>>=◌, left, at, if_at}
use uinx.Parser.Monad.Total.Ending.{
  IsClosed, Lands, lands, Lands-map, Lands-bind, Behind, Past, Fine, Moving, Eats, ends_in, zero_or,
  at-pos, Past-Behind,
}

module _ {A : Type 0} (n : ℕ) where
  pub Fine-pure : (a : A) → Fine n (pure a)
  Fine-pure a = record { run = λ s c lt. lands (record { closed = c; short = omega arith }) }

  pub Fine-weaken : {m : Parses A} → Fine (suc n) m → Fine n m
  Fine-weaken h = record { run = λ s c lt. h.run s c (omega (arith, lt)) }

  pub Fine-if_both :
      (ks : List TokenKind) {m k : Parses A} → Fine n m → Fine n k → Fine n (if_at ks m k)
  Fine-if_both ks {m} {k} h g = record {
    run = λ s c lt. elim (Bool-cases (at ks s)) [
      | inl yes' ↦ rw yes' (h.run s c lt)
      | inr no' ↦ rw no' (g.run s c lt)
    ];
  }

  pub Fine-if : (b : Bool) {m k : Parses A} → Fine n m → Fine n k → Fine n (if b then m else k)
  Fine-if true h g = h
  Fine-if false h g = g

  pub Fine-if_at :
      (ks : List TokenKind) {m k : Parses A}
      → ends_in ks ≡ false
      → Moving n m
      → Fine n k
      → Fine n (if_at ks m k)
  Fine-if_at ks {m} {k} e h g = record {
    run = λ s c lt. elim (Bool-cases (at ks s)) [
      | inl yes' ↦ rw yes' (Past-Behind (h.run s c lt (at-pos ks s false e yes' c)))
      | inr no' ↦ rw no' (g.run s c lt)
    ];
  }

  pub Moving-if_at :
      (ks : List TokenKind) {m k : Parses A} → Moving n m → Moving n k → Moving n (if_at ks m k)
  Moving-if_at ks {m} {k} h g = record {
    run = λ s c lt pos. elim (Bool-cases (at ks s)) [
      | inl yes' ↦ rw yes' (h.run s c lt pos)
      | inr no' ↦ rw no' (g.run s c lt pos)
    ];
  }

  pub Eats-if_at :
      (ks : List TokenKind) {m k : Parses A}
      → ends_in ks ≡ false
      → Moving n m
      → Eats n k
      → Eats n (if_at ks m k)
  Eats-if_at ks e h g = record {
    fine = Fine-if_at ks e h g.fine;
    moving = Moving-if_at ks h g.moving;
  }

  pub Fine-zero : {m : Parses A} → Fine 0 m
  Fine-zero = record { run = λ s c lt. absurd (omega (arith, lt)) }

pub Moving-le : {A : Type 0} {m : Parses A} (k n : ℕ) → k ≤ n → Moving n m → Moving k m
Moving-le k n le h = record { run = λ s c lt pos. h.run s c (omega (arith, le, lt)) pos }

pub Eats-zero : {A : Type 0} {m : Parses A} → Eats 0 m
Eats-zero = record {
  fine = record { run = λ s c lt. absurd (omega (arith, lt)) };
  moving = record { run = λ s c lt. absurd (omega (arith, lt)) };
}

-- What is left behind a run: fewer tokens, unless it stood at the last one.
pub record Onward (s s' : Parser) : Type 0 where
  pub closed : IsClosed s'
  pub short : left s' ≤ left s
  pub moved : 0 < left s → left s' < left s

pub Lands-value :
    {A : Type 0} {P : A → Parser → Type 0} {o : Option (A × Parser)}
    → Lands P o
    → (a : A) × (s : Parser) × (o ≡ some (a, s)) × P a s
Lands-value (lands {a} {s} p) = (a, s, refl, p)

pub Eats-Onward :
    {A : Type 0} (m : Parses A) (s : Parser)
    → Eats (suc (left s)) m
    → IsClosed s
    → (a : A) × (s' : Parser) × (m s ≡ some (a, s')) × Onward s s'
Eats-Onward m s h c = elim (zero_or (left s)) [
  | inl last ↦
      let (a, s', e, b) = Lands-value (h.fine.run s c (omega arith)) in
      (
        a,
        s',
        e,
        record {
          closed = b.closed;
          short = b.short;
          moved = λ pos. absurd (omega (arith, last, pos));
        },
      )
  | inr pos ↦
      let (a, s', e, b) = Lands-value (h.moving.run s c (omega arith) pos) in
      (
        a,
        s',
        e,
        record { closed = b.closed; short = omega (arith, b.shorter); moved = λ p. b.shorter },
      )
]

-- what moves behind what may not: at the last token there was something to consume
Past-after :
    {B : Type 0} (n : ℕ) (s s' : Parser) {f : Parses B}
    → Eats n f
    → left s < n
    → 0 < left s
    → Behind s s'
    → Lands (λ b. Past s) (f s')
Past-after n s s' h lt pos b = elim (zero_or (left s')) [
  | inl last ↦
      Lands-map (h.fine.run s' b.closed (omega (arith, lt, b.short)))
        λ c t p. record { closed = p.closed; shorter = omega (arith, last, pos, p.short) }
  | inr more ↦
      Lands-map (h.moving.run s' b.closed (omega (arith, lt, b.short)) more)
        λ c t p. record { closed = p.closed; shorter = omega (arith, b.short, p.shorter) }
]

module _ {A B : Type 0} (n : ℕ) where
  pub Fine-bind :
      {m : Parses A} {f : A → Parses B} → Fine n m → ((a : A) → Fine n (f a)) → Fine n (m >>= f)
  Fine-bind h g = record {
    run = λ s c lt. Lands-bind (h.run s c lt) λ a s' b.
        Lands-map ((g a).run s' b.closed (omega (arith, lt, b.short)))
          λ a' s'' b'. record { closed = b'.closed; short = omega (arith, b.short, b'.short) };
  }

  pub Moving-bind :
      {m : Parses A} {f : A → Parses B}
      → Moving (suc n) m
      → ((a : A) → Fine n (f a))
      → Moving (suc n) (m >>= f)
  Moving-bind h g = record {
    run = λ s c lt pos. Lands-bind (h.run s c lt pos) λ a s' b.
        Lands-map ((g a).run s' b.closed (omega (arith, lt, b.shorter)))
          λ a' s'' b'. record { closed = b'.closed; shorter = omega (arith, b.shorter, b'.short) };
  }

  -- what moves, and then does not need fewer tokens
  pub Moving-then :
      {m : Parses A} {f : A → Parses B} → Moving n m → ((a : A) → Fine n (f a)) → Moving n (m >>= f)
  Moving-then h g = record {
    run = λ s c lt pos. Lands-bind (h.run s c lt pos) λ a s' b.
        Lands-map ((g a).run s' b.closed (omega (arith, lt, b.shorter)))
          λ a' s'' b'. record { closed = b'.closed; shorter = omega (arith, b.shorter, b'.short) };
  }

  pub Eats-bind :
      {m : Parses A} {f : A → Parses B} → Eats n m → ((a : A) → Fine n (f a)) → Eats n (m >>= f)
  Eats-bind h g = record { fine = Fine-bind h.fine g; moving = Moving-then h.moving g }

  pub Eats-after :
      {m : Parses A} {f : A → Parses B} → Fine n m → ((a : A) → Eats n (f a)) → Eats n (m >>= f)
  Eats-after h g = record {
    fine = Fine-bind h λ a. (g a).fine;
    moving = record {
      run = λ s c lt pos. Lands-bind (h.run s c lt) λ a s' b. Past-after n s s' (g a) lt pos b;
    };
  }
