-- ===== src/Parser/Monad/Total/Loops.antt =====
-- Loops of Parser whose rounds consume tokens end.
use uinx.Prelude.{ℕ, zero, suc, ◌<◌, ◌≡◌, true, false, List, Option, arith, Bool-cases, inl, inr}
use uinx.Token.{TokenKind}
use uinx.Parser.Monad.{
  Parser, Parses, Round, again, finish, pure, ◌>>=◌, left, at, if_at, next_round, iterate_on,
  iterate,
}
use uinx.Parser.Monad.Total.Ending.{
  IsClosed, Lands, lands, Lands-map, Lands-bind, Behind, Turn, Fine, Moving, Turns, ends_in, at-pos,
  Past-Turn,
}

-- the rounds of loops
module _ {A B : Type 0} (n : ℕ) where
  pub Turns-finish : (b : B) → Turns {A = A} n (pure (finish b))
  Turns-finish b = record { run = λ s c lt. lands (record { closed = c; short = omega arith }) }

  pub Turns-if_both :
      (ks : List TokenKind) {m k : Parses (Round A B)}
      → Turns n m
      → Turns n k
      → Turns n (if_at ks m k)
  Turns-if_both ks {m} {k} h g = record {
    run = λ s c lt. elim (Bool-cases (at ks s)) [
      | inl yes' ↦ rw yes' (h.run s c lt)
      | inr no' ↦ rw no' (g.run s c lt)
    ];
  }

  pub Turns-if_at :
      (ks : List TokenKind) {m k : Parses (Round A B)}
      → ends_in ks ≡ false
      → Moving n m
      → Turns n k
      → Turns n (if_at ks m k)
  Turns-if_at ks {m} {k} e h g = record {
    run = λ s c lt. elim (Bool-cases (at ks s)) [
      | inl yes' ↦ rw yes' (Past-Turn (h.run s c lt (at-pos ks s false e yes' c)))
      | inr no' ↦ rw no' (g.run s c lt)
    ];
  }

  -- what stands behind a test for the end
  pub Turns-unless :
      (ks : List TokenKind) {m k : Parses (Round A B)}
      → ends_in ks ≡ true
      → Turns n m
      → Moving n k
      → Turns n (if_at ks m k)
  Turns-unless ks {m} {k} e h g = record {
    run = λ s c lt. elim (Bool-cases (at ks s)) [
      | inl yes' ↦ rw yes' (h.run s c lt)
      | inr no' ↦ rw no' (Past-Turn (g.run s c lt (at-pos ks s true e no' c)))
    ];
  }

  pub Turns-bind :
      {C : Type 0} {m : Parses C} {f : C → Parses (Round A B)}
      → Fine n m
      → ((a : C) → Turns n (f a))
      → Turns n (m >>= f)
  Turns-bind h g = record {
    run = λ s c lt.
        Lands-bind (h.run s c lt)
          λ a s' b. Lands-map ((g a).run s' b.closed (omega (arith, lt, b.short))) (turn_on s s' b);
  }
    where
      turn_on :
          (s s' : Parser) → Behind s s' → (r : Round A B) (t : Parser) → Turn s' r t → Turn s r t
      turn_on s s' b (again a) t p = record {
        closed = p.closed;
        shorter = omega (arith, b.short, p.shorter);
      }
      turn_on s s' b (finish a) t p = record {
        closed = p.closed;
        short = omega (arith, b.short, p.short);
      }

  next_round-lands :
      (k : A → Parses B) (fuel : ℕ) (s : Parser) {o : Option (Round A B × Parser)}
      → ((b : A) (t : Parser)
          → IsClosed t
          → left t < n
          → left t < fuel
          → Lands (λ c. Behind t) (k b t))
      → left s < n
      → left s < suc fuel
      → Lands (Turn s) o
      → Lands (λ c. Behind s) (next_round k o)
  next_round-lands k fuel s ih lt f (lands {a = finish b} p) = lands p
  next_round-lands k fuel s ih lt f (lands {a = again b} {s = s'} p) =
      Lands-map (ih b s' p.closed (omega (arith, lt, p.shorter)) (omega (arith, f, p.shorter)))
        λ a t q. record { closed = q.closed; short = omega (arith, p.shorter, q.short) }

  iterate_on-lands :
      (body : A → Parses (Round A B))
      → ((a : A) → Turns n (body a))
      → (fuel : ℕ) (a : A) (s : Parser) → IsClosed s
      → left s < n
      → left s < fuel
      → Lands (λ b. Behind s) (iterate_on fuel body a s)
  unfolding iterate_on
  iterate_on-lands body h zero a s c lt f = absurd (omega (arith, f))
  iterate_on-lands body h (suc fuel) a s c lt f =
      next_round-lands (iterate_on fuel body) fuel s (iterate_on-lands body h fuel) lt f
        ((h a).run s c lt)

  pub Fine-iterate :
      {body : A → Parses (Round A B)} (a : A)
      → ((b : A) → Turns n (body b))
      → Fine n (iterate body a)
  unfolding iterate
  Fine-iterate {body} a h = record {
    run = λ s c lt. iterate_on-lands body h (suc (left s)) a s c lt (omega arith);
  }
