-- ===== src/Parser/Monad/Total/Ending.antt =====
-- What it is for a member of Parser to end, on tokens of which the last is `End`.
use uinx.Prelude.{
  ℕ, zero, suc, ◌≤◌, ◌<◌, ◌≡◌, ◌⊎◌, refl, sym, ◌∙◌, Bool, true, false, not, List, [], ◌∷◌, Option,
  some, any_of, length, arith, inl, inr,
}
use uinx.Token.{TokenKind, Token}
use uinx.Token.Kinds.{token_is}
use uinx.Parser.Monad.{Parser, Parses, Round, again, finish, then_run, left, at}

-- The last token is `End`.
abbrev pub ClosedBy : Token → List Token → Type 0
ClosedBy t [] = t.kind ≡ TokenKind.end
ClosedBy t (u ∷ us) = ClosedBy u us

abbrev pub IsClosed : Parser → Type 0
IsClosed s = ClosedBy s.now s.behind

-- The run ends, with a value and a state for which `P` holds.
pub data Lands {A : Type 0} (P : A → Parser → Type 0) : Option (A × Parser) → Type 0 where
  lands : {a : A} {s : Parser} → P a s → Lands P (some (a, s))

pub Lands-map :
    {A : Type 0} {P Q : A → Parser → Type 0} {o : Option (A × Parser)}
    → Lands P o
    → ((a : A) (s : Parser) → P a s → Q a s)
    → Lands Q o
Lands-map (lands {a} {s} p) f = lands (f a s p)

pub Lands-bind :
    {A B : Type 0} {P : A → Parser → Type 0} {Q : B → Parser → Type 0} {o : Option (A × Parser)}
    {f : A → Parses B}
    → Lands P o
    → ((a : A) (s : Parser) → P a s → Lands Q (f a s))
    → Lands Q (then_run o f)
Lands-bind (lands {a} {s} p) k = k a s p

-- No token behind the position is taken back; or one at least is consumed.
pub record Behind (s s' : Parser) : Type 0 where
  pub closed : IsClosed s'
  pub short : left s' ≤ left s

pub record Past (s s' : Parser) : Type 0 where
  pub closed : IsClosed s'
  pub shorter : left s' < left s

abbrev pub Turn : {A B : Type 0} → Parser → Round A B → Parser → Type 0
Turn s (again a) s' = Past s s'
Turn s (finish b) s' = Behind s s'

-- With fewer than `n` tokens left the run ends.
pub record Fine {A : Type 0} (n : ℕ) (m : Parses A) : Type 0 where
  pub run : (s : Parser) → IsClosed s → left s < n → Lands (λ a. Behind s) (m s)

-- With fewer than `n` tokens left, but not at the last one, it ends and consumes a token.
pub record Moving {A : Type 0} (n : ℕ) (m : Parses A) : Type 0 where
  pub run : (s : Parser) → IsClosed s → left s < n → 0 < left s → Lands (λ a. Past s) (m s)

-- It ends, and consumes a token where the loop goes on.
pub record Turns {A B : Type 0} (n : ℕ) (m : Parses (Round A B)) : Type 0 where
  pub run : (s : Parser) → IsClosed s → left s < n → Lands (Turn s) (m s)

pub record Eats {A : Type 0} (n : ℕ) (m : Parses A) : Type 0 where
  pub fine : Fine n m
  pub moving : Moving n m

-- the kinds do not hold `End`, or they do
abbrev pub ends_in : List TokenKind → Bool
ends_in ks = any_of (token_is TokenKind.end) ks

at_end : (ks : List TokenKind) (s : Parser) → IsClosed s → left s ≡ 0 → at ks s ≡ ends_in ks
unfolding at
at_end ks s c e = closed_end s.now s.behind c e
  where
    closed_end :
        (t : Token) (ts : List Token)
        → ClosedBy t ts
        → length ts ≡ 0
        → any_of (token_is t.kind) ks ≡ ends_in ks
    closed_end t [] c e = rw c refl
    closed_end t (u ∷ us) c e = absurd (omega (arith, e))

pub zero_or : (n : ℕ) → (n ≡ 0) ⊎ (0 < n)
zero_or zero = inl refl
zero_or (suc n) = inr (omega arith)

-- At a kind that is not `End`, or at none of kinds that hold it, there are tokens left.
pub at-pos :
    (ks : List TokenKind) (s : Parser) (b : Bool)
    → ends_in ks ≡ b
    → at ks s ≡ not b
    → IsClosed s
    → 0 < left s
at-pos ks s b e a c = elim (zero_or (left s)) [
  | inl z ↦ absurd (not-differs b (sym e ∙ (sym (at_end ks s c z) ∙ a)))
  | inr pos ↦ pos
]
  where
    not-differs : (b : Bool) → ¬ (b ≡ not b)
    not-differs true h = cc
    not-differs false h = cc

pub Past-Behind :
    {A : Type 0} {s : Parser} {o : Option (A × Parser)}
    → Lands (λ a. Past s) o
    → Lands (λ a. Behind s) o
Past-Behind h = Lands-map h λ a s p. record { closed = p.closed; short = omega (arith, p.shorter) }

pub Past-Turn :
    {A B : Type 0} {s : Parser} {o : Option (Round A B × Parser)}
    → Lands (λ a. Past s) o
    → Lands (Turn s) o
Past-Turn (lands {a = again a} p) = lands p
Past-Turn (lands {a = finish b} p) =
    lands (record { closed = p.closed; short = omega (arith, p.shorter) })
