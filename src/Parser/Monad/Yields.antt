-- ===== src/Parser/Monad/Yields.antt =====
-- What holds of every value that a member of Parser returns.
use uinx.Prelude.{Bool, true, false, List, Option, none, some, Bool-cases, inl, inr, if◌then◌else◌}
use uinx.Token.{TokenKind}
use uinx.Parser.Monad.{Parser, Parses, pure, then_run, ◌>>=◌, at, if_at}

-- A value that is returned satisfies `P`.
pub data Yields {A : Type 0} (P : A → Type 0) : Option (A × Parser) → Type 0 where
  nothing : Yields P none
  yields : {a : A} {s : Parser} → P a → Yields P (some (a, s))

pub record Always {A : Type 0} (P : A → Type 0) (m : Parses A) : Type 0 where
  pub run : (s : Parser) → Yields P (m s)

-- what is known of any value
abbrev pub Any : {A : Type 0} → A → Type 0
Any a = Unit

Yields-Any : {A : Type 0} (o : Option (A × Parser)) → Yields Any o
Yields-Any none = nothing
Yields-Any (some (a, s)) = yields tt

pub Always-Any : {A : Type 0} {m : Parses A} → Always Any m
Always-Any {m = m} = record { run = λ s. Yields-Any (m s) }

Yields-then_run :
    {A B : Type 0} {Q : A → Type 0} {P : B → Type 0} {o : Option (A × Parser)} {f : A → Parses B}
    → Yields Q o
    → ((a : A) → Q a → Always P (f a))
    → Yields P (then_run o f)
Yields-then_run nothing h = nothing
Yields-then_run (yields {a} {s} q) h = (h a q).run s

module _ {B : Type 0} {P : B → Type 0} where
  pub Always-known :
      {A : Type 0} {Q : A → Type 0} {m : Parses A} {f : A → Parses B}
      → Always Q m
      → ((a : A) → Q a → Always P (f a))
      → Always P (m >>= f)
  Always-known g h = record { run = λ s. Yields-then_run (g.run s) h }

  pub Always-bind :
      {A : Type 0} {m : Parses A} {f : A → Parses B}
      → Always Any m
      → ((a : A) → Always P (f a))
      → Always P (m >>= f)
  Always-bind g h = Always-known g λ a u. h a

  pub Always-pure : {b : B} → P b → Always P (pure b)
  Always-pure h = record { run = λ s. yields h }

  pub Always-if_at :
      (ks : List TokenKind) {m k : Parses B} → Always P m → Always P k → Always P (if_at ks m k)
  Always-if_at ks {m} {k} g h = record {
    run = λ s. elim (Bool-cases (at ks s)) [
      | inl there ↦ rw there (g.run s)
      | inr other ↦ rw other (h.run s)
    ];
  }

  pub Always-if_state :
      (test : Parser → Bool) {m k : Parses B}
      → Always P m
      → Always P k
      → Always P (λ s. if test s then m s else k s)
  Always-if_state test {m} {k} g h = record {
    run = λ s. elim (Bool-cases (test s)) [
      | inl there ↦ rw there (g.run s)
      | inr other ↦ rw other (h.run s)
    ];
  }

  pub Always-if :
      (b : Bool) {m k : Parses B} → Always P m → Always P k → Always P (if b then m else k)
  Always-if true g h = g
  Always-if false g h = h

pub Yields-some : {A : Type 0} {P : A → Type 0} {a : A} {s : Parser} → Yields P (some (a, s)) → P a
Yields-some (yields p) = p

-- what is read without a care for its value
pub ruleset reads = (Always-bind, Always-if_at, Always-if, Always-pure, Always-Any)
