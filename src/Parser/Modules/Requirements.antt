-- ===== src/Parser/Modules/Requirements.antt =====
-- What `parse_module` of src/parser.cpp keeps true of the needed and the disabled components.
use uinx.Prelude.{
  ℕ, zero, suc, Bool, true, false, ◌||◌, List, [], ◌∷◌, ◌++◌, Bytes, codes, str_eq, contains,
  Option, some, ◌≡◌, refl, sym, subst, ap, ◌∙◌, arith, Bool-cases, inl, inr, str_eq_iff,
  str_eq_refl,
}
use uinx.Token.{Token}
use uinx.Parser.Monad.{
  Parser, Parses, Round, again, finish, pure, ◌>>=◌, ◌>>◌, skip_newlines, finish_line, iterate_on,
  next_round,
}
use uinx.Parser.Monad.Yields.{
  Yields, nothing, yields, Yields-some, Always, Always-Any, Always-known, Always-bind, Always-pure,
  Always-if_at, Always-if_state, Always-if, reads,
}
use uinx.Parser.Syntax.{Item, ParsedModule, SmpMode}
use uinx.Parser.Modules.{
  add_name, require, add_requirement, parse_requirement, parse_smp_mode, Words, skip_item,
  other_item, plain_item, global_item, item_behind, module_round, empty_module, parse_module,
  is_empty, add_item, at_marker,
}

-- no element twice
abbrev pub IsUnique : List Bytes → Type 0
unfolding contains
IsUnique [] = Unit
IsUnique (n ∷ ns) = (contains n ns ≡ false) × IsUnique ns

-- No component stands twice in a list, and the library is left out exactly where `std` is disabled.
pub record Consistent (m : ParsedModule) : Type 0 where
  pub needs_once : IsUnique m.needs
  pub dontneeds_once : IsUnique m.dontneeds
  pub std_left_out : m.no_std ≡ contains (codes "std") m.dontneeds

contains-append :
    (x n : Bytes) (ns : List Bytes) → contains x (ns ++ n ∷ []) ≡ (contains x ns || str_eq n x)
unfolding contains
contains-append x n [] = ground arith
contains-append x n (y ∷ ns) = ground (arith, contains-append x n ns)

str_eq_flip : (n y : Bytes) → str_eq y n ≡ false → str_eq n y ≡ false
str_eq_flip n y h = elim (Bool-cases (str_eq n y)) [
  | inl same ↦ absurd (
      true-false (sym (str_eq_refl y) ∙ (ap (λ z. str_eq y z) (sym ((str_eq_iff n y).0 same)) ∙ h)))
  | inr other ↦ other
]
  where
    true-false : ¬ (true ≡ false)
    true-false h = cc

by_member :
    (x n : Bytes) (ns : List Bytes)
    → contains n ns ≡ true
    → contains x ns ≡ (contains x ns || str_eq n x)
by_member x n ns h = elim (Bool-cases (str_eq n x)) [
  | inl same ↦ rw (ap (λ z. contains z ns) (sym ((str_eq_iff n x).0 same)) ∙ h) refl
  | inr other ↦ ground (arith, other)
]

IsUnique-append :
    (n : Bytes) (ns : List Bytes) → contains n ns ≡ false → IsUnique ns → IsUnique (ns ++ n ∷ [])
unfolding contains
IsUnique-append n [] h u = (refl, tt)
IsUnique-append n (y ∷ ns) h u = (
  contains-append y n ns ∙ (rw (u.0, str_eq_flip n y (ground (arith, h))) refl),
  IsUnique-append n ns (ground (arith, h)) u.1,
)

IsUnique-add_name : (n : Bytes) (ns : List Bytes) → IsUnique ns → IsUnique (add_name n ns)
IsUnique-add_name n ns u = elim (Bool-cases (contains n ns)) [
  | inl there ↦ rw there u
  | inr other ↦ rw other (IsUnique-append n ns other u)
]

contains-add_name :
    (x n : Bytes) (ns : List Bytes) → contains x (add_name n ns) ≡ (contains x ns || str_eq n x)
contains-add_name x n ns = elim (Bool-cases (contains n ns)) [
  | inl there ↦ rw there (by_member x n ns there)
  | inr other ↦ rw other (contains-append x n ns)
]

require-Consistent :
    (disabled : Bool) (n : Bytes) (m : ParsedModule)
    → Consistent m
    → Consistent (require disabled n m)
unfolding require
require-Consistent true n m c = record {
  needs_once = c.needs_once;
  dontneeds_once = IsUnique-add_name n m.dontneeds c.dontneeds_once;
  std_left_out = rw c.std_left_out (sym (contains-add_name (codes "std") n m.dontneeds));
}
require-Consistent false n m c = record {
  needs_once = IsUnique-add_name n m.needs c.needs_once;
  dontneeds_once = c.dontneeds_once;
  std_left_out = c.std_left_out;
}

-- the members that read something into a module
abbrev Keeps : Parses ParsedModule → Type 0
Keeps m = Always Consistent m

Keeps-finish_line : {p : Parses ParsedModule} → Keeps p → Keeps (p >>= λ m. finish_line >> pure m)
Keeps-finish_line h = Always-known h λ m c. Always-bind Always-Any λ u. Always-pure c

Keeps-add_requirement :
    (disabled : Bool) (t : Token) (n : Bytes) (m : ParsedModule)
    → Consistent m
    → Keeps (add_requirement disabled t n m)
unfolding add_requirement
Keeps-add_requirement disabled t n m c =
    Always-if (is_empty n) (Always-pure c)
      (Always-bind Always-Any λ u. Always-pure (require-Consistent disabled n m c))

Keeps-parse_requirement :
    (disabled : Bool) (m : ParsedModule) → Consistent m → Keeps (parse_requirement disabled m)
unfolding parse_requirement
Keeps-parse_requirement disabled m c =
    search (Keeps-finish_line, Keeps-add_requirement, reads, c) depth 20 fits 2000

Consistent-smp_mode :
    {m : ParsedModule} {mode : SmpMode} → Consistent m → Consistent (record m { smp_mode = mode })
Consistent-smp_mode c = record {
  needs_once = c.needs_once;
  dontneeds_once = c.dontneeds_once;
  std_left_out = c.std_left_out;
}

Keeps-parse_smp_mode : (m : ParsedModule) → Consistent m → Keeps (parse_smp_mode m)
unfolding parse_smp_mode
Keeps-parse_smp_mode m c =
    search (Keeps-finish_line, reads, c, Consistent-smp_mode) depth 30 fits 3000

Consistent-add_item : (m : ParsedModule) (i : Item) → Consistent m → Consistent (add_item m i)
Consistent-add_item m i c = record {
  needs_once = c.needs_once;
  dontneeds_once = c.dontneeds_once;
  std_left_out = c.std_left_out;
}

module _ (w : Words) (m : ParsedModule) (c : Consistent m) where
  Keeps-added : (i : Item) → Keeps (pure (add_item m i))
  Keeps-added i = Always-pure (Consistent-add_item m i c)

  Keeps-skip_item : (code message : Bytes) → Keeps (skip_item code message m)
  unfolding skip_item
  Keeps-skip_item code message = search (reads, c) depth 20 fits 2000

  Keeps-other_item : Keeps (other_item w m)
  unfolding other_item
  Keeps-other_item =
      Always-if_state at_marker
        (Always-if w.flags.is_unsafe (search (Keeps-added, reads) depth 20 fits 2000)
          (Keeps-skip_item _ _))
        (Keeps-skip_item _ _)

  Keeps-plain_item : Keeps (plain_item w m)
  unfolding plain_item
  Keeps-plain_item =
      search (Keeps-other_item, Keeps-skip_item, Keeps-added, reads) depth 30 fits 3000

  Keeps-global_item : (is_const is_static : Bool) → Keeps (global_item w is_const is_static m)
  unfolding global_item
  Keeps-global_item is_const is_static = search (Keeps-added, reads) depth 20 fits 2000

  Keeps-item_behind : Keeps (item_behind w m)
  unfolding item_behind
  Keeps-item_behind =
      search (Keeps-plain_item, Keeps-global_item, Keeps-added, reads) depth 30 fits 3000

-- what holds where a round goes on, or where it is the last
abbrev RoundOf : Round ParsedModule ParsedModule → Type 0
RoundOf (again m) = Consistent m
RoundOf (finish m) = Consistent m

Always-again : {p : Parses ParsedModule} → Keeps p → Always RoundOf (p >>= λ m. pure (again m))
Always-again h = Always-known h λ m c. Always-pure {b = again m} c

Always-next :
    {p : Parses ParsedModule}
    → Keeps p
    → Always RoundOf (p >>= λ m. skip_newlines >> pure (again m))
Always-next h = Always-known h λ m c. Always-bind Always-Any λ u. Always-pure {b = again m} c

Always-finish : {m : ParsedModule} → Consistent m → Always RoundOf (pure (finish m))
Always-finish {m} c = Always-pure {b = finish m} c

module_round-Consistent : (m : ParsedModule) → Consistent m → Always RoundOf (module_round m)
unfolding module_round
module_round-Consistent m c =
    search
      (
        Always-finish, Always-again, Always-next, Keeps-parse_requirement, Keeps-parse_smp_mode,
        Keeps-item_behind, Always-if_at, Always-bind, Always-Any, c,
      )
      depth 30 fits 4000

next_round-Consistent :
    {o : Option (Round ParsedModule ParsedModule × Parser)} {k : ParsedModule → Parses ParsedModule}
    → Yields RoundOf o
    → ((m : ParsedModule) → Consistent m → Keeps (k m))
    → Yields Consistent (next_round k o)
next_round-Consistent nothing h = nothing
next_round-Consistent (yields {a = again m} {s} c) h = (h m c).run s
next_round-Consistent (yields {a = finish m} c) h = yields c

iterate_on-Consistent :
    (fuel : ℕ) (m : ParsedModule) → Consistent m → Keeps (iterate_on fuel module_round m)
unfolding iterate_on
iterate_on-Consistent zero m c = record { run = λ s. nothing }
iterate_on-Consistent (suc fuel) m c = record {
  run =
      λ s. next_round-Consistent ((module_round-Consistent m c).run s) (iterate_on-Consistent fuel);
}

Keeps-parse_module : (fuel : ℕ) (file : Bytes) → Keeps (parse_module fuel file)
unfolding parse_module contains
Keeps-parse_module fuel file = Always-bind Always-Any λ u.
    iterate_on-Consistent fuel (empty_module file)
      (record { needs_once = tt; dontneeds_once = tt; std_left_out = refl })

-- In every module that `parse_module` returns no component stands twice among the needed ones or
-- among the disabled ones, and the library is left out exactly where `std` is disabled.
pub parse_module-Consistent :
    (fuel : ℕ) (file : Bytes) (s s' : Parser) (m : ParsedModule)
    → parse_module fuel file s ≡ some (m, s')
    → Consistent m
parse_module-Consistent fuel file s s' m e =
    Yields-some (subst (Yields Consistent) e ((Keeps-parse_module fuel file).run s))
