-- ===== src/Borrow/Liveness/Weights.antt =====
-- What is live before a statement, in sets that are built as the analysis builds them.
use uinx.Prelude.{
  Bool, true, false, not, ◌&&◌, ◌||◌, List, Bytes, contains, ◌≡◌, refl, ap, ◌∙◌, arith,
}
use uinx.Borrow.Sets.{insert_all, erase_if, contains-insert_all, contains-erase_if}
use uinx.Borrow.Liveness.Paths.{Exit, used, ended, broke, continued}
use uinx.Borrow.Liveness.Summary.{weigh, two_ways, is_use, in_turn}

pub weigh-in_turn :
    (f g : Exit → Bool) (a b c : Bool) → weigh f (weigh g a b c) b c ≡ weigh (in_turn f g) a b c
weigh-in_turn f g a b c =
    tautology (f used) (f ended) (f broke) (f continued) (g used) (g ended) (g broke) (g continued)
  where
    tautology :
        (fu fe fb fc gu ge gb gc : Bool)
        → (fu
            || ((fe && (gu || ((ge && a) || ((gb && b) || (gc && c)))))
                || ((fb && b) || (fc && c))))
          ≡ ((fu || (fe && gu))
              || ((fe && ge && a) || (((fb || (fe && gb)) && b) || ((fc || (fe && gc)) && c))))
    tautology fu fe fb fc gu ge gb gc = ground arith

pub only_end : (a : Bool) → a ≡ (a || false)
only_end true = refl
only_end false = refl

-- what is used, and what is left of what is behind
pub insert-weigh :
    (x : Bytes) (vs live : List Bytes) (u e a b c : Bool)
    → contains x vs ≡ u
    → contains x live ≡ (e && a)
    → contains x (insert_all vs live) ≡ weigh (two_ways u e) a b c
insert-weigh x vs live u e a b c h g = ground (arith, contains-insert_all x vs live, h, g)

-- the two sides of a branch
pub branch-weigh :
    (f g : Exit → Bool) (u a b c : Bool)
    → (u || (weigh g a b c || weigh f a b c)) ≡ weigh (λ t. (is_use t && u) || (f t || g t)) a b c
branch-weigh f g u a b c =
    tautology (f used) (f ended) (f broke) (f continued) (g used) (g ended) (g broke) (g continued)
  where
    tautology :
        (fu fe fb fc gu ge gb gc : Bool)
        → (u
            || ((gu || ((ge && a) || ((gb && b) || (gc && c))))
                || (fu || ((fe && a) || ((fb && b) || (fc && c))))))
          ≡ ((u || (fu || gu)) || (((fe || ge) && a) || (((fb || gb) && b) || ((fc || gc) && c))))
    tautology fu fe fb fc gu ge gb gc = ground arith

-- what a round of a loop adds to the header, and whether it keeps what is there
abbrev pub adds : (Exit → Bool) → Bool → Bool
adds f a = f Exit.used || (f Exit.broke && a)

abbrev pub keeps : (Exit → Bool) → Bool
keeps f = f Exit.ended || f Exit.continued

pub round-weigh : (f : Exit → Bool) (h a : Bool) → weigh f h a h ≡ (adds f a || (keeps f && h))
round-weigh f h a = tautology (f used) (f ended) (f broke) (f continued)
  where
    tautology :
        (fu fe fb fc : Bool)
        → (fu || ((fe && h) || ((fb && a) || (fc && h)))) ≡ ((fu || (fb && a)) || ((fe || fc) && h))
    tautology fu fe fb fc = ground arith

pub if-weigh :
    (x : Bytes) (vs r l : List Bytes) (f g : Exit → Bool) (a b c : Bool)
    → contains x r ≡ weigh g a b c
    → contains x l ≡ weigh f a b c
    → contains x (insert_all vs (insert_all r l))
      ≡ weigh (λ t. (is_use t && contains x vs) || (f t || g t)) a b c
if-weigh x vs r l f g a b c hr hl =
    contains-insert_all x vs (insert_all r l)
    ∙ (ap (λ w. contains x vs || w) (contains-insert_all x r l ∙ rw (hr, hl) refl)
        ∙ branch-weigh f g (contains x vs) a b c)

-- the loops, a round and all of them
pub while_round-weigh :
    (x : Bytes) (vs live after : List Bytes) (f : Exit → Bool) (h : Bool)
    → contains x live ≡ weigh f h (contains x after) h
    → contains x (insert_all vs (insert_all live after))
      ≡ ((contains x vs || (adds f (contains x after) || contains x after)) || (keeps f && h))
while_round-weigh x vs live after f h e = ground (
  arith,
  contains-insert_all x vs (insert_all live after),
  contains-insert_all x live after,
  e ∙ round-weigh f h (contains x after),
)

pub while-weigh :
    (f : Exit → Bool) (u a b c : Bool)
    → ((u || (adds f a || a)) || (keeps f && a)) ≡ weigh (two_ways (u || f Exit.used) true) a b c
while-weigh f u a b c = ground arith

pub for_round-weigh :
    (x : Bytes) (q : Bytes → Bool) (live after : List Bytes) (f : Exit → Bool) (h : Bool)
    → contains x live ≡ weigh f h (contains x after) h
    → contains x (insert_all (erase_if q live) after) ≡ (
        ((not (q x) && adds f (contains x after)) || contains x after)
        || ((not (q x) && keeps f) && h))
for_round-weigh x q live after f h e = ground (
  arith,
  contains-insert_all x (erase_if q live) after,
  contains-erase_if x q live,
  e ∙ round-weigh f h (contains x after),
)

pub for-weigh :
    (x : Bytes) (q : Bytes → Bool) (header vs ws : List Bytes) (f : Exit → Bool) (a b c : Bool)
    → contains x header ≡ (((not (q x) && adds f a) || a) || ((not (q x) && keeps f) && a))
    → contains x (insert_all vs (insert_all ws (erase_if q header)))
      ≡ weigh
          (two_ways (contains x vs || (contains x ws || (not (q x) && f Exit.used))) (not (q x)))
          a
          b
          c
for-weigh x q header vs ws f a b c e = ground (
  arith,
  contains-insert_all x vs (insert_all ws (erase_if q header)),
  contains-insert_all x ws (erase_if q header),
  contains-erase_if x q header,
  e,
)

pub loop-weigh :
    (f : Exit → Bool) (a b c : Bool)
    → (adds f a || (keeps f && a))
      ≡ weigh (two_ways (f Exit.used) (f Exit.broke || (f Exit.ended || f Exit.continued))) a b c
loop-weigh f a b c = ground arith
