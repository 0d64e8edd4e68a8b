-- ===== src/Borrow/Places.antt =====
-- Places, such as `a#1.b.[*]`: src/borrow_internal.hpp, and the tests for overlap of
-- src/borrow_places.cpp.
pub mod Overlap
use uinx.Prelude.{
  ℕ, Bool, true, false, not, ◌&&◌, ◌||◌, List, [], ◌∷◌, Bytes, codes, str_eq, starts_with, ◌==◌,
  if◌then◌else◌,
}

-- what stands before the first dot
unfoldable pub root_of : Bytes → Bytes
root_of [] = []
root_of (c ∷ cs) = let rest = root_of cs in if c == b'.' then [] else c ∷ rest

-- `child` goes on behind `parent` with a dot
unfoldable pub is_strict_child : Bytes → Bytes → Bool
is_strict_child [] [] = false
is_strict_child [] (c ∷ cs) = c == b'.'
is_strict_child (p ∷ ps) [] = false
is_strict_child (p ∷ ps) (c ∷ cs) = p == c && is_strict_child ps cs

abbrev pub cons_head : ℕ → List Bytes → List Bytes
cons_head c [] = (c ∷ []) ∷ []
cons_head c (p ∷ ps) = (c ∷ p) ∷ ps

-- the parts between the dots, of which there is at least one
unfoldable pub split_place : Bytes → List Bytes
split_place [] = [] ∷ []
split_place (c ∷ cs) =
    let rest = split_place cs in if c == b'.' then [] ∷ rest else cons_head c rest

abbrev pub any_index : Bytes
any_index = codes "[*]"

abbrev pub is_external : Bytes → Bool
is_external p = starts_with (codes "<external:") p

-- the loop over the parts that both places have
unfoldable pub parts_disjoint : List Bytes → List Bytes → Bool
unfolding str_eq
parts_disjoint [] qs = false
parts_disjoint (p ∷ ps) [] = false
parts_disjoint (p ∷ ps) (q ∷ qs) =
    if str_eq p q then parts_disjoint ps qs else not (str_eq p any_index || str_eq q any_index)

-- `places_disjoint`
unfoldable pub places_disjoint : Bytes → Bytes → Bool
unfolding parts_disjoint split_place str_eq starts_with
places_disjoint a b =
    if is_external a || is_external b
    then false
    else if str_eq a b
    then false
    else parts_disjoint (split_place a) (split_place b)

-- `places_conflict`
unfoldable pub places_conflict : Bytes → Bytes → Bool
unfolding places_disjoint
places_conflict a b = not (places_disjoint a b)

-- `overlaps`
unfoldable pub overlaps : Bytes → Bytes → Bool
unfolding places_conflict
overlaps a b = places_conflict a b
