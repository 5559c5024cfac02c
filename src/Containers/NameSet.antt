-- ===== src/Containers/NameSet.antt =====
-- `std::unordered_set<std::string>`: the elements in iteration order, which the standard leaves
-- open. The theorems speak of membership only.
use mros_w24_solution.Common.{
  String, ◌≡◌, Bool, false, not, ◌&&◌, ◌||◌, List, [], ◌∷◌, arith, ◌==◌, eq_iff, if◌then◌else◌,
}

abbrev pub NameSet : Type 0
NameSet = List String

unfoldable pub contains : String → NameSet → Bool
contains x [] = false
contains x (y ∷ s) = y == x || contains x s

unfoldable pub insert : String → NameSet → NameSet
unfolding contains
insert x s = if contains x s then s else x ∷ s

unfoldable pub erase : String → NameSet → NameSet
erase x [] = []
erase x (y ∷ s) = if y == x then erase x s else y ∷ erase x s

pub contains-insert :
    (x y : String) (s : NameSet) → contains y (insert x s) ≡ (x == y || contains y s)
unfolding insert
contains-insert x y s = ground (arith, eq_iff x y)

pub contains-erase :
    (x y : String) (s : NameSet) → contains y (erase x s) ≡ (not (x == y) && contains y s)
unfolding contains erase
contains-erase x y [] = ground arith
contains-erase x y (z ∷ s) =
    ground (arith, eq_iff x y, eq_iff z x, eq_iff z y, contains-erase x y s)

pub ruleset set_laws = (contains-insert, contains-erase)
