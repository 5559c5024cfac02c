-- ===== src/Json/Sample.antt =====
-- A small value type that meets the laws of `JsonLib`, for concrete runs.
use mros_w24_solution.Common.{
  String, ◌≡◌, refl, ◌==◌, ◌&&◌, if◌then◌else◌, Bool, true, false, List, [], ◌∷◌, Option, none,
  some, ℕ, ℤ, ap,
}
use mros_w24_solution.Containers.Table.{lookup, assign}
use mros_w24_solution.Json.{JsonLib}

mutual
  pub data Tree : Type 0 where
    null : Tree
    string : String → Tree
    int : ℤ → Tree
    boolean : Bool → Tree
    strings : List String → Tree
    ints : List ℤ → Tree
    object : Members → Tree

  pub data Members : Type 0 where
    end : Members
    member : String → Tree → Members → Members

unfoldable pub members : List (String × Tree) → Members
members [] = end
members ((k, v) ∷ m) = member k v (members m)

unfoldable pub pairs : Members → List (String × Tree)
pairs end = []
pairs (member k v m) = (k, v) ∷ pairs m

pairs-members : (m : List (String × Tree)) → pairs (members m) ≡ m
unfolding pairs members
pairs-members [] = refl
pairs-members ((k, v) ∷ m) = ap (◌∷◌ (k, v)) (pairs-members m)

unfoldable pub find : String → Tree → Option Tree
unfolding lookup pairs
find k (object m) = lookup k (pairs m)
find k _ = none

unfoldable pub put : String → Tree → Tree → Option Tree
unfolding assign pairs members
put k v (object m) = some (object (members (assign k v (pairs m))))
put k v null = some (object (member k v end))
put k v _ = none

unfoldable pub get_string : Tree → Option String
get_string (string s) = some s
get_string _ = none

unfoldable pub get_int : Tree → Option ℤ
get_int (int n) = some n
get_int _ = none

unfoldable pub get_strings : Tree → Option (List String)
get_strings (strings l) = some l
get_strings _ = none

unfoldable pub get_ints : Tree → Option (List ℤ)
get_ints (ints l) = some l
get_ints _ = none

unfoldable pub empty : Tree → Bool
empty null = true
empty (object end) = true
empty _ = false

-- The BSON of {} and of {"data": "hi"}. No other value is encoded by the sample.
unfoldable pub to_bson : Tree → Option (List ℕ)
to_bson (object end) = some (5 ∷ 0 ∷ 0 ∷ 0 ∷ 0 ∷ [])
to_bson (object (member key (string s) end)) =
    if key == "data" && s == "hi"
    then some
        (18 ∷ 0 ∷ 0 ∷ 0 ∷ 2 ∷ 100 ∷ 97 ∷ 116 ∷ 97 ∷ 0 ∷ 3 ∷ 0 ∷ 0 ∷ 0 ∷ 104 ∷ 105 ∷ 0 ∷ 0 ∷ [])
    else none
to_bson _ = none

unfoldable pub from_bson : List ℕ → Option Tree
from_bson (b ∷ c ∷ d ∷ e ∷ f ∷ []) = some (object end)
from_bson (b ∷ c ∷ d ∷ e ∷ f ∷ g ∷ rest) = some (object (member "data" (string "hi") end))
from_bson _ = none

pub find-object : (k : String) (m : List (String × Tree)) → find k (object (members m)) ≡ lookup k m
unfolding find
find-object k m = rw pairs-members

pub put-object :
    (k : String) (v : Tree) (m : List (String × Tree))
    → put k v (object (members m)) ≡ some (object (members (assign k v m)))
unfolding put
put-object k v m = rw pairs-members

pub find-null : (k : String) → find k null ≡ none
unfolding find
find-null k = refl

pub get_string-string : (s : String) → get_string (string s) ≡ some s
unfolding get_string
get_string-string s = refl

pub get_int-int : (n : ℤ) → get_int (int n) ≡ some n
unfolding get_int
get_int-int n = refl

pub get_strings-strings : (l : List String) → get_strings (strings l) ≡ some l
unfolding get_strings
get_strings-strings l = refl

pub get_ints-ints : (l : List ℤ) → get_ints (ints l) ≡ some l
unfolding get_ints
get_ints-ints l = refl

pub empty-null : empty null ≡ true
unfolding empty
empty-null = refl

pub empty-nil : empty (object (members [])) ≡ true
unfolding empty members
empty-nil = refl

pub empty-cons :
    (e : String × Tree) (m : List (String × Tree)) → empty (object (members (e ∷ m))) ≡ false
unfolding empty members
empty-cons e m = refl

instance abbrev pub tree_json : JsonLib
tree_json = record {
  Value = Tree;
  null = null;
  string = string;
  int = int;
  boolean = boolean;
  strings = strings;
  ints = ints;
  object = λ m. object (members m);
  find = find;
  put = put;
  get_string = get_string;
  get_int = get_int;
  get_strings = get_strings;
  get_ints = get_ints;
  empty = empty;
  is_discarded = λ _. false;
  to_bson = to_bson;
  from_bson = from_bson;
  find-object = find-object;
  find-null = find-null;
  put-object = put-object;
  get_string-string = get_string-string;
  get_int-int = get_int-int;
  get_strings-strings = get_strings-strings;
  get_ints-ints = get_ints-ints;
  empty-null = empty-null;
  empty-nil = empty-nil;
  empty-cons = empty-cons;
  is_discarded-object = λ m. refl;
}
