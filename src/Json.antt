-- ===== src/Json.antt =====
-- `nlohmann::json`, a package that the program calls: its values and the operations used here, as
-- an interface with the documented laws. Every component takes one as an instance argument.
pub mod Sample
use mros_w24_solution.Common.{
  String, ◌≡◌, Bool, true, false, List, [], ◌∷◌, Option, none, some, ℕ, ℤ,
}
use mros_w24_solution.Containers.Table.{lookup, assign}

-- `none` as a result stands for a call that throws or is undefined: a type error of `get`, or the
-- constant `operator[]` at a missing key.
pub record JsonLib : Type 1 where
  pub Value : Type 0
  pub null : Value
  pub string : String → Value
  pub int : ℤ → Value
  pub boolean : Bool → Value
  pub strings : List String → Value
  pub ints : List ℤ → Value
  pub object : List (String × Value) → Value
  -- `find(key)`, with `none` for `end()`
  pub find : String → Value → Option Value
  -- `value[key] = v`
  pub put : String → Value → Value → Option Value
  -- `get<T>` and the implicit conversions
  pub get_string : Value → Option String
  pub get_int : Value → Option ℤ
  pub get_strings : Value → Option (List String)
  pub get_ints : Value → Option (List ℤ)
  pub empty : Value → Bool
  pub is_discarded : Value → Bool
  -- `to_bson` fails on a value that is no object, `from_bson` on bytes that it cannot read.
  pub to_bson : Value → Option (List ℕ)
  pub from_bson : List ℕ → Option Value
  pub find-object : (k : String) (m : List (String × Value)) → find k (object m) ≡ lookup k m
  pub find-null : (k : String) → find k null ≡ none
  pub put-object :
      (k : String) (v : Value) (m : List (String × Value))
      → put k v (object m) ≡ some (object (assign k v m))
  pub get_string-string : (s : String) → get_string (string s) ≡ some s
  pub get_int-int : (n : ℤ) → get_int (int n) ≡ some n
  pub get_strings-strings : (l : List String) → get_strings (strings l) ≡ some l
  pub get_ints-ints : (l : List ℤ) → get_ints (ints l) ≡ some l
  pub empty-null : empty null ≡ true
  pub empty-nil : empty (object []) ≡ true
  pub empty-cons : (e : String × Value) (m : List (String × Value)) → empty (object (e ∷ m)) ≡ false
  pub is_discarded-object : (m : List (String × Value)) → is_discarded (object m) ≡ false

abbrev pub Json : ⦃j : JsonLib⦄ → Type 0
Json ⦃j⦄ = j.Value
