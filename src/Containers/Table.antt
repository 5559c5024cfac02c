-- ===== src/Containers/Table.antt =====
-- `std::unordered_map<std::string, V>`: an association list in iteration order.
use mros_w24_solution.Common.{
  String, ◌≡◌, refl, List, [], ◌∷◌, Option, none, some, arith, ◌==◌, eq_iff, if◌then◌else◌,
}

module _ {ℓ} {V : Type ℓ} where
  -- `find`
  unfoldable pub lookup : String → List (String × V) → Option V
  lookup key [] = none
  lookup key ((other, v) ∷ table) = if other == key then some v else lookup key table

  -- `m[k] = v`
  unfoldable pub assign : String → V → List (String × V) → List (String × V)
  assign key v [] = (key, v) ∷ []
  assign key v ((other, old) ∷ table) =
      if other == key then (key, v) ∷ table else (other, old) ∷ assign key v table

  -- `insert({key, v})`, which leaves a value that is there.
  unfoldable pub insert : String → V → List (String × V) → List (String × V)
  insert key v [] = (key, v) ∷ []
  insert key v ((other, old) ∷ table) =
      if other == key then (other, old) ∷ table else (other, old) ∷ insert key v table

  unfoldable pub erase : String → List (String × V) → List (String × V)
  erase key [] = []
  erase key ((other, old) ∷ table) =
      if other == key then erase key table else (other, old) ∷ erase key table

  abbrev pub or_default : V → Option V → V
  or_default d none = d
  or_default d (some v) = v

  -- The value that `m[k]` refers to, where `d` is the default-constructed value.
  unfoldable pub at : V → String → List (String × V) → V
  unfolding lookup
  at d key table = or_default d (lookup key table)

  -- A change made through `m[k]`, which first puts the default there if the key is missing.
  unfoldable pub modify : V → String → (V → V) → List (String × V) → List (String × V)
  unfolding at assign
  modify d key f table = assign key (f (at d key table)) table

  pub lookup-assign :
      (key other : String) (v : V) (table : List (String × V))
      → lookup other (assign key v table) ≡ (if key == other then some v else lookup other table)
  unfolding lookup assign
  lookup-assign key other v [] = refl
  lookup-assign key other v ((i, old) ∷ table) =
      ground
        (arith, eq_iff key other, eq_iff i key, eq_iff i other, lookup-assign key other v table)

  pub lookup-insert :
      (key other : String) (v : V) (table : List (String × V))
      → lookup other (insert key v table)
        ≡ (if key == other then some (or_default v (lookup key table)) else lookup other table)
  unfolding lookup insert
  lookup-insert key other v [] = refl
  lookup-insert key other v ((i, old) ∷ table) =
      ground
        (arith, eq_iff key other, eq_iff i key, eq_iff i other, lookup-insert key other v table)

  pub lookup-erase :
      (key other : String) (table : List (String × V))
      → lookup other (erase key table) ≡ (if key == other then none else lookup other table)
  unfolding lookup erase
  lookup-erase key other [] = ground arith
  lookup-erase key other ((i, old) ∷ table) =
      ground (arith, eq_iff key other, eq_iff i key, eq_iff i other, lookup-erase key other table)

  pub lookup-modify :
      (d : V) (key other : String) (f : V → V) (table : List (String × V))
      → lookup other (modify d key f table)
        ≡ (if key == other then some (f (or_default d (lookup key table))) else lookup other table)
  unfolding modify
  lookup-modify d key other f table = lookup-assign key other _ table

  pub at-modify :
      (d : V) (key other : String) (f : V → V) (table : List (String × V))
      → at d other (modify d key f table)
        ≡ (if key == other then f (at d key table) else at d other table)
  unfolding at
  at-modify d key other f table = rw (lookup-modify d key other f table) (ground arith)

  pub at-erase :
      (d : V) (key other : String) (table : List (String × V))
      → at d other (erase key table) ≡ (if key == other then d else at d other table)
  unfolding at
  at-erase d key other table = rw (lookup-erase key other table) (ground arith)

  pub ruleset table_laws =
      (lookup-assign, lookup-insert, lookup-erase, lookup-modify, at-modify, at-erase)
