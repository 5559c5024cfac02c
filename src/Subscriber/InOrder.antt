-- ===== src/Subscriber/InOrder.antt =====
-- Lists with some elements left out, for the messages that the queue of include/mros/subscriber.hpp
-- drops.
use mros_w24_solution.Common.{ℕ, zero, suc, List, [], ◌∷◌, ◌++◌, drop}

-- The first list is the second one with some elements left out.
pub data InOrder {ℓ} {M : Type ℓ} : List M → List M → Type ℓ where
  nothing : InOrder [] []
  keep : {xs ys : List M} (x : M) → InOrder xs ys → InOrder (x ∷ xs) (x ∷ ys)
  skip : {xs ys : List M} (y : M) → InOrder xs ys → InOrder xs (y ∷ ys)

module _ {ℓ} {M : Type ℓ} where
  pub InOrder-append :
      (m : M) {xs ys : List M} → InOrder xs ys → InOrder (xs ++ m ∷ []) (ys ++ m ∷ [])
  InOrder-append m nothing = keep m nothing
  InOrder-append m (keep x h) = keep x (InOrder-append m h)
  InOrder-append m (skip y h) = skip y (InOrder-append m h)

  pub InOrder-tail : (x : M) {xs ys : List M} → InOrder (x ∷ xs) ys → InOrder xs ys
  InOrder-tail x (keep _ h) = skip x h
  InOrder-tail x (skip y h) = skip y (InOrder-tail x h)

  -- An element may be left out behind a part that is kept.
  pub InOrder-cut :
      (front : List M) (x : M) (xs ys : List M)
      → InOrder (front ++ x ∷ xs) ys
      → InOrder (front ++ xs) ys
  InOrder-cut [] x xs ys h = InOrder-tail x h
  InOrder-cut (y ∷ front) x xs [] h = elim h [ ]
  InOrder-cut (y ∷ front) x xs (z ∷ ys) (keep _ h) = keep y (InOrder-cut front x xs ys h)
  InOrder-cut (y ∷ front) x xs (z ∷ ys) (skip _ h) = skip z (InOrder-cut (y ∷ front) x xs ys h)

  pub InOrder-drop :
      (front : List M) (n : ℕ) (xs ys : List M)
      → InOrder (front ++ xs) ys
      → InOrder (front ++ drop n xs) ys
  InOrder-drop front zero xs ys h = h
  InOrder-drop front (suc n) [] ys h = h
  InOrder-drop front (suc n) (x ∷ xs) ys h =
      InOrder-drop front n xs ys (InOrder-cut front x xs ys h)
