-- ===== src/Publisher/Runs.antt =====
-- Runs of consecutive messages, and lists of different sockets, for what the subscribers of a publisher
-- of include/mros/publisher.hpp get.
use mathlib.Core.List.{append-nil, append_assoc}
use mros_w24_solution.Common.{
  ℕ, Bool, true, false, ◌&&◌, ◌||◌, List, [], ◌∷◌, ◌++◌, if◌then◌else◌, ◌≡◌, refl, sym, ap, ◌∙◌,
  arith,
}
use mros_w24_solution.Publisher.Deliveries.{has, Distinct}

pub has-append : (c : ℕ) (l k : List ℕ) → has c (l ++ k) ≡ (has c l || has c k)
has-append c [] k = refl
has-append c (x ∷ l) k = ground (arith, has-append c l k)

pub Distinct-snoc : (c : ℕ) (l : List ℕ) → Distinct l → has c l ≡ false → Distinct (l ++ c ∷ [])
Distinct-snoc c [] d e = (refl, tt)
Distinct-snoc c (x ∷ l) (fresh, d) e =
    (has-append x l (c ∷ []) ∙ ground (arith, fresh, e), Distinct-snoc c l d (ground (arith, e)))

module _ {ℓ} {M : Type ℓ} where
  -- The part is a run of consecutive messages. It reaches to the last one if `on`.
  abbrev pub IsRun : Bool → List M → List M → Type ℓ
  IsRun true part messages = (before : List M) × (messages ≡ before ++ part)
  IsRun false part messages =
      (before : List M) × ((after : List M) × (messages ≡ before ++ (part ++ after)))

  pub IsRun-empty : (on : Bool) (messages : List M) → IsRun on [] messages
  IsRun-empty true messages = (messages, sym (append-nil messages))
  IsRun-empty false messages = ([], (messages, refl))

  pub IsRun-cut :
      (on : Bool) (part messages : List M) → IsRun on part messages → IsRun false part messages
  IsRun-cut true part messages (before, e) =
      (before, ([], e ∙ ap (λ l. before ++ l) (sym (append-nil part))))
  IsRun-cut false part messages r = r

  pub IsRun-published :
      (on sends : Bool) (m : M) (part messages : List M)
      → IsRun on part messages
      → IsRun (on && sends) (part ++ (if on && sends then m ∷ [] else [])) (messages ++ m ∷ [])
  IsRun-published true true m part messages (before, e) =
      (before, ap (λ l. l ++ m ∷ []) e ∙ append_assoc before part (m ∷ []))
  IsRun-published true false m part messages (before, e) = (
    before,
    (
      m ∷ [],
      ap (λ l. l ++ m ∷ []) e
          ∙ append_assoc before part (m ∷ [])
          ∙ ap (λ l. before ++ (l ++ m ∷ [])) (sym (append-nil part)),
    ),
  )
  IsRun-published false sends m part messages (before, (after, e)) = (
    before,
    (
      after ++ m ∷ [],
      ap (λ l. l ++ m ∷ []) e
          ∙ append_assoc before (part ++ after) (m ∷ [])
          ∙ ap (λ l. before ++ l) (append_assoc part after (m ∷ []))
          ∙ ap (λ l. before ++ (l ++ (after ++ m ∷ []))) (sym (append-nil part)),
    ),
  )
