-- ===== src/Publisher/Deliveries.antt =====
-- What the subscribers of a publisher of include/mros/publisher.hpp get.
use mathlib.Core.List.{append-nil, append_assoc}
use mros_w24_solution.Common.{
  ℕ, Bool, true, false, ◌&&◌, ◌||◌, List, [], ◌∷◌, ◌++◌, if◌then◌else◌, nat_eq, ◌≡◌, ◌≢◌, refl, sym,
  ap, ◌∙◌, arith, Bool-cases, inl, inr,
}
use mros_w24_solution.Publisher.{Publisher, erase_failed, send_all, publish}

abbrev pub has : ℕ → List ℕ → Bool
has c [] = false
has c (x ∷ xs) = nat_eq x c || has c xs

-- No socket stands twice in the list.
abbrev pub Distinct : List ℕ → Type 0
Distinct [] = Unit {0}
Distinct (x ∷ xs) = (has x xs ≡ false) × Distinct xs

pub nat_eq→eq : (a b : ℕ) → nat_eq a b ≡ true → a ≡ b
nat_eq→eq a b h = ground arith

pub nat_eq→ne : (a b : ℕ) → nat_eq a b ≡ false → a ≢ b
nat_eq→ne a b h e = ground arith

pub has-erase_failed :
    (sends : ℕ → Bool) (c : ℕ) (l : List ℕ) → has c (erase_failed sends l) ≡ (has c l && sends c)
unfolding erase_failed
has-erase_failed sends c [] = refl
has-erase_failed sends c (x ∷ l) = elim (Bool-cases (nat_eq x c)) [
  | inl same ↦
      ground (arith, nat_eq→eq x c same, ap sends (nat_eq→eq x c same), has-erase_failed sends c l)
  | inr other ↦ ground (arith, has-erase_failed sends c l)
]

pub Distinct-erase_failed :
    (sends : ℕ → Bool) (l : List ℕ) → Distinct l → Distinct (erase_failed sends l)
unfolding erase_failed
Distinct-erase_failed sends [] d = tt
Distinct-erase_failed sends (x ∷ l) (fresh, d) = elim (Bool-cases (sends x)) [
  | inl on ↦
      rw on ((has-erase_failed sends x l ∙ ground (arith, fresh)), Distinct-erase_failed sends l d)
  | inr off ↦ rw off (Distinct-erase_failed sends l d)
]

module _ {ℓ} {M : Type ℓ} where
  -- The messages that went out on a socket.
  abbrev pub sent_on : ℕ → List (ℕ × M) → List M
  sent_on c [] = []
  sent_on c ((x, m) ∷ log) = if nat_eq x c then m ∷ sent_on c log else sent_on c log

  pub sent_on-append :
      (c : ℕ) (l k : List (ℕ × M)) → sent_on c (l ++ k) ≡ sent_on c l ++ sent_on c k
  sent_on-append c [] k = refl
  sent_on-append c ((x, m) ∷ l) k = ground (arith, sent_on-append c l k)

  pub sent_on-send_all :
      (sends : ℕ → Bool) (m : M) (c : ℕ) (l : List ℕ)
      → Distinct l
      → sent_on c (send_all sends m l) ≡ (if has c l && sends c then m ∷ [] else [])
  unfolding send_all
  sent_on-send_all sends m c [] d = refl
  sent_on-send_all sends m c (x ∷ l) (fresh, d) =
      let later = sent_on-send_all sends m c l d in
      elim (Bool-cases (nat_eq x c)) [
        | inl same ↦
            let e = nat_eq→eq x c same in
            ground (arith, later, e, ap sends e, ap (λ k. has k l) e, fresh)
        | inr other ↦ ground (arith, later)
      ]

  -- Messages published one after the other, each with the sockets on which its send returns.
  abbrev pub publish_all : List ((ℕ → Bool) × M) → Publisher M → Publisher M
  publish_all [] p = p
  publish_all ((sends, m) ∷ rounds) p = publish_all rounds (publish sends m p)

  -- The messages before the first one whose send on the socket throws.
  abbrev pub until_failure : ℕ → List ((ℕ → Bool) × M) → List M
  until_failure c [] = []
  until_failure c ((sends, m) ∷ rounds) = if sends c then m ∷ until_failure c rounds else []

  one_round :
      (there on : Bool) (m : M) (front later : List M)
      → (front ++ (if there && on then m ∷ [] else [])) ++ (if there && on then later else [])
        ≡ front ++ (if there then (if on then m ∷ later else []) else [])
  one_round false on m front later = append-nil (front ++ []) ∙ refl
  one_round true false m front later = append-nil (front ++ [])
  one_round true true m front later = append_assoc front (m ∷ []) later

  -- A subscriber that is connected gets every message once and in order, up to the first one whose
  -- send to it throws, and none after that; what happens to the other subscribers does not matter.
  -- A socket that is not among the connections gets nothing.
  pub publish_all-sent :
      (rounds : List ((ℕ → Bool) × M)) (c : ℕ) (p : Publisher M)
      → Distinct p.subscriber_connections
      → sent_on c (publish_all rounds p).sent
        ≡ sent_on c p.sent
          ++ (if has c p.subscriber_connections then until_failure c rounds else [])
  unfolding publish
  publish_all-sent [] c p d =
      sym (append-nil (sent_on c p.sent)) ∙ ap (λ l. sent_on c p.sent ++ l) (ground arith)
  publish_all-sent ((sends, m) ∷ rounds) c p d =
      let l = p.subscriber_connections in
      publish_all-sent rounds c (publish sends m p) (Distinct-erase_failed sends l d)
      ∙ rw
          (
            sent_on-append c p.sent (send_all sends m l),
            sent_on-send_all sends m c l d,
            has-erase_failed sends c l,
          )
          (one_round (has c l) (sends c) m (sent_on c p.sent) (until_failure c rounds))
