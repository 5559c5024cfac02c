-- ===== src/Publisher/Keeps.antt =====
-- What each step of the threads of a publisher of include/mros/publisher.hpp keeps of what its
-- subscribers get.
use mathlib.Core.Path.{subst}
use mros_w24_solution.Common.{
  ℕ, Bool, true, false, ◌&&◌, ◌||◌, List, [], ◌∷◌, ◌++◌, if◌then◌else◌, nat_eq, ◌≡◌, ◌≢◌, refl, sym,
  ap, ◌∙◌, arith, Bool-cases, inl, inr,
}
use mros_w24_solution.Publisher.{Publisher, Acceptor, at_test, ended, at_push, publish, send_all}
use mros_w24_solution.Publisher.Deliveries.{
  has, Distinct, nat_eq→eq, has-erase_failed, Distinct-erase_failed, sent_on, sent_on-append,
  sent_on-send_all,
}
use mros_w24_solution.Publisher.Runs.{
  has-append, Distinct-snoc, IsRun, IsRun-empty, IsRun-cut, IsRun-published,
}

module _ {ℓ} {M : Type ℓ} where
  pub record Streams (messages : List M) (used : List ℕ) (p : Publisher M) : Type ℓ where
    pub run : (c : ℕ) → IsRun (has c p.subscriber_connections) (sent_on c p.sent) messages
    pub distinct : Distinct p.subscriber_connections
    pub known : (c : ℕ) → has c used ≡ false → has c p.subscriber_connections ≡ false
    pub unsent : (c : ℕ) → has c used ≡ false → sent_on c p.sent ≡ []
    pub pushing :
        (c : ℕ)
        → p.acceptor ≡ at_push c
        → (has c used ≡ true) × ((has c p.subscriber_connections ≡ false) × (sent_on c p.sent ≡ []))

  pub publish-Streams :
      (sends : ℕ → Bool) (m : M) (messages : List M) (used : List ℕ) (p : Publisher M)
      → Streams messages used p
      → Streams (messages ++ m ∷ []) used (publish sends m p)
  unfolding publish
  publish-Streams sends m messages used p o = record {
    run = λ c.
        rw (has-erase_failed sends c l, sent c)
          (IsRun-published (has c l) (sends c) m (sent_on c p.sent) messages (o.run c));
    distinct = Distinct-erase_failed sends l o.distinct;
    known = λ c e. has-erase_failed sends c l ∙ ground (arith, o.known c e);
    unsent = λ c e. sent c ∙ ground (arith, o.known c e, o.unsent c e);
    pushing = λ c e.
        let (old, (off, silent)) = o.pushing c e in
        (
          old,
          (has-erase_failed sends c l ∙ ground (arith, off), sent c ∙ ground (arith, off, silent)),
        );
  }
    where
      l : List ℕ
      l = p.subscriber_connections

      sent :
          (c : ℕ)
          → sent_on c (p.sent ++ send_all sends m l)
            ≡ sent_on c p.sent ++ (if has c l && sends c then m ∷ [] else [])
      sent c =
          sent_on-append c p.sent (send_all sends m l)
          ∙ ap (λ k. sent_on c p.sent ++ k) (sent_on-send_all sends m c l o.distinct)

  -- A step that enters no connection and drops none.
  pub keep-Streams :
      (acceptor : Acceptor) (server_open connected : Bool) (messages : List M) (used : List ℕ)
      (p : Publisher M)
      → ((c : ℕ) → acceptor ≢ at_push c)
      → Streams messages used p
      → Streams messages used
          (record p { acceptor = acceptor; server_open = server_open; connected = connected })
  keep-Streams acceptor server_open connected messages used p off o = record {
    run = o.run;
    distinct = o.distinct;
    known = o.known;
    unsent = o.unsent;
    pushing = λ c e. absurd (off c e);
  }

  pub given-Streams :
      (messages : List M) (used : List ℕ) (c : ℕ) (p : Publisher M)
      → has c used ≡ false
      → Streams messages used p
      → Streams messages (used ++ c ∷ []) p
  given-Streams messages used c p new o = record {
    run = o.run;
    distinct = o.distinct;
    known = λ x e. o.known x (before x e);
    unsent = λ x e. o.unsent x (before x e);
    pushing = λ x e.
        let (old, rest) = o.pushing x e in (has-append x used (c ∷ []) ∙ ground (arith, old), rest);
  }
    where
      before : (x : ℕ) → has x (used ++ c ∷ []) ≡ false → has x used ≡ false
      before x e = ground (arith, has-append x used (c ∷ []), e)

  pub accepted-Streams :
      (messages : List M) (used : List ℕ) (c : ℕ) (p : Publisher M)
      → has c used ≡ false
      → Streams messages used p
      → Streams messages (used ++ c ∷ []) (record p { acceptor = at_push c })
  accepted-Streams messages used c p new o =
      let o' = given-Streams messages used c p new o in
      record {
        run = o'.run;
        distinct = o'.distinct;
        known = o'.known;
        unsent = o'.unsent;
        pushing = λ x e.
            let same = pushed-injective c x e in
            subst
              (λ x.
                (has x (used ++ c ∷ []) ≡ true)
                × ((has x p.subscriber_connections ≡ false) × (sent_on x p.sent ≡ [])))
              same
              (has-append c used (c ∷ []) ∙ ground (arith, new), (o.known c new, o.unsent c new));
      }
    where
      pushed-injective : (a b : ℕ) → at_push a ≡ at_push b → a ≡ b
      pushed-injective a b e = ap pushed e
        where
          pushed : Acceptor → ℕ
          pushed (at_push n) = n
          pushed _ = a

  pub push-Streams :
      (messages : List M) (used : List ℕ) (c : ℕ) (p : Publisher M)
      → p.acceptor ≡ at_push c
      → Streams messages used p
      → Streams messages used (record p {
        acceptor = at_test;
        subscriber_connections = p.subscriber_connections ++ c ∷ [];
      })
  push-Streams messages used c p e o = record {
    run = λ x. rw (has-append x p.subscriber_connections (c ∷ [])) (elim (Bool-cases (nat_eq c x)) [
      | inl same ↦
          let x_is : sent_on x p.sent ≡ [] =
            ap (λ n. sent_on n p.sent) (sym (nat_eq→eq c x same)) ∙ silent in
          rw x_is (IsRun-empty (has x p.subscriber_connections || (nat_eq c x || false)) messages)
      | inr other ↦ rw (other, or_false (has x p.subscriber_connections)) (o.run x)
    ]);
    distinct = Distinct-snoc c p.subscriber_connections o.distinct off;
    known = λ x new.
        has-append x p.subscriber_connections (c ∷ []) ∙ elim (Bool-cases (nat_eq c x)) [
          | inl same ↦ absurd (ground (arith, new, old, ap (λ n. has n used) (nat_eq→eq c x same)))
          | inr other ↦ ground (arith, other, o.known x new)
        ];
    unsent = o.unsent;
    pushing = λ x here. absurd (ground arith);
  }
    where
      old : has c used ≡ true
      old = (o.pushing c e).0

      off : has c p.subscriber_connections ≡ false
      off = (o.pushing c e).1.0

      silent : sent_on c p.sent ≡ []
      silent = (o.pushing c e).1.1

      or_false : (b : Bool) → (b || (false || false)) ≡ b
      or_false true = refl
      or_false false = refl

  pub clear-Streams :
      (messages : List M) (used : List ℕ) (p : Publisher M)
      → Streams messages used p
      → Streams messages used (record p { acceptor = ended; subscriber_connections = [] })
  clear-Streams messages used p o = record {
    run = λ c. IsRun-cut (has c p.subscriber_connections) (sent_on c p.sent) messages (o.run c);
    distinct = tt;
    known = λ c new. refl;
    unsent = o.unsent;
    pushing = λ c here. absurd (ground arith);
  }
