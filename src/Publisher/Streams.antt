-- ===== src/Publisher/Streams.antt =====
-- What a publisher of include/mros/publisher.hpp sends on each connection, however its threads take
-- turns.
use mathlib.Core.List.{append-nil}
use mathlib.Core.Path.{subst}
use mros_w24_solution.Common.{
  ℕ, nat_eq, Whenever, ◌&&◌, ◌||◌, ◌∙◌, ◌∷◌, Bool, true, false, List, [], ◌++◌, Option, none, some,
  if◌then◌else◌, ◌≡◌, ◌≢◌, refl, arith,
}
use mros_w24_solution.Publisher.{
  Publisher, Acceptor, at_test, at_accept, at_close, at_clear, ended, at_push, Accepted, nothing,
  failed, connection, publish, disconnect, accept_step, accept_step_at,
}
use mros_w24_solution.Publisher.Deliveries.{has-erase_failed, has, Distinct, sent_on}
use mros_w24_solution.Publisher.Runs.{has-append, IsRun}
use mros_w24_solution.Publisher.Schedules.{
  Action, publishes, accepts, disconnects, act, published, given, IsNew, Reach, start, next,
}
use mros_w24_solution.Publisher.Keeps.{
  Streams, publish-Streams, keep-Streams, given-Streams, accepted-Streams, push-Streams,
  clear-Streams,
}

unchanged : (b : Bool) → b ≡ (b && true || false)
unchanged true = refl
unchanged false = refl

module _ {ℓ} {M : Type ℓ} where
  Outcome : List M → List ℕ → Option (Publisher M) → Type ℓ
  Outcome messages used none = Unit {ℓ}
  Outcome messages used (some p) = Streams messages used p

  accepts-Streams :
      (a : Accepted) (messages : List M) (used : List ℕ) (p : Publisher M)
      → IsNew {M = M} (accepts a) used
      → Streams messages used p
      → Streams messages (used ++ given {M = M} (accepts a)) p
  accepts-Streams nothing messages used p new o = rw (append-nil used) o
  accepts-Streams failed messages used p new o = rw (append-nil used) o
  accepts-Streams (connection c) messages used p new o = given-Streams messages used c p new o

  accept_step-Outcome :
      (acceptor : Acceptor) (a : Accepted) (messages : List M) (used : List ℕ) (p : Publisher M)
      → p.acceptor ≡ acceptor
      → IsNew {M = M} (accepts a) used
      → Streams messages used p
      → Outcome messages (used ++ given {M = M} (accepts a)) (accept_step_at acceptor a p)
  unfolding accept_step_at Outcome
  accept_step-Outcome at_accept (connection c) messages used p e new o =
      accepted-Streams messages used c p new o
  accept_step-Outcome at_accept failed messages used p e new o = tt
  accept_step-Outcome at_accept nothing messages used p e new o =
      keep-Streams at_test p.server_open p.connected messages (used ++ []) p (λ c h. ground arith)
        (accepts-Streams nothing messages used p new o)
  accept_step-Outcome at_test a messages used p e new o =
      keep-Streams (if p.connected then at_accept else at_close) p.server_open p.connected messages
        (used ++ given {M = M} (accepts a)) p (leaves p.connected)
        (accepts-Streams a messages used p new o)
    where
      leaves : (on : Bool) (c : ℕ) → (if on then at_accept else at_close) ≢ at_push c
      leaves true c h = ground arith
      leaves false c h = ground arith
  accept_step-Outcome (at_push c) a messages used p e new o =
      push-Streams messages (used ++ given {M = M} (accepts a)) c p e
        (accepts-Streams a messages used p new o)
  accept_step-Outcome at_close a messages used p e new o =
      keep-Streams at_clear false p.connected messages (used ++ given {M = M} (accepts a)) p
        (λ c h. ground arith) (accepts-Streams a messages used p new o)
  accept_step-Outcome at_clear a messages used p e new o =
      clear-Streams messages (used ++ given {M = M} (accepts a)) p
        (accepts-Streams a messages used p new o)
  accept_step-Outcome ended a messages used p e new o = accepts-Streams a messages used p new o

  act-Outcome :
      (a : Action M) (messages : List M) (used : List ℕ) (p : Publisher M)
      → IsNew a used
      → Streams messages used p
      → Outcome (messages ++ published a) (used ++ given a) (act a p)
  unfolding act Outcome accept_step disconnect
  act-Outcome (publishes sends m) messages used p new o =
      rw (append-nil used) (publish-Streams sends m messages used p o)
  act-Outcome (accepts a) messages used p new o =
      rw (append-nil messages) (accept_step-Outcome p.acceptor a messages used p refl new o)
  act-Outcome disconnects messages used p new o =
      rw (append-nil messages, append-nil used)
        (record {
          run = o.run;
          distinct = o.distinct;
          known = o.known;
          unsent = o.unsent;
          pushing = o.pushing;
        })

  Reach-Streams :
      {messages : List M} {used : List ℕ} {p : Publisher M}
      → Reach messages used p
      → Streams messages used p
  unfolding Outcome
  Reach-Streams start = record {
    run = λ c. ([], ([], refl));
    distinct = tt;
    known = λ c e. refl;
    unsent = λ c e. refl;
    pushing = λ c e. absurd (ground arith);
  }
  Reach-Streams (next {messages} {used} {p} {p'} a before new done) =
      subst (Outcome (messages ++ published a) (used ++ given a)) done
        (act-Outcome a messages used p new (Reach-Streams before))

  -- Whether an action leaves a connection where it is: a failed send takes it away, and so does the
  -- accepting thread at its end.
  abbrev pub leaves : Action M → ℕ → Acceptor → Bool
  leaves (publishes sends m) c acceptor = sends c
  leaves disconnects c acceptor = true
  leaves (accepts a) c at_clear = false
  leaves (accepts a) c _ = true

  -- Whether an action enters a connection.
  abbrev pub enters : Action M → ℕ → Acceptor → Bool
  enters (accepts a) c (at_push x) = nat_eq x c
  enters _ c _ = false

  accept_step-connections :
      (acceptor : Acceptor) (a : Accepted) (c : ℕ) (p : Publisher M)
      → Whenever
          (λ p'. has c p'.subscriber_connections ≡ (
            has c p.subscriber_connections && leaves (accepts a) c acceptor
            || enters (accepts a) c acceptor))
          (accept_step_at acceptor a p)
  unfolding accept_step_at
  accept_step-connections at_test a c p = unchanged (has c p.subscriber_connections)
  accept_step-connections at_accept nothing c p = unchanged (has c p.subscriber_connections)
  accept_step-connections at_accept failed c p = tt
  accept_step-connections at_accept (connection x) c p = unchanged (has c p.subscriber_connections)
  accept_step-connections (at_push x) a c p =
      has-append c p.subscriber_connections (x ∷ []) ∙ ground arith
  accept_step-connections at_close a c p = unchanged (has c p.subscriber_connections)
  accept_step-connections at_clear a c p = ground arith
  accept_step-connections ended a c p = unchanged (has c p.subscriber_connections)

  act-connections :
      (a : Action M) (c : ℕ) (p : Publisher M)
      → Whenever
          (λ p'.
            has c p'.subscriber_connections
            ≡ (has c p.subscriber_connections && leaves a c p.acceptor || enters a c p.acceptor))
          (act a p)
  unfolding act accept_step disconnect publish
  act-connections (publishes sends m) c p =
      has-erase_failed sends c p.subscriber_connections ∙ ground arith
  act-connections (accepts a) c p = accept_step-connections p.acceptor a c p
  act-connections disconnects c p = unchanged (has c p.subscriber_connections)

  -- However the threads of a publisher take turns, where each connection that `acceptConnection`
  -- gives is a new one: the connections are different ones, and what has gone out on a socket is a
  -- run of consecutive messages of those published, in order and with none left out or sent twice.
  -- While the socket is among the connections the run reaches to the last message. Whatever is done
  -- next, the socket is there afterwards exactly if it was and no send on it has thrown and the
  -- accepting thread has not dropped all connections at its end, or if the accepting thread enters it.
  pub Reach-IsRun :
      {messages : List M} {used : List ℕ} {p : Publisher M} (a : Action M) (c : ℕ)
      → Reach messages used p
      → Distinct p.subscriber_connections
        × (IsRun (has c p.subscriber_connections) (sent_on c p.sent) messages
            × Whenever
                (λ p'. has c p'.subscriber_connections ≡ (
                  has c p.subscriber_connections && leaves a c p.acceptor || enters a c p.acceptor))
                (act a p))
  Reach-IsRun {p = p} a c r =
      let o = Reach-Streams r in (o.distinct, (o.run c, act-connections a c p))
