-- ===== src/Publisher/Tests.antt =====
-- A publisher with two subscribers, of which one goes away after the first message.
use mros_w24_solution.Common.{
  ℕ, Whenever, ◌&&◌, ◌||◌, Bool, true, false, none, some, List, [], ◌∷◌, ◌++◌, ◌≡◌, refl, nat_eq,
  if◌then◌else◌,
}
use mros_w24_solution.Publisher.{
  Publisher, new_publisher, publish, nothing, connection, accept_step,
}
use mros_w24_solution.Publisher.Deliveries.{
  has, Distinct, sent_on, publish_all, until_failure, publish_all-sent,
}
use mros_w24_solution.Publisher.Runs.{IsRun}
use mros_w24_solution.Publisher.Schedules.{Action, publishes, accepts, act, Reach, start, next}
use mros_w24_solution.Publisher.Streams.{Reach-IsRun, leaves, enters}

abbrev two_subscribers : Publisher ℕ
two_subscribers = record new_publisher { subscriber_connections = 4 ∷ 5 ∷ [] }

abbrev rounds : List ((ℕ → Bool) × ℕ)
rounds = ((λ c. true), 10) ∷ ((λ c. nat_eq c 5), 11) ∷ ((λ c. true), 12) ∷ []

to_the_first : sent_on 4 (publish_all rounds two_subscribers).sent ≡ 10 ∷ []
unfolding publish
to_the_first = refl

to_the_second : sent_on 5 (publish_all rounds two_subscribers).sent ≡ 10 ∷ 11 ∷ 12 ∷ []
unfolding publish
to_the_second = refl

first_until_failure :
    sent_on 4 (publish_all rounds two_subscribers).sent
    ≡ sent_on 4 two_subscribers.sent
      ++ (if has 4 two_subscribers.subscriber_connections then until_failure 4 rounds else [])
first_until_failure = publish_all-sent rounds 4 two_subscribers (refl, (refl, tt))

-- The accepting thread takes a connection, and the second send on it throws.
abbrev first_actions : List (Action ℕ)
first_actions =
    accepts nothing
    ∷ accepts (connection 4)
    ∷ accepts nothing
    ∷ publishes (λ c. true) 10
    ∷ publishes (λ c. false) 11
    ∷ []

abbrev after : List (Action ℕ) → Publisher ℕ → Publisher ℕ
after [] p = p
after (a ∷ actions) p = elim (act a p) [ none ↦ p | some p' ↦ after actions p' ]

after-Reach : Reach (10 ∷ 11 ∷ []) (4 ∷ []) (after first_actions new_publisher)
unfolding act publish accept_step
after-Reach =
    next (publishes (λ c. false) 11)
      (next (publishes (λ c. true) 10)
        (next (accepts nothing)
          (next (accepts (connection 4)) (next (accepts nothing) start tt refl) refl refl) tt refl)
        tt refl)
      tt refl

sent_before_failure : sent_on 4 (after first_actions new_publisher).sent ≡ 10 ∷ []
unfolding act publish accept_step
sent_before_failure = refl

Reach-IsRun_example :
    let p = after first_actions new_publisher in
    Distinct p.subscriber_connections
    × (IsRun (has 4 p.subscriber_connections) (sent_on 4 p.sent) (10 ∷ 11 ∷ [])
        × Whenever
            (λ p'. has 4 p'.subscriber_connections ≡ (
              has 4 p.subscriber_connections && leaves {M = ℕ} (accepts nothing) 4 p.acceptor
              || enters {M = ℕ} (accepts nothing) 4 p.acceptor))
            (act (accepts nothing) p))
Reach-IsRun_example = Reach-IsRun (accepts nothing) 4 after-Reach
