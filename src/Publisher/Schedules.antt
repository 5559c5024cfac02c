-- ===== src/Publisher/Schedules.antt =====
-- The threads that use a publisher of include/mros/publisher.hpp take turns: the users who publish,
-- the accepting thread, and whoever disconnects the publisher.
use mros_w24_solution.Common.{ℕ, Bool, false, List, [], ◌∷◌, ◌++◌, Option, some, ◌≡◌}
use mros_w24_solution.Publisher.{
  Publisher, Accepted, nothing, failed, connection, new_publisher, publish, disconnect, accept_step,
}
use mros_w24_solution.Publisher.Deliveries.{has}

-- `publishes` comes with the sockets on which the send returns, `accepts` with what
-- `acceptConnection` gives.
pub data Action {ℓ} (M : Type ℓ) : Type ℓ where
  publishes : (ℕ → Bool) → M → Action M
  accepts : Accepted → Action M
  disconnects : Action M

module _ {ℓ} {M : Type ℓ} where
  unfoldable pub act : Action M → Publisher M → Option (Publisher M)
  unfolding publish accept_step disconnect
  act (publishes sends m) p = some (publish sends m p)
  act (accepts a) p = accept_step a p
  act disconnects p = some (disconnect p)

  -- The message that an action publishes.
  abbrev pub published : Action M → List M
  published (publishes sends m) = m ∷ []
  published (accepts a) = []
  published disconnects = []

  -- The connection that an action gives, whether or not the accepting thread is there to take it.
  abbrev pub given : Action M → List ℕ
  given (accepts (connection c)) = c ∷ []
  given (accepts nothing) = []
  given (accepts failed) = []
  given (publishes sends m) = []
  given disconnects = []

  -- A connection that is given is a new one.
  abbrev pub IsNew : Action M → List ℕ → Type 0
  IsNew (accepts (connection c)) used = has c used ≡ false
  IsNew (accepts nothing) used = Unit {0}
  IsNew (accepts failed) used = Unit {0}
  IsNew (publishes sends m) used = Unit {0}
  IsNew disconnects used = Unit {0}

  -- What actions reach from a new publisher, with the messages that they publish and the connections
  -- that they give.
  pub data Reach : List M → List ℕ → Publisher M → Type ℓ where
    start : Reach [] [] new_publisher
    next :
        {messages : List M} {used : List ℕ} {p p' : Publisher M} (a : Action M)
        → Reach messages used p
        → IsNew a used
        → act a p ≡ some p'
        → Reach (messages ++ published a) (used ++ given a) p'
