-- ===== src/Subscriber/Actions.antt =====
-- The actions of the threads on a subscriber of include/mros/subscriber.hpp, one after the other.
use mros_w24_solution.Common.{ℕ, List, [], ◌∷◌, ◌++◌, Option, some, if◌then◌else◌, ◌≡◌}
use mros_w24_solution.Subscriber.{
  Subscriber, Spinner, not_started, holding, Call, new_subscriber, enqueue, spin, spinner_step,
  spin_once, disconnect,
}

-- What the threads do: the receiving thread puts a message in the queue, the user starts the
-- spinning thread, the spinning thread takes a step, the user calls `spinOnce`, the subscriber is
-- disconnected.
pub data Action {ℓ} (M : Type ℓ) : Type ℓ where
  arrives : M → Action M
  spins spinner_goes spins_once disconnects : Action M

module _ {ℓ} {M : Type ℓ} where
  -- The messages of the queue that the callback was called with.
  abbrev pub queued : List (Call M) → List M
  queued [] = []
  queued (call ∷ calls) = if call.is_queued then call.message ∷ queued calls else queued calls

  abbrev pub held : Spinner M → List M
  held (holding m) = m ∷ []
  held _ = []

  unfoldable pub act : M → Action M → Subscriber M → Option (Subscriber M)
  act default (arrives m) s = some (enqueue m s)
  act default spins s = spin s
  act default spinner_goes s = spinner_step s
  act default spins_once s = some (spin_once default s)
  act default disconnects s = some (disconnect s)

  abbrev pub arrived : Action M → List M
  arrived (arrives m) = m ∷ []
  arrived _ = []

  -- A user who has started the spinning thread does not call `spinOnce` as well.
  abbrev pub Proper : Action M → Subscriber M → Type ℓ
  Proper spins_once s = s.spinner ≡ not_started
  Proper _ s = Unit {ℓ}

  -- A subscriber after some actions, with the messages that have arrived.
  pub data Reach (default : M) : List M → Subscriber M → Type ℓ where
    start : (queue_size : ℕ) → Reach default [] (new_subscriber queue_size)
    next :
        {messages : List M} {s s' : Subscriber M} (a : Action M)
        → Reach default messages s
        → Proper a s
        → act default a s ≡ some s'
        → Reach default (messages ++ arrived a) s'
