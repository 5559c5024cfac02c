-- ===== src/Node/Spin.antt =====
-- `spin`, `spinOnce` and `disconnect` of src/mros/node.cpp as the steps of two threads: the user thread
-- that spins and waits, and a thread that disconnects the node. The subscribers are objects of their
-- own, found by number.
pub mod Released
mod Tests
use mros_w24_solution.Common.{
  ℕ, String, Bool, true, false, List, [], ◌∷◌, Option, none, some, ◌>>=◌, ◌||◌, nat_eq,
  if◌then◌else◌,
}
use mros_w24_solution.Subscriber
use mros_w24_solution.Subscriber.{Subscriber}

-- The user thread: before `spin`, before the test of the condition, between the test and the wait, in
-- the wait, after `spin`.
pub data User : Type 0 where
  before_spin at_test about_to_wait asleep after_spin : User

-- The disconnecting thread: before the flag, between the flag and the notice, after the notice.
pub data Leaver : Type 0 where
  before_leaving flag_cleared after_leaving : Leaver

-- `notify_all` on the thread that waits
abbrev woken : User → User
woken asleep = at_test
woken user = user

abbrev is_about_to_wait : User → Bool
is_about_to_wait about_to_wait = true
is_about_to_wait _ = false

abbrev Store : Type 0 → Type 0
Store M = ℕ → Subscriber M

-- The flag of the node, the two threads, and whether the notice has come while the user thread was
-- between its test and its wait.
pub record Spinning (M : Type 0) : Type 0 where
  pub connected : Bool
  pub subscribers : List (String × ℕ)
  pub store : Store M
  pub user : User
  pub leaver : Leaver
  pub missed : Bool

module _ {M : Type 0} where
  abbrev store_at : ℕ → Subscriber M → Store M → Store M
  store_at x s store = λ y. if nat_eq x y then s else store y

  -- The loop of `spin`. `none` ends the program: a subscriber that spins is spun again.
  pub spin_all : (ℕ → Bool) → List (String × ℕ) → Store M → Option (Store M)
  spin_all alive [] store = some store
  spin_all alive ((topic, x) ∷ subscribers) store = do
    store' ←
        if alive x
        then Subscriber.spin (store x) >>= (λ s. some (store_at x s store))
        else some store
    spin_all alive subscribers store'

  -- `spinOnce`
  pub spin_all_once : M → (ℕ → Bool) → List (String × ℕ) → Store M → Store M
  spin_all_once default alive [] store = store
  spin_all_once default alive ((topic, x) ∷ subscribers) store =
      spin_all_once default alive subscribers
        (if alive x then store_at x (Subscriber.spin_once default (store x)) store else store)

  user_step_at : User → (ℕ → Bool) → Spinning M → Option (Spinning M)
  unfolding spin_all
  user_step_at before_spin alive s = do
    store ← spin_all alive s.subscribers s.store
    some (record s { store = store; user = at_test })
  user_step_at at_test alive s =
      some (record s { user = if s.connected then about_to_wait else after_spin })
  user_step_at about_to_wait alive s = some (record s { user = asleep })
  user_step_at asleep alive s = none
  user_step_at after_spin alive s = none

  -- A step of the user thread.
  pub user_step : (ℕ → Bool) → Spinning M → Option (Spinning M)
  unfolding user_step_at
  user_step alive s = user_step_at s.user alive s

  -- A wait may end without a notice.
  wake_at : User → Spinning M → Option (Spinning M)
  wake_at asleep s = some (record s { user = at_test })
  wake_at _ s = none

  pub wake : Spinning M → Option (Spinning M)
  unfolding wake_at
  wake s = wake_at s.user s

  disconnect_all : (ℕ → Bool) → List (String × ℕ) → Store M → Store M
  disconnect_all alive [] store = store
  disconnect_all alive ((topic, x) ∷ subscribers) store =
      disconnect_all alive subscribers
        (if alive x then store_at x (Subscriber.disconnect (store x)) store else store)

  leaver_step_at : Leaver → (ℕ → Bool) → Spinning M → Option (Spinning M)
  unfolding disconnect_all
  leaver_step_at before_leaving alive s = some (
      if s.connected
      then record s { connected = false; leaver = flag_cleared }
      else record s { leaver = after_leaving })
  leaver_step_at flag_cleared alive s = some (record s {
    store = disconnect_all alive s.subscribers s.store;
    user = woken s.user;
    leaver = after_leaving;
    missed = s.missed || is_about_to_wait s.user;
  })
  leaver_step_at after_leaving alive s = none

  -- A step of `disconnect`: the flag; then the subscribers and the notice.
  pub leaver_step : (ℕ → Bool) → Spinning M → Option (Spinning M)
  unfolding leaver_step_at
  leaver_step alive s = leaver_step_at s.leaver alive s
