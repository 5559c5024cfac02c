-- ===== src/Node/Spin/Tests.antt =====
-- A node with one subscriber that spins and is disconnected, in two orders.
use mros_w24_solution.Common.{ℕ, Bool, true, false, [], ◌∷◌, none, ◌≡◌, refl}
use mros_w24_solution.Subscriber
use mros_w24_solution.Subscriber.{new_subscriber}
use mros_w24_solution.Node.Spin.{
  Spinning, before_spin, after_spin, before_leaving, after_leaving, user_step, user_step_at,
  leaver_step, leaver_step_at, spin_all, disconnect_all,
}
use mros_w24_solution.Node.Spin.Released.{
  Reach, start, by_user, by_leaver, Released, Reach-Released,
}

abbrev all_alive : ℕ → Bool
all_alive x = true

abbrev node : Spinning ℕ
node = record {
  connected = true;
  subscribers = ("chat", 3) ∷ [];
  store = λ x. new_subscriber 10;
  user = before_spin;
  leaver = before_leaving;
  missed = false;
}

abbrev Scene : Type 0
Scene = (s : Spinning ℕ) × Reach s

-- The user thread waits, and the notice wakes it.
woken_in_time : Scene
unfolding user_step user_step_at leaver_step leaver_step_at spin_all disconnect_all Subscriber.spin
    Subscriber.spin_at
woken_in_time = (
  _,
  by_leaver all_alive
      (by_leaver all_alive
        (by_user all_alive
          (by_user all_alive (by_user all_alive (start {s = node} (refl, refl, refl, refl)) refl)
            refl)
          refl)
        refl)
      refl,
)

-- The notice comes between the test and the wait.
too_late : Scene
unfolding user_step user_step_at leaver_step leaver_step_at spin_all disconnect_all Subscriber.spin
    Subscriber.spin_at
too_late = (
  _,
  by_user all_alive
      (by_leaver all_alive
        (by_leaver all_alive
          (by_user all_alive (by_user all_alive (start {s = node} (refl, refl, refl, refl)) refl)
            refl)
          refl)
        refl)
      refl,
)

-- Then the user thread waits, and neither thread takes a step.
too_late_waits : (user_step all_alive too_late.0 ≡ none) × (leaver_step all_alive too_late.0 ≡ none)
unfolding too_late user_step user_step_at leaver_step leaver_step_at spin_all disconnect_all
    Subscriber.spin Subscriber.spin_at
too_late_waits = (refl, refl)

Reach-Released_example :
    (woken_in_time.0.user ≡ after_spin → woken_in_time.0.connected ≡ false)
    × (woken_in_time.0.leaver ≡ after_leaving
        → woken_in_time.0.missed ≡ false
        → Released woken_in_time.0.user all_alive woken_in_time.0)
Reach-Released_example = Reach-Released woken_in_time.1 all_alive
