-- ===== src/Subscriber/Tests.antt =====
-- A subscriber with a queue of one message: four messages arrive before the spinning thread starts.
use mros_w24_solution.Common.{
  ℕ, String, ℤ, List, ◌+◌, ◌≤◌, [], ◌∷◌, Option, none, some, ◌≡◌, refl, length, if◌then◌else◌,
}
use mros_w24_solution.Containers.Table.{lookup}
use mros_w24_solution.Subscriber.{
  Subscriber, message, lost, new_subscriber, limit, enqueue, spin, spinner_step, Received,
  receive_while_connecting,
}
use mros_w24_solution.Subscriber.Queue.{length-enqueue, is_lost}
use mros_w24_solution.Subscriber.Connecting.{
  first_made, or_else, receive_while_connecting-connections,
}
use mros_w24_solution.Subscriber.InOrder.{InOrder}
use mros_w24_solution.Subscriber.Actions.{spins, spinner_goes, act, Reach, start, next}
use mros_w24_solution.Subscriber.Spinning.{Reach-awake}

abbrev taken : Option (Subscriber ℕ) → Subscriber ℕ
taken none = new_subscriber 1
taken (some s) = s

abbrev full : Subscriber ℕ
full = enqueue 13 (enqueue 12 (enqueue 11 (enqueue 10 (new_subscriber 1))))

-- The first message is dropped with the fourth.
full_queue : full.message_queue ≡ 11 ∷ 12 ∷ 13 ∷ []
unfolding enqueue
full_queue = refl

length-enqueue_example : length (enqueue 14 full).message_queue ≤ limit full.queue_size + 1
length-enqueue_example = length-enqueue 14 full

abbrev spinning : Subscriber ℕ
spinning = taken (spin full)

abbrev tested : Subscriber ℕ
tested = taken (spinner_step spinning)

abbrev with_message : Subscriber ℕ
with_message = taken (spinner_step tested)

abbrev called : Subscriber ℕ
called = taken (spinner_step with_message)

abbrev waiting : Subscriber ℕ
waiting = taken (spinner_step (taken (spinner_step (taken (spin (new_subscriber 1))))))

waiting-Reach : Reach 0 [] waiting
unfolding act spin spinner_step
waiting-Reach = next spinner_goes (next spinner_goes (next spins (start 1) tt refl) tt refl) tt refl

waiting_waits : spinner_step waiting ≡ none
unfolding spin spinner_step
waiting_waits = refl

Reach-awake_example : waiting.message_queue ≡ []
unfolding spin spinner_step
Reach-awake_example = Reach-awake waiting-Reach refl waiting_waits

abbrev connected_twice : Subscriber ℕ
connected_twice = record (new_subscriber 1) {
  publisher_connections = ("http://10.0.0.1:80", 3) ∷ ("b", 4) ∷ [];
}

-- The publisher at 10.0.0.1 is lost while a new one is connected there, which goes with it.
abbrev connects : List (String × (ℤ × Option ℕ))
connects = ("10.0.0.1", (ℤ.pos 80, some 5)) ∷ ("10.0.0.2", (ℤ.pos 80, some 6)) ∷ []

abbrev results : List (String × Received ℕ)
results = ("http://10.0.0.1:80", lost) ∷ ("b", message 5) ∷ []

receive_while_connecting-connections_example :
    lookup "http://10.0.0.1:80"
      (receive_while_connecting results connects connected_twice).publisher_connections
    ≡ (if is_lost "http://10.0.0.1:80" results
        then none
        else or_else
            (lookup "http://10.0.0.1:80" connected_twice.publisher_connections)
            (first_made "http://10.0.0.1:80" connects))
receive_while_connecting-connections_example =
    receive_while_connecting-connections "http://10.0.0.1:80" results connects connected_twice
