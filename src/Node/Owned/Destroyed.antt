-- ===== src/Node/Owned/Destroyed.antt =====
-- What the destructors of include/mros/publisher.hpp and include/mros/subscriber.hpp leave.
use mros_w24_solution.Common.{ℕ, String, false, List, [], ◌∷◌, Option, some, ◌≡◌, ◌≢◌, refl}
use mros_w24_solution.Json.{JsonLib}
use mros_w24_solution.Publisher.{Publisher, Accepted, failed}
use mros_w24_solution.Publisher.Schedules.{Reach}
use mros_w24_solution.Publisher.Ends.{over, Reach-over}
use mros_w24_solution.Subscriber.{Subscriber}
use mros_w24_solution.Subscriber.Spinning.{is_running, shut_down-stops}
use mros_w24_solution.Node.{Node, remove_publisher_by_topic}
use mros_w24_solution.Node.Owned.{tell, destroy_publisher, destroy_subscriber}

module _ {ℓ} {M : Type ℓ} ⦃json : JsonLib⦄ where
  -- Whatever the threads of a publisher have done, its destructor ends, if the call of
  -- `acceptConnection` that is under way does not throw: the accepting thread takes five steps at
  -- most, after which it has ended, the server is closed and no connection is left, and the node, if
  -- it is still there, has been told. Nothing more has been sent.
  pub destroy_publisher-over :
      {messages : List M} {used : List ℕ} {p : Publisher M} (topic : String) (a b c d e : Accepted)
      (owner : Option Node)
      → Reach messages used p
      → a ≢ failed
      → destroy_publisher topic (a ∷ b ∷ c ∷ d ∷ e ∷ []) (p, owner)
        ≡ some (over p, tell (remove_publisher_by_topic topic) owner)
  unfolding destroy_publisher
  destroy_publisher-over {p = p} topic a b c d e owner r runs =
      rw (Reach-over a b c d e r runs) refl

  -- The destructor of a subscriber, once the receiving thread has ended: within three steps no
  -- spinning thread runs, whatever it was at, and the callback is not called any more.
  pub destroy_subscriber-stops :
      (topic : String) (default : M) (s : Subscriber M) (owner : Option Node)
      → let s' = (destroy_subscriber topic default (s, owner)).0 in
        (is_running s'.spinner ≡ false) × (s'.calls ≡ s.calls)
  unfolding destroy_subscriber
  destroy_subscriber-stops topic default s owner = shut_down-stops default s
