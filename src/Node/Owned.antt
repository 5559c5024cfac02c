-- ===== src/Node/Owned.antt =====
-- The destructors of include/mros/publisher.hpp and include/mros/subscriber.hpp, which stop the
-- threads and then tell the node. The node may be gone: its weak pointer is then empty.
pub mod Destroyed
mod Tests
use mros_w24_solution.Common.{String, Bool, List, Option, none, some, ◌>>=◌}
use mros_w24_solution.Json.{JsonLib}
use mros_w24_solution.Publisher
use mros_w24_solution.Publisher.{Publisher, Accepted}
use mros_w24_solution.Publisher.Ends.{accept_all}
use mros_w24_solution.Subscriber.{Subscriber, shut_down}
use mros_w24_solution.Subscriber.Spinning.{run_spinner}
use mros_w24_solution.Node.{Node, remove_publisher_by_topic, remove_subscriber_by_topic}

module _ ⦃json : JsonLib⦄ where
  -- The end of either destructor: the node is told if it is still there.
  pub tell : (Node → Node) → Option Node → Option Node
  tell remove none = none
  tell remove (some n) = some (remove n)

  module _ {ℓ} {M : Type ℓ} where
    -- `~Publisher`. While it joins the accepting thread, the thread goes on with what each call of
    -- `acceptConnection` gives.
    pub destroy_publisher :
        String → List Accepted → Publisher M × Option Node → Option (Publisher M × Option Node)
    unfolding Publisher.disconnect tell
    destroy_publisher topic results (p, node) = do
      p' ← accept_all results (Publisher.disconnect p)
      some (p', tell (remove_publisher_by_topic topic) node)

    -- `~Subscriber`, from where it has joined the receiving thread. The spinning thread takes three
    -- steps at most.
    pub destroy_subscriber : String → M → Subscriber M × Option Node → Subscriber M × Option Node
    unfolding tell
    destroy_subscriber topic default (s, node) =
        (run_spinner 3 (shut_down default s), tell (remove_subscriber_by_topic topic) node)
