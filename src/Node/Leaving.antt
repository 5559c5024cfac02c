-- ===== src/Node/Leaving.antt =====
-- How a node of include/mros/node.hpp and src/mros/node.cpp lets go of its publishers and subscribers.
use mros_w24_solution.Common.{
  ℕ, String, Bool, none, if◌then◌else◌, ◌≡◌, arith, ◌==◌, Bool-cases, inl, inr,
}
use mros_w24_solution.Containers.Table.{lookup, lookup-assign, lookup-erase}
use mros_w24_solution.Json.{JsonLib}
use mros_w24_solution.Node.{Node, create_subscriber, remove_subscriber_by_topic, disconnect}

module _ ⦃json : JsonLib⦄ where
  -- A second `disconnect` does nothing, whatever exists by then: the closing callback and ctrl+C may
  -- both call it.
  pub disconnect-disconnect :
      (alive alive' : ℕ → Bool) (n : Node)
      → disconnect alive' (disconnect alive n) ≡ disconnect alive n
  unfolding disconnect
  disconnect-disconnect alive alive' n = elim (Bool-cases n.connected) [
    | inl on ↦ simp on
    | inr off ↦ simp off
  ]

  -- A subscriber that is removed is out of the table, and the others stay.
  pub remove_subscriber_by_topic-create_subscriber :
      (topic other : String) (x : ℕ) (n : Node)
      → lookup other (remove_subscriber_by_topic topic (create_subscriber topic x n)).subscribers
        ≡ (if topic == other then none else lookup other n.subscribers)
  unfolding remove_subscriber_by_topic create_subscriber
  remove_subscriber_by_topic-create_subscriber topic other x n =
      simp (lookup-erase, lookup-assign) (ground arith)
