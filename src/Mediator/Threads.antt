-- ===== src/Mediator/Threads.antt =====
-- The handlers of src/mediator/mediator.cpp in many threads: each connection has its receiving thread,
-- which runs one handler at a time, and the threads take turns between the locked parts of their
-- handlers. A step is one locked part, or a send that follows it.
pub mod Keeps
pub mod Agree
pub mod Busy
pub mod Steps
pub mod Schedules
mod Tests
use mros_w24_solution.Common.{
  String, ℕ, Bool, true, false, not, ◌&&◌, ◌||◌, Option, none, some, ◌>>=◌, ◌==◌, if◌then◌else◌,
}
use mros_w24_solution.Containers.NameSet.{NameSet}
use mros_w24_solution.Json.{JsonLib, Json}
use mros_w24_solution.Mediator.{
  Mediator, AddressPort, init, register, add_node, publish_topic, publish_node, subscribe_topic,
  subscribe_node, unpublish_topic, unpublish_node, unsubscribe_topic, unsubscribe_node,
  leave_topics, leave_nodes,
}
use mros_w24_solution.Mediator.Serve.{Call, publishes, subscribes, unpublishes, unsubscribes, reply}

module _ ⦃json : JsonLib⦄ where
  -- What is left of the handler that the receiving thread of a node is in, with the variables that
  -- it holds.
  pub data Pending : Type 0 where
    idle leaving : Pending
    publishing : String → AddressPort → NameSet → Pending
    subscribing : ℕ → String → NameSet → Pending
    replying : ℕ → Json → Pending
    unpublishing unsubscribing : String → Pending

  pub record World : Type 0 where
    pub mediator : Mediator
    pub pending : String → Pending

  abbrev pub initial : World
  initial = record { mediator = init; pending = λ n. idle }

  -- The world after a part of a handler of the node.
  abbrev pub then_in : String → Pending → Mediator → World → World
  then_in uri p m w = record { mediator = m; pending = λ n. if uri == n then p else w.pending n }

  begin_in : Pending → String → ℕ → Call → World → Option World
  unfolding publish_topic subscribe_topic
  begin_in idle uri c (publishes topic a) w =
      let (nodes, m) = publish_topic uri topic w.mediator in
      some (then_in uri (publishing topic a nodes) m w)
  begin_in idle uri c (subscribes topic) w =
      let (nodes, m) = subscribe_topic uri topic w.mediator in
      some (then_in uri (subscribing c topic nodes) m w)
  begin_in idle uri c (unpublishes topic) w =
      some (then_in uri (unpublishing topic) (unpublish_topic uri topic w.mediator) w)
  begin_in idle uri c (unsubscribes topic) w =
      some (then_in uri (unsubscribing topic) (unsubscribe_topic uri topic w.mediator) w)
  begin_in _ uri c call w = none

  -- The part of a handler under the lock of the topic table, once the thread is free.
  pub begin : String → ℕ → Call → World → Option World
  unfolding begin_in
  begin uri c call w = begin_in (w.pending uri) uri c call w

  begin_closing_in : Pending → String → World → Option World
  begin_closing_in idle uri w = some (then_in uri leaving (leave_topics uri w.mediator) w)
  begin_closing_in _ uri w = none

  pub begin_closing : String → World → Option World
  unfolding begin_closing_in
  begin_closing uri w = begin_closing_in (w.pending uri) uri w

  go_on_in : Pending → String → World → Option World
  unfolding publish_node subscribe_node leave_nodes
  go_on_in idle uri w = none
  go_on_in (publishing topic a nodes) uri w =
      publish_node uri topic a nodes w.mediator >>= λ m. some (then_in uri idle m w)
  go_on_in (subscribing c topic nodes) uri w =
      let (j, m) = subscribe_node uri topic nodes w.mediator in
      some (then_in uri (replying c j) m w)
  go_on_in (replying c j) uri w = some (then_in uri idle (reply c (j, w.mediator)) w)
  go_on_in (unpublishing topic) uri w =
      some (then_in uri idle (unpublish_node uri topic w.mediator) w)
  go_on_in (unsubscribing topic) uri w =
      some (then_in uri idle (unsubscribe_node uri topic w.mediator) w)
  go_on_in leaving uri w = leave_nodes uri w.mediator >>= λ m. some (then_in uri idle m w)

  -- The part under the lock of the node table, or the reply after it.
  pub go_on : String → World → Option World
  unfolding go_on_in
  go_on uri w = go_on_in (w.pending uri) uri w

  -- The accepting loop enters a connection, and then the name; a thread begins a handler; a thread
  -- goes on with its handler.
  pub data Action : Type 0 where
    registers : String → ℕ → Action
    names : String → String → Action
    begins : String → ℕ → Call → Action
    begins_closing : String → ℕ → Action
    goes_on : String → Action

  pub step : Action → World → Option World
  unfolding begin begin_closing go_on
  step (registers uri c) w = some (record w { mediator = register uri c w.mediator })
  step (names uri name) w = some (record w { mediator = add_node uri name w.mediator })
  step (begins uri c call) w = begin uri c call w
  step (begins_closing uri c) w = begin_closing uri w
  step (goes_on uri) w = go_on uri w
