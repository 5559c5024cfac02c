-- ===== src/Mediator/Threads/Tests.antt =====
-- Overlapping handlers at concrete nodes: a talker publishes while a listener subscribes, and a
-- listener leaves while a talker publishes.
use mros_w24_solution.Common.{ℤ, some, none, ◌≡◌, ◌⊎◌, refl, is_some}
use mros_w24_solution.Containers.NameSet.{contains, insert}
use mros_w24_solution.Containers.Table.{lookup, assign, at, modify}
use mros_w24_solution.Json.Sample.{tree_json}
use mros_w24_solution.Mediator.{
  AddressPort, register, notify, publish_topic, publish_node, subscribe_topic, subscribe_node,
  addresses_of, leave_topics, leave_nodes, forget_publisher, forget_subscriber, close_connection,
  send_request,
}
use mros_w24_solution.Containers.NameSet
use mros_w24_solution.Containers.Table
use mros_w24_solution.Mediator.Views.{
  publishes as publishes_on, subscribes as subscribes_to, subscribed, address, connection,
}
use mros_w24_solution.Mediator.Serve.{publishes, subscribes}
use mros_w24_solution.Mediator.Registry.{Registry, no_nodes}
use mros_w24_solution.Mediator.Threads.{
  World, initial, begin, begin_in, begin_closing, begin_closing_in, go_on, go_on_in, Action,
  registers, begins, begins_closing, goes_on, step,
}
use mros_w24_solution.Mediator.Threads.Agree.{record_action}
use mros_w24_solution.Mediator.Threads.Steps.{Permitted}
use mros_w24_solution.Mediator.Threads.Schedules.{
  Reach, start, next, Left, Reach-tables, Reach-goes_on,
}

abbrev chat_address : AddressPort
chat_address = record { host = "127.0.0.1"; port = ℤ.pos 6000 }

-- The worlds and registries that actions lead to.
abbrev Scene : Type 0
Scene = (w : World) × (r : Registry) × Reach w r

abbrev then_act :
    (s : Scene) (a : Action) (w : World) → Permitted a s.1 → step a s.0 ≡ some w → Scene
then_act s a w allowed done = (w, record_action a s.0 s.1, next a s.2 allowed done)

both_on : Scene
unfolding step register
both_on =
    then_act (then_act (initial, no_nodes, start) (registers "listener" 2) _ tt refl)
      (registers "talker" 1) _ tt refl

-- The talker is in both tables, the listener only in the topic table yet.
overlapping : Scene
unfolding both_on step register begin begin_in go_on go_on_in publish_topic publish_node notify
    send_request subscribe_topic subscribe_node addresses_of at modify lookup assign contains insert
overlapping =
    then_act
      (then_act (then_act both_on (begins "talker" 1 (publishes "chat" chat_address)) _ refl refl)
        (goes_on "talker") _ tt refl)
      (begins "listener" 2 (subscribes "chat")) _ refl refl

-- The listener subscribes, the talker copies the list of subscribers, and the listener leaves.
left_behind : Scene
unfolding both_on step register begin begin_in begin_closing begin_closing_in go_on go_on_in
    publish_topic publish_node notify send_request subscribe_topic subscribe_node addresses_of at
    modify lookup assign contains insert leave_topics leave_nodes forget_publisher forget_subscriber
    close_connection NameSet.erase Table.erase
left_behind =
    then_act
      (then_act
        (then_act
          (then_act
            (then_act (then_act both_on (begins "listener" 2 (subscribes "chat")) _ refl refl)
              (goes_on "listener") _ tt refl)
            (goes_on "listener") _ tt refl)
          (begins "talker" 1 (publishes "chat" chat_address)) _ refl refl)
        (begins_closing "listener" 2) _ refl refl)
      (goes_on "listener") _ tt refl

-- The call through the null pointer.
left_behind_stops : step (goes_on "talker") left_behind.0 ≡ none
unfolding left_behind both_on step register begin begin_in begin_closing begin_closing_in go_on
    go_on_in
left_behind_stops = refl

Reach-tables_example :
    (publishes_on overlapping.0.mediator "talker" "chat"
      ≡ is_some (overlapping.1.publisher "talker" "chat"))
    × (subscribes_to overlapping.0.mediator "talker" "chat"
        ≡ overlapping.1.subscriber "talker" "chat")
    × (subscribed overlapping.0.mediator "talker" "chat" ≡ overlapping.1.subscriber "talker" "chat")
    × (connection overlapping.0.mediator "talker" ≡ overlapping.1.connection "talker")
    × ((a : AddressPort)
        → overlapping.1.publisher "talker" "chat" ≡ some a
        → address overlapping.0.mediator "talker" "chat" ≡ some a)
unfolding overlapping both_on step register begin begin_in go_on go_on_in publish_topic publish_node
    notify send_request subscribe_topic subscribe_node addresses_of at modify lookup assign contains
    insert
Reach-tables_example = Reach-tables overlapping.2 "talker" refl "chat"

Reach-goes_on_example :
    ((w : World) × (step (goes_on "talker") left_behind.0 ≡ some w))
    ⊎ Left (left_behind.0.pending "talker") left_behind.1
unfolding left_behind both_on step register begin begin_in begin_closing begin_closing_in go_on
    go_on_in
Reach-goes_on_example = Reach-goes_on left_behind.2 "talker" refl
