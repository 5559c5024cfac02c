-- ===== src/Node/Tests.antt =====
-- A node with a subscriber and two publishers.
use mros_w24_solution.Common.{
  String, ℤ, true, false, [], ◌∷◌, none, some, ◌≡◌, refl, arith, ◌⊎◌, ◌↔◌, if◌then◌else◌, ◌==◌,
}
use mros_w24_solution.Containers.Table.{lookup}
use mros_w24_solution.Json.{Json}
use mros_w24_solution.Json.Sample.{tree_json}
use mros_w24_solution.Rpc.{receive_round, request_message}
use mros_w24_solution.Mediator.{Mediator, AddressPort, init, register, add_publisher}
use mros_w24_solution.Mediator.Callbacks.{callbacks}
use mros_w24_solution.Mediator.Registry.{Registry, Represents, no_nodes, connect, publish}
use mros_w24_solution.Mediator.Refines.{init-Represents, register-Represents}
use mros_w24_solution.Mediator.Publishing.{add_publisher-total, add_publisher-Represents}
use mros_w24_solution.Node.{
  Node, new_node, create_subscriber, remove_subscriber_by_topic, disconnect, node_callbacks,
}
use mros_w24_solution.Node.Discovery.{Connects, create_subscriber-Connects}
use mros_w24_solution.Node.Leaving.{
  disconnect-disconnect, remove_subscriber_by_topic-create_subscriber,
}

abbrev talker_address : AddressPort
talker_address = record { host = "127.0.0.1"; port = ℤ.pos 6000 }

abbrev empty_node : Node
empty_node = new_node true true

talker_on : Represents (register "talker" 1 init) (connect "talker" 1 no_nodes)
talker_on = register-Represents init-Represents "talker" 1

with_talker :
    (m : Mediator) × (add_publisher "talker" "chat" talker_address (register "talker" 1 init)
      ≡ some m)
with_talker =
    add_publisher-total talker_on "talker" "chat" talker_address (λ n h. absurd (ground (arith, h)))

abbrev amount : Registry
amount = publish "talker" "chat" talker_address (connect "talker" 1 no_nodes)

with_talker-Represents : Represents with_talker.0 amount
with_talker-Represents =
    add_publisher-Represents talker_on "talker" "chat" talker_address with_talker.0 with_talker.1

create_subscriber-Connects_example :
    (message j : Json) × (m' : Mediator) × (n' : Node) × ((create_subscriber "chat" 8
        empty_node).sent
      ≡ message ∷ empty_node.sent)
    × (receive_round (callbacks "listener" 2) (tree_json.object []) (some message) with_talker.0
        ≡ some (m', true))
    × (m'.sent
        ≡ record { connection = 2; callback_name = "connectSubscriberToPublishers"; argument = j }
          ∷ with_talker.0.sent)
    × (receive_round
          (node_callbacks (λ x. true))
          (tree_json.object [])
          (some (request_message "connectSubscriberToPublishers" j))
          (create_subscriber "chat" 8 empty_node)
        ≡ some (n', true))
    × ((a : AddressPort)
        → Connects 8 a n'.connections ↔ (
            Connects 8 a empty_node.connections
            ⊎ ((p : String) × (amount.publisher p "chat" ≡ some a))))
create_subscriber-Connects_example =
    create_subscriber-Connects with_talker-Represents "listener" "chat" 2 8 (λ x. true) empty_node
      refl

disconnected_twice :
    disconnect (λ x. false) (disconnect (λ x. true) (create_subscriber "chat" 8 empty_node))
    ≡ disconnect (λ x. true) (create_subscriber "chat" 8 empty_node)
disconnected_twice =
    disconnect-disconnect (λ x. true) (λ x. false) (create_subscriber "chat" 8 empty_node)

subscriber_removed :
    lookup "chat"
      (remove_subscriber_by_topic "chat" (create_subscriber "chat" 8 empty_node)).subscribers
    ≡ (if "chat" == "chat" then none else lookup "chat" empty_node.subscribers)
subscriber_removed = remove_subscriber_by_topic-create_subscriber "chat" "chat" 8 empty_node
