-- ===== src/OldMediator/Tests.antt =====
-- Requests to the mediator of src/mediator/mediator_old.cpp at concrete registrations.
use mros_w24_solution.Common.{ℤ, Bool, ◌&&◌, ◌==◌, true, [], some, none, ◌≡◌, refl}
use mros_w24_solution.Containers.Table.{lookup, modify}
use mros_w24_solution.Json.Sample.{tree_json}
use mros_w24_solution.Rpc.{Callbacks, request_message, request_response_message, receive_round}
use mros_w24_solution.OldMediator.{
  Registration, TopicType, int_eq, OldMediator, new_mediator, ready, removed, add_subscriber,
  add_publisher, remove_subscriber, remove_publisher, callbacks,
}
use mros_w24_solution.OldMediator.Wire.{registration_message, receive_round-registration}

abbrev same_registration : Registration → Registration → Bool
same_registration g h =
    g.host == h.host
    && (int_eq g.port h.port && (g.topic_name == h.topic_name && g.message_name == h.message_name))

-- The four values themselves.
instance abbrev registration_topics : TopicType
registration_topics = record { Topic = Registration; topic = λ g. g; same = same_registration }

-- A connection whose requests are dropped.
abbrev no_socket : Callbacks OldMediator
no_socket = record {
  request_callbacks = [];
  request_response_callbacks = [];
  closing_callback = none;
  send_request = λ name argument m. m;
}

abbrev lidar : Registration
lidar = record { topic_name = "scan"; host = "10.0.0.1"; port = ℤ.pos 4000; message_name = "Scan" }

abbrev camera : Registration
camera = record { topic_name = "scan"; host = "10.0.0.2"; port = ℤ.pos 4000; message_name = "Scan" }

-- A removal answers how many of the subscriptions were the same.
two_removed :
    (remove_subscriber lidar
      (add_subscriber lidar (add_subscriber camera (add_subscriber lidar new_mediator).1).1).1).0
    ≡ removed 2
unfolding add_subscriber remove_subscriber lookup modify
two_removed = refl

receive_round-registration_example :
    let s = callbacks no_socket in
    (receive_round s
        (tree_json.object [])
        (some (request_message "publish" (registration_message lidar)))
        new_mediator
      ≡ some ((add_publisher lidar new_mediator).1, true))
    × (receive_round s
          (tree_json.object [])
          (some (request_message "unpublish" (registration_message lidar)))
          new_mediator
        ≡ some ((remove_publisher lidar new_mediator).1, true))
    × (receive_round s
          (tree_json.object [])
          (some (request_message "unsubscribe" (registration_message lidar)))
          new_mediator
        ≡ some ((remove_subscriber lidar new_mediator).1, true))
    × (receive_round s
          (tree_json.object [])
          (some (request_response_message "subscribe" (registration_message lidar) "ready"))
          new_mediator
        ≡ some (no_socket.send_request "ready" ready (add_subscriber lidar new_mediator).1, true))
receive_round-registration_example =
    receive_round-registration no_socket lidar "ready" new_mediator refl refl
