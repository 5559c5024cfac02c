-- ===== src/Mediator/Serve.antt =====
-- The mediator of src/mediator/mediator.cpp at work: nodes connect, call and close, and each call
-- reaches its handler through the receiving thread of the node's connection. The requests are those
-- that include/mros/node.hpp and src/mros/node.cpp send. Here a handler runs to its end before the
-- next one starts.
use mros_w24_solution.Common.{String, ℕ, [], ◌∷◌, Option, some, ◌≡◌, refl, ap, ◌∙◌}
use mros_w24_solution.Containers.Table.{lookup, assign}
use mros_w24_solution.Json.{JsonLib, Json}
use mros_w24_solution.Rpc.{request_message, request_response_message, receive_round}
use mros_w24_solution.Rpc.Dispatch.{receive_round-request, receive_round-request_response, go_on}
use mros_w24_solution.Mediator.{
  Mediator, AddressPort, add_node, add_publisher, add_subscriber, remove_publisher,
  remove_subscriber,
}
use mros_w24_solution.Mediator.Callbacks.{
  with_uri, no_callbacks, callbacks, connecting_callback, json_add_node_callback,
  json_add_publisher_callback, json_add_subscriber_callback, json_remove_publisher_callback,
  json_remove_subscriber_callback,
}

-- What a node asks of the mediator over its connection.
pub data Call : Type 0 where
  publishes : String → AddressPort → Call
  subscribes unpublishes unsubscribes : String → Call

module _ ⦃json : JsonLib⦄ where
  open json use {
    string, int, object, find, put, get_string, get_int, find-object, put-object, get_string-string,
    get_int-int,
  }

  abbrev topic_message : String → Json
  topic_message topic = object (("topic_name", string topic) ∷ [])

  abbrev publisher_message : String → AddressPort → Json
  publisher_message topic a =
      object (("topic_name", string topic) ∷ ("address", string a.host) ∷ ("port", int a.port) ∷ [])

  -- The messages that `createPublisher`, `createSubscriber`, `removePublisherByTopic` and
  -- `removeSubscriberByTopic` of the node send.
  abbrev pub call_message : Call → Json
  call_message (publishes topic a) = request_message "addPublisher" (publisher_message topic a)
  call_message (subscribes topic) =
      request_response_message "addSubscriber" (topic_message topic) "connectSubscriberToPublishers"
  call_message (unpublishes topic) = request_message "removePublisher" (topic_message topic)
  call_message (unsubscribes topic) = request_message "removeSubscriber" (topic_message topic)

  -- The reply to a new subscriber goes out on its own connection.
  abbrev pub reply : ℕ → Json × Mediator → Mediator
  reply c (j, m) = (no_callbacks c).send_request "connectSubscriberToPublishers" j m

  -- What the call does to the mediator.
  abbrev pub effect : String → ℕ → Call → Mediator → Option Mediator
  effect uri c (publishes topic a) m = add_publisher uri topic a m
  effect uri c (subscribes topic) m = some (reply c (add_subscriber uri topic m))
  effect uri c (unpublishes topic) m = some (remove_publisher uri topic m)
  effect uri c (unsubscribes topic) m = some (remove_subscriber uri topic m)

  add_publisher_callback_lem :
      (uri topic : String) (a : AddressPort) (m : Mediator)
      → with_uri uri json_add_publisher_callback (publisher_message topic a) m
        ≡ add_publisher uri topic a m
  unfolding with_uri json_add_publisher_callback lookup assign
  add_publisher_callback_lem uri topic a m =
      simp (find-object, put-object, get_string-string, get_int-int)

  add_subscriber_callback_lem :
      (uri topic : String) (m : Mediator)
      → with_uri uri json_add_subscriber_callback (topic_message topic) m
        ≡ some (add_subscriber uri topic m)
  unfolding with_uri json_add_subscriber_callback lookup assign
  add_subscriber_callback_lem uri topic m = simp (find-object, put-object, get_string-string)

  remove_publisher_callback_lem :
      (uri topic : String) (m : Mediator)
      → with_uri uri json_remove_publisher_callback (topic_message topic) m
        ≡ some (remove_publisher uri topic m)
  unfolding with_uri json_remove_publisher_callback lookup assign
  remove_publisher_callback_lem uri topic m = simp (find-object, put-object, get_string-string)

  remove_subscriber_callback_lem :
      (uri topic : String) (m : Mediator)
      → with_uri uri json_remove_subscriber_callback (topic_message topic) m
        ≡ some (remove_subscriber uri topic m)
  unfolding with_uri json_remove_subscriber_callback lookup assign
  remove_subscriber_callback_lem uri topic m = simp (find-object, put-object, get_string-string)

  pub connecting_callback_lem :
      (uri name : String) (m : Mediator)
      → connecting_callback uri (object (("node_name", string name) ∷ [])) m
        ≡ some (add_node uri name m)
  unfolding connecting_callback with_uri json_add_node_callback lookup assign
  connecting_callback_lem uri name m = simp (find-object, put-object, get_string-string)

  -- A request of a node reaches the handler that the request names, with the node's own URI and the
  -- arguments that the node gave, and nothing else happens.
  pub receive_round-call :
      (uri : String) (c : ℕ) (before : Json) (call : Call) (m : Mediator)
      → receive_round (callbacks uri c) before (some (call_message call)) m
        ≡ go_on (effect uri c call m)
  unfolding callbacks lookup assign
  receive_round-call uri c before (publishes topic a) m =
      receive_round-request _ before _ _ m ∙ ap go_on (add_publisher_callback_lem uri topic a m)
  receive_round-call uri c before (subscribes topic) m =
      receive_round-request_response _ before _ _ _ m
      ∙ rw (add_subscriber_callback_lem uri topic m) refl
  receive_round-call uri c before (unpublishes topic) m =
      receive_round-request _ before _ _ m ∙ ap go_on (remove_publisher_callback_lem uri topic m)
  receive_round-call uri c before (unsubscribes topic) m =
      receive_round-request _ before _ _ m ∙ ap go_on (remove_subscriber_callback_lem uri topic m)
