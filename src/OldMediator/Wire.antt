-- ===== src/OldMediator/Wire.antt =====
-- Requests on the wire to the mediator of src/mediator/mediator_old.cpp.
use mros_w24_solution.Common.{String, true, [], ◌∷◌, some, ◌≡◌, refl, ◌∙◌}
use mros_w24_solution.Containers.Table.{lookup, assign}
use mros_w24_solution.Json.{JsonLib, Json}
use mros_w24_solution.Rpc.{Callbacks, request_message, request_response_message, receive_round}
use mros_w24_solution.Rpc.Dispatch.{receive_round-request, receive_round-request_response}
use mros_w24_solution.OldMediator.{
  Registration, TopicType, OldMediator, ready, add_subscriber, add_publisher, remove_subscriber,
  remove_publisher, registration_at, json_subscribe_callback, json_unsubscribe_callback,
  json_publish_callback, json_unpublish_callback, callbacks,
}

module _ ⦃topics : TopicType⦄ ⦃json : JsonLib⦄ where
  open json use {string, int, object, find-object, get_string-string, get_int-int}

  abbrev pub registration_message : Registration → Json
  registration_message g = object (
      ("topic_name", string g.topic_name)
      ∷ ("host", string g.host)
      ∷ ("port", int g.port)
      ∷ ("message_name", string g.message_name)
      ∷ [])

  registration_at_lem : (g : Registration) → registration_at (registration_message g) ≡ some g
  unfolding registration_at lookup
  registration_at_lem g = simp (find-object, get_string-string, get_int-int)

  -- On a connection that had no callbacks of these names before, each of the four requests reaches its
  -- handler, and the connection goes on. Only a subscription is answered, under the name that the
  -- request gives; the count of a removal is dropped.
  pub receive_round-registration :
      (socket : Callbacks OldMediator) (g : Registration) (response_name : String) (m : OldMediator)
      → socket.request_callbacks ≡ []
      → socket.request_response_callbacks ≡ []
      → let s = callbacks socket in
        (receive_round s (object []) (some (request_message "publish" (registration_message g))) m
          ≡ some ((add_publisher g m).1, true))
        × (receive_round s
              (object [])
              (some (request_message "unpublish" (registration_message g)))
              m
            ≡ some ((remove_publisher g m).1, true))
        × (receive_round s
              (object [])
              (some (request_message "unsubscribe" (registration_message g)))
              m
            ≡ some ((remove_subscriber g m).1, true))
        × (receive_round s
              (object [])
              (some (request_response_message "subscribe" (registration_message g) response_name))
              m
            ≡ some (socket.send_request response_name ready (add_subscriber g m).1, true))
  unfolding callbacks lookup assign json_subscribe_callback json_unsubscribe_callback
      json_publish_callback json_unpublish_callback add_subscriber
  receive_round-registration socket g response_name m none_yet no_responses = (
    receive_round-request (callbacks socket) (object []) "publish" (registration_message g) m
        ∙ rw (none_yet, registration_at_lem g) refl,
    receive_round-request (callbacks socket) (object []) "unpublish" (registration_message g) m
        ∙ rw (none_yet, registration_at_lem g) refl,
    receive_round-request (callbacks socket) (object []) "unsubscribe" (registration_message g) m
        ∙ rw (none_yet, registration_at_lem g) refl,
    receive_round-request_response (callbacks socket) (object []) "subscribe" response_name
          (registration_message g) m
        ∙ rw (no_responses, registration_at_lem g) refl,
  )
