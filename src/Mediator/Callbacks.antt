-- ===== src/Mediator/Callbacks.antt =====
-- The callbacks that `handleRPCConnections` of src/mediator/mediator.cpp registers on each new
-- connection, and the accepting loop itself.
use mros_w24_solution.Common.{
  String, ℕ, ℤ, Bool, true, false, List, [], ◌∷◌, Option, none, some, ◌>>=◌,
}
use mros_w24_solution.Json.{JsonLib, Json}
use mros_w24_solution.Rpc.{
  Callbacks, register_request_callback, register_request_response_callback,
  register_closing_callback,
}
use mros_w24_solution.Uri.{to_uri}
use mros_w24_solution.Mediator.{
  Mediator, add_node, add_publisher, add_subscriber, remove_node, remove_publisher,
  remove_subscriber, register, clear_tables,
}

module _ ⦃json : JsonLib⦄ where
  open json use {string, find, put, get_string, get_int}

  -- `std::string x = json[key]`
  abbrev pub string_at : String → Json → Option String
  string_at key j = find key j >>= get_string

  unfoldable pub json_add_node_callback : Json → Mediator → Option Mediator
  json_add_node_callback j m = do
    node_uri ← string_at "node_uri" j
    node_name ← string_at "node_name" j
    some (add_node node_uri node_name m)

  unfoldable pub json_add_publisher_callback : Json → Mediator → Option Mediator
  json_add_publisher_callback j m = do
    node_uri ← string_at "node_uri" j
    topic_name ← string_at "topic_name" j
    host ← string_at "address" j
    port ← find "port" j >>= get_int
    add_publisher node_uri topic_name (record { host = host; port = port }) m

  unfoldable pub json_add_subscriber_callback : Json → Mediator → Option (Json × Mediator)
  json_add_subscriber_callback j m = do
    node_uri ← string_at "node_uri" j
    topic_name ← string_at "topic_name" j
    some (add_subscriber node_uri topic_name m)

  unfoldable pub json_remove_publisher_callback : Json → Mediator → Option Mediator
  json_remove_publisher_callback j m = do
    node_uri ← string_at "node_uri" j
    topic_name ← string_at "topic_name" j
    some (remove_publisher node_uri topic_name m)

  unfoldable pub json_remove_subscriber_callback : Json → Mediator → Option Mediator
  json_remove_subscriber_callback j m = do
    node_uri ← string_at "node_uri" j
    topic_name ← string_at "topic_name" j
    some (remove_subscriber node_uri topic_name m)

  -- A callback of the connection of `node_uri`: `input_with_uri["node_uri"] = node_uri`
  unfoldable pub with_uri :
      {A : Type 0} → String → (Json → Mediator → Option A) → Json → Mediator → Option A
  with_uri node_uri callback input m = do
    input_with_uri ← put "node_uri" (string node_uri) input
    callback input_with_uri m

  -- A socket with no callbacks; its requests enter the log of the mediator.
  abbrev pub no_callbacks : ℕ → Callbacks Mediator
  no_callbacks c = record {
    request_callbacks = [];
    request_response_callbacks = [];
    closing_callback = none;
    send_request = λ name argument m. record m {
      sent = record { connection = c; callback_name = name; argument = argument } ∷ m.sent;
    };
  }

  -- The callbacks, in the order in which they are registered.
  unfoldable pub callbacks : String → ℕ → Callbacks Mediator
  unfolding register_request_callback register_request_response_callback register_closing_callback
  callbacks uri c = register_closing_callback (remove_node uri) (
      register_request_callback "removeSubscriber" (with_uri uri json_remove_subscriber_callback) (
        register_request_callback "removePublisher" (with_uri uri json_remove_publisher_callback) (
          register_request_response_callback "addSubscriber"
            (with_uri uri json_add_subscriber_callback)
            (register_request_callback "addPublisher" (with_uri uri json_add_publisher_callback)
              (no_callbacks c)))))

  unfoldable pub connecting_callback : String → Json → Mediator → Option Mediator
  connecting_callback uri = with_uri uri json_add_node_callback

  -- What `startConnection` meets: an exception of its first send or of the receive, or the first
  -- message of the client, with whether the send of the second reply returns.
  pub data Greeting : Type 0 where
    lost : Greeting
    message : Json → Bool → Greeting

  unfoldable pub called_back : Option Mediator → Bool → Mediator → Mediator × Bool
  called_back none clears m = (m, false)
  called_back (some m') clears m = (m', clears)

  -- `startConnection` on a connection with the connecting callback. The flag tells whether it
  -- returns; the callback throws on a message that is no object or has no string as the name.
  unfoldable pub start_connection : String → Greeting → Mediator → Mediator × Bool
  unfolding called_back
  start_connection uri lost m = (m, false)
  start_connection uri (message j clears) m = called_back (connecting_callback uri j m) clears m

  -- What one round of the accepting loop meets: an empty backlog, a failure of `accept`, or a new
  -- connection from a host and a port.
  pub data Accepted : Type 0 where
    nothing failed : Accepted
    connected : String → ℤ → ℕ → Greeting → Accepted

  -- One round. The flag tells whether the loop goes on: an exception leaves it, and reaches the
  -- handler in the constructor.
  unfoldable pub accept_round : Accepted → Mediator → Mediator × Bool
  unfolding start_connection
  accept_round nothing m = (m, true)
  accept_round failed m = (m, false)
  accept_round (connected host port c greeting) m =
      start_connection (to_uri host port) greeting (register (to_uri host port) c m)

  -- How the constructor ends.
  pub data Exit : Type 0 where
    deactivated terminated : Exit

  -- `handleRPCConnections` and the handler around it, over the rounds until ctrl+C. What the other
  -- threads do between two rounds is left out.
  unfoldable pub handle_rpc_connections : List Accepted → Mediator → Mediator × Exit
  handle_rpc_connections [] m = (clear_tables m, deactivated)
  handle_rpc_connections (a ∷ rest) m =
      let (m', more) = accept_round a m in
      elim more [ true ↦ handle_rpc_connections rest m' | false ↦ (m', terminated) ]
