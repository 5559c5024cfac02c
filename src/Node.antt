-- ===== src/Node.antt =====
-- include/mros/node.hpp and src/mros/node.cpp: a node with its publishers and subscribers, what it
-- asks of the mediator and what it does on the mediator's messages. Publishers and subscribers are
-- numbers, and what a node calls on them is a log. `alive` tells which of them still exist when a weak
-- pointer is locked.
pub mod Discovery
pub mod Leaving
pub mod Spin
pub mod Owned
mod Tests
use mros_w24_solution.Common.{
  ℕ, ◌+◌, String, ℤ, Bool, true, false, ◌&&◌, List, [], ◌∷◌, ◌++◌, Option, none, some, ◌>>=◌,
  if◌then◌else◌,
}
use mros_w24_solution.Containers.Table.{lookup, assign, erase}
use mros_w24_solution.Json.{JsonLib, Json}
use mros_w24_solution.Rpc.{
  Callbacks, request_message, request_response_message, register_request_callback,
  register_closing_callback,
}
use mros_w24_solution.Mediator.{AddressPort}
use mros_w24_solution.Mediator.Callbacks.{string_at}

module _ ⦃json : JsonLib⦄ where
  open json use {string, int, object, find, get_strings, get_ints}

  pub record Node : Type 0 where
    pub connected : Bool
    pub rpc_connected : Bool
    pub publishers : List (String × ℕ)
    pub subscribers : List (String × ℕ)
    -- The messages to the mediator, the newest first.
    pub sent : List Json
    -- The calls of `connectToPublisher`, in order.
    pub connections : List (ℕ × AddressPort)
    -- The calls of `disconnect`, in order.
    pub disconnected_publishers : List ℕ
    pub disconnected_subscribers : List ℕ
    pub rpc_closes : ℕ

  -- The constructor, with whether `connectToServer` returns, and whether the client counts as
  -- connected by then, which it also may if the call throws.
  abbrev pub new_node : Bool → Bool → Node
  new_node returns rpc_connected = record {
    connected = returns;
    rpc_connected = rpc_connected;
    publishers = [];
    subscribers = [];
    sent = [];
    connections = [];
    disconnected_publishers = [];
    disconnected_subscribers = [];
    rpc_closes = 0;
  }

  abbrev send_message : Json → Node → Node
  send_message j n = record n { sent = j ∷ n.sent }

  abbrev topic_message : String → Json
  topic_message topic = object (("topic_name", string topic) ∷ [])

  -- `createPublisher` for a publisher at an address. `moved` is what the string `topic_name` holds
  -- after `std::move`.
  pub create_publisher : String → String → AddressPort → ℕ → Node → Node
  create_publisher topic moved a publisher n =
      send_message
        (request_message "addPublisher" (
          object (
            ("topic_name", string topic) ∷ ("address", string a.host) ∷ ("port", int a.port) ∷ [])))
        (record n { publishers = assign moved publisher n.publishers })

  -- `createSubscriber`
  pub create_subscriber : String → ℕ → Node → Node
  create_subscriber topic subscriber n =
      send_message
        (request_response_message "addSubscriber" (topic_message topic)
          "connectSubscriberToPublishers")
        (record n { subscribers = assign topic subscriber n.subscribers })

  -- `removeSubscriberByTopic`
  pub remove_subscriber_by_topic : String → Node → Node
  remove_subscriber_by_topic topic n =
      send_message (request_message "removeSubscriber" (topic_message topic))
        (record n { subscribers = erase topic n.subscribers })

  -- `removePublisherByTopic`
  pub remove_publisher_by_topic : String → Node → Node
  remove_publisher_by_topic topic n =
      send_message (request_message "removePublisher" (topic_message topic))
        (record n { publishers = erase topic n.publishers })

  -- The loop over the hosts. `none` is an index past the end of the ports.
  pub connect_all : ℕ → List String → List ℤ → Node → Option Node
  connect_all subscriber [] ports n = some n
  connect_all subscriber (h ∷ hosts) [] n = none
  connect_all subscriber (h ∷ hosts) (p ∷ ports) n =
      connect_all subscriber hosts ports (record n {
        connections = n.connections ++ (subscriber, record { host = h; port = p }) ∷ [];
      })

  connect_found : (ℕ → Bool) → Option ℕ → List String → List ℤ → Node → Option Node
  unfolding connect_all
  connect_found alive none hosts ports n = some n
  connect_found alive (some subscriber) hosts ports n =
      let connected = connect_all subscriber hosts ports n in
      if alive subscriber then connected else some n

  -- `connectSubscriberToPublishers`
  pub connect_subscriber_to_publishers :
      (ℕ → Bool) → String → List String → List ℤ → Node → Option Node
  unfolding connect_found
  connect_subscriber_to_publishers alive topic hosts ports n =
      connect_found alive (lookup topic n.subscribers) hosts ports n

  -- `jsonConnectSubscriberToPublishersCallback`
  pub json_connect_subscriber_to_publishers_callback : (ℕ → Bool) → Json → Node → Option Node
  unfolding connect_subscriber_to_publishers
  json_connect_subscriber_to_publishers_callback alive j n = do
    topic_name ← string_at "topic_name" j
    hosts ← find "publisher_addresses" j >>= get_strings
    ports ← find "publisher_ports" j >>= get_ints
    connect_subscriber_to_publishers alive topic_name hosts ports n

  -- The objects of a table that still exist.
  pub living : (ℕ → Bool) → List (String × ℕ) → List ℕ
  living alive [] = []
  living alive ((topic, x) ∷ rest) = if alive x then x ∷ living alive rest else living alive rest

  -- `disconnect`
  pub disconnect : (ℕ → Bool) → Node → Node
  unfolding living
  disconnect alive n =
      if n.connected
      then record n {
        connected = false;
        rpc_connected = false;
        rpc_closes = if n.rpc_connected then n.rpc_closes + 1 else n.rpc_closes;
        disconnected_publishers = n.disconnected_publishers ++ living alive n.publishers;
        disconnected_subscribers = n.disconnected_subscribers ++ living alive n.subscribers;
      }
      else n

  -- The destructor
  pub destroy : (ℕ → Bool) → Node → Node
  unfolding disconnect
  destroy alive n = if n.connected then disconnect alive n else n

  -- The callbacks that the constructor registers on the connection to the mediator.
  pub node_callbacks : (ℕ → Bool) → Callbacks Node
  unfolding register_request_callback register_closing_callback disconnect
      json_connect_subscriber_to_publishers_callback
  node_callbacks alive =
      register_closing_callback (λ n. some (disconnect alive n))
        (register_request_callback "connectSubscriberToPublishers"
          (json_connect_subscriber_to_publishers_callback alive)
          (record {
            request_callbacks = [];
            request_response_callbacks = [];
            closing_callback = none;
            send_request = λ name argument n. send_message (request_message name argument) n;
          }))
