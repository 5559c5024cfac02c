-- ===== src/Mediator.antt =====
-- include/mediator/mediator.hpp and src/mediator/mediator.cpp: the tables of the mediator and the
-- functions that change them. A function that locks first one table and then the other is split
-- into the two locked parts. `none` is a call through a null connection pointer, or a message that
-- lacks a field.
pub mod Views
pub mod Registry
pub mod Announce
pub mod Collect
pub mod Refines
pub mod Publishing
pub mod Subscribing
pub mod Removal
pub mod Callbacks
pub mod Serve
pub mod Telling
pub mod Race
pub mod Accepting
pub mod Events
pub mod Invariant
pub mod History
pub mod Threads
mod Tests
use mros_w24_solution.Common.{String, ℕ, ℤ, List, [], ◌∷◌, ◌++◌, Option, none, some, ◌>>=◌}
use mros_w24_solution.Containers.NameSet
use mros_w24_solution.Containers.NameSet.{NameSet}
use mros_w24_solution.Containers.Table.{assign, erase, at, modify}
use mros_w24_solution.Json.{JsonLib, Json}

pub record AddressPort : Type 0 where
  pub host : String
  pub port : ℤ

pub record TopicData : Type 0 where
  pub publishing_nodes : NameSet
  pub subscribing_nodes : NameSet

-- The connection is a pointer to a socket object, `none` while it is null.
pub record NodeData : Type 0 where
  pub name : String
  pub connection : Option ℕ
  pub publisher_addresses_by_topic : List (String × AddressPort)
  pub subscribed_topics : NameSet

-- The values that `operator[]` puts in a table at a missing key.
abbrev pub no_address : AddressPort
no_address = record { host = ""; port = ℤ.pos 0 }

abbrev pub new_topic : TopicData
new_topic = record { publishing_nodes = []; subscribing_nodes = [] }

abbrev pub new_node : NodeData
new_node = record {
  name = "";
  connection = none;
  publisher_addresses_by_topic = [];
  subscribed_topics = [];
}

module _ ⦃json : JsonLib⦄ where
  open json use {string, strings, ints, object}

  -- A call of `sendRequest` on a connection.
  pub record Request : Type 0 where
    pub connection : ℕ
    pub callback_name : String
    pub argument : Json

  -- The tables, and what the mediator has done to its connections: the requests handed to them,
  -- the newest first, and the connections that it has closed.
  pub record Mediator : Type 0 where
    pub topic_table : List (String × TopicData)
    pub node_table : List (String × NodeData)
    pub node_uris : List String
    pub sent : List Request
    pub closed : List ℕ

  abbrev pub init : Mediator
  init = record { topic_table = []; node_table = []; node_uris = []; sent = []; closed = [] }

  abbrev change_topic : String → (TopicData → TopicData) → Mediator → Mediator
  change_topic topic f m = record m { topic_table = modify new_topic topic f m.topic_table }

  abbrev change_node : String → (NodeData → NodeData) → Mediator → Mediator
  change_node uri f m = record m { node_table = modify new_node uri f m.node_table }

  pub add_node : String → String → Mediator → Mediator
  add_node uri name m = change_node uri (λ d. record d { name = name }) m

  -- The message of a request to connect a subscriber, and of the reply to a new subscriber.
  abbrev pub publishers_message : String → List String → List ℤ → Json
  publishers_message topic hosts ports = object (
      ("topic_name", string topic)
      ∷ ("publisher_addresses", strings hosts)
      ∷ ("publisher_ports", ints ports)
      ∷ [])

  -- `pointer->sendRequest(name, argument)`
  pub send_request : Option ℕ → String → Json → Mediator → Option Mediator
  send_request none name argument m = none
  send_request (some c) name argument m = some (record m {
    sent = record { connection = c; callback_name = name; argument = argument } ∷ m.sent;
  })

  -- The loop over the subscribing nodes. `node_table_[uri]` may add an empty node.
  pub notify : List String → String → AddressPort → Mediator → Option Mediator
  unfolding send_request
  notify [] topic a m = some m
  notify (uri ∷ uris) topic a m =
      let m' = change_node uri (λ d. d) m in
      let message = publishers_message topic (a.host ∷ []) (a.port ∷ []) in
      send_request (at new_node uri m'.node_table).connection "connectSubscriberToPublishers"
        message m'
      >>= notify uris topic a

  -- `addPublisher` under the lock of the topic table
  pub publish_topic : String → String → Mediator → NameSet × Mediator
  publish_topic uri topic m =
      let m' =
        change_topic topic
          (λ d. record d { publishing_nodes = NameSet.insert uri d.publishing_nodes }) m in
      ((at new_topic topic m'.topic_table).subscribing_nodes, m')

  -- `addPublisher` under the lock of the node table
  pub publish_node : String → String → AddressPort → NameSet → Mediator → Option Mediator
  publish_node uri topic a subscribers m = notify subscribers topic a (
      change_node uri
        (λ d. record d {
          publisher_addresses_by_topic = assign topic a d.publisher_addresses_by_topic;
        })
        m)

  pub add_publisher : String → String → AddressPort → Mediator → Option Mediator
  unfolding publish_topic publish_node
  add_publisher uri topic a m =
      let (subscribers, m') = publish_topic uri topic m in publish_node uri topic a subscribers m'

  -- `addSubscriber` under the lock of the topic table
  pub subscribe_topic : String → String → Mediator → NameSet × Mediator
  subscribe_topic uri topic m =
      let m' =
        change_topic topic
          (λ d. record d { subscribing_nodes = NameSet.insert uri d.subscribing_nodes }) m in
      ((at new_topic topic m'.topic_table).publishing_nodes, m')

  -- The loop over the publishing nodes. Both `operator[]` may add an empty entry.
  pub addresses_of : List String → String → Mediator → List String × List ℤ × Mediator
  addresses_of [] topic m = ([], [], m)
  addresses_of (uri ∷ uris) topic m =
      let m' =
        change_node uri
          (λ d. record d {
            publisher_addresses_by_topic =
                modify no_address topic (λ a. a) d.publisher_addresses_by_topic;
          })
          m in
      let a = at no_address topic (at new_node uri m'.node_table).publisher_addresses_by_topic in
      let (hosts, ports, m'') = addresses_of uris topic m' in (a.host ∷ hosts, a.port ∷ ports, m'')

  -- `addSubscriber` under the lock of the node table
  pub subscribe_node : String → String → NameSet → Mediator → Json × Mediator
  unfolding addresses_of
  subscribe_node uri topic publishers m =
      let m' =
        change_node uri
          (λ d. record d { subscribed_topics = NameSet.insert topic d.subscribed_topics }) m in
      let (hosts, ports, m'') = addresses_of publishers topic m' in
      (publishers_message topic hosts ports, m'')

  pub add_subscriber : String → String → Mediator → Json × Mediator
  unfolding subscribe_topic subscribe_node
  add_subscriber uri topic m =
      let (publishers, m') = subscribe_topic uri topic m in subscribe_node uri topic publishers m'

  -- The two loops of `removeNode`
  pub forget_publisher : String → List (String × AddressPort) → Mediator → Mediator
  forget_publisher uri [] m = m
  forget_publisher uri ((topic, a) ∷ rest) m = forget_publisher uri rest (
      change_topic topic (λ d. record d { publishing_nodes = NameSet.erase uri d.publishing_nodes })
        m)

  pub forget_subscriber : String → NameSet → Mediator → Mediator
  forget_subscriber uri [] m = m
  forget_subscriber uri (topic ∷ rest) m = forget_subscriber uri rest (
      change_topic topic
        (λ d. record d { subscribing_nodes = NameSet.erase uri d.subscribing_nodes }) m)

  -- `pointer->close()`
  pub close_connection : Option ℕ → Mediator → Option Mediator
  close_connection none m = none
  close_connection (some c) m = some (record m { closed = c ∷ m.closed })

  -- `removeNode` under the lock of the topic table. It reads the node table too.
  pub leave_topics : String → Mediator → Mediator
  unfolding forget_publisher forget_subscriber
  leave_topics uri m =
      let m' = change_node uri (λ d. d) m in
      let d = at new_node uri m'.node_table in
      forget_subscriber uri d.subscribed_topics
        (forget_publisher uri d.publisher_addresses_by_topic m')

  -- `removeNode` under the lock of the node table
  pub leave_nodes : String → Mediator → Option Mediator
  unfolding close_connection
  leave_nodes uri m = do
    let m' = change_node uri (λ d. d) m
    m'' ← close_connection (at new_node uri m'.node_table).connection m'
    some (record m'' { node_table = erase uri m''.node_table })

  pub remove_node : String → Mediator → Option Mediator
  unfolding leave_topics leave_nodes
  remove_node uri m = leave_nodes uri (leave_topics uri m)

  -- `removePublisher` under the lock of the topic table, and under that of the node table
  abbrev pub unpublish_topic : String → String → Mediator → Mediator
  unpublish_topic uri topic m =
      change_topic topic (λ d. record d { publishing_nodes = NameSet.erase uri d.publishing_nodes })
        m

  abbrev pub unpublish_node : String → String → Mediator → Mediator
  unpublish_node uri topic m =
      change_node uri
        (λ d. record d {
          publisher_addresses_by_topic = erase topic d.publisher_addresses_by_topic;
        })
        m

  pub remove_publisher : String → String → Mediator → Mediator
  remove_publisher uri topic m = unpublish_node uri topic (unpublish_topic uri topic m)

  -- `removeSubscriber` under the lock of the topic table, and under that of the node table
  abbrev pub unsubscribe_topic : String → String → Mediator → Mediator
  unsubscribe_topic uri topic m =
      change_topic topic
        (λ d. record d { subscribing_nodes = NameSet.erase uri d.subscribing_nodes }) m

  abbrev pub unsubscribe_node : String → String → Mediator → Mediator
  unsubscribe_node uri topic m =
      change_node uri
        (λ d. record d { subscribed_topics = NameSet.erase topic d.subscribed_topics }) m

  pub remove_subscriber : String → String → Mediator → Mediator
  remove_subscriber uri topic m = unsubscribe_node uri topic (unsubscribe_topic uri topic m)

  -- What the accepting loop does to the tables for a new connection.
  pub register : String → ℕ → Mediator → Mediator
  register uri c m =
      change_node uri (λ d. record d { connection = some c })
        (record m { node_uris = m.node_uris ++ uri ∷ [] })

  -- After the loop
  pub clear_tables : Mediator → Mediator
  clear_tables m = record m { topic_table = []; node_table = [] }
