-- ===== src/OldMediator.antt =====
-- src/mediator/mediator_old.cpp: the mediator before the one in src/mediator/mediator.cpp, which the
-- build leaves out. It keeps one table of subscribers and one of publishers, tells nobody of them, and
-- answers how many entries a removal has removed. `none` is a message that lacks a field, or an
-- exception that leaves a thread.
pub mod Wire
mod Tests
use mros_w24_solution.Common.{
  ℕ, ◌-◌, ◌^◌, ◌%◌, String, ℤ, Bool, true, false, ◌&&◌, List, [], ◌∷◌, ◌++◌, Option, none, some,
  ◌>>=◌, ltb, nat_eq, if◌then◌else◌, length, ◌==◌, ◌≡◌, ◌↔◌,
}
use mros_w24_solution.Containers.Table.{lookup, assign, erase, modify}
use mros_w24_solution.Json.{JsonLib, Json}
use mros_w24_solution.Rpc.{Callbacks, register_request_callback, register_request_response_callback}
use mros_w24_solution.Uri.{to_uri}
use mros_w24_solution.Mediator.Callbacks.{string_at}

-- The equality of `int`
abbrev pub int_eq : ℤ → ℤ → Bool
int_eq (ℤ.pos m) (ℤ.pos n) = nat_eq m n
int_eq (ℤ.negsuc m) (ℤ.negsuc n) = nat_eq m n
int_eq _ _ = false

-- What a request is about.
pub record Registration : Type 0 where
  pub topic_name : String
  pub host : String
  pub port : ℤ
  pub message_name : String

-- `Topic`, a type that no file declares: how the file makes one, and its `==`.
pub record TopicType : Type 1 where
  pub Topic : Type 0
  pub topic : Registration → Topic
  pub same : Topic → Topic → Bool

-- `static_cast<int>` of a distance
abbrev pub int_of : ℕ → ℤ
int_of n =
    if ltb (n % 2 ^ 32) (2 ^ 31) then ℤ.pos (n % 2 ^ 32) else ℤ.negsuc (2 ^ 32 - 1 - n % 2 ^ 32)

module _ ⦃topics : TopicType⦄ where
  open topics use {Topic, topic, same}

  pub record OldMediator : Type 0 where
    pub subscriber_table : List (String × List Topic)
    pub publisher_table : List (String × List Topic)
    pub node_table : List (String × String)
    pub connection_list : List ℕ
    pub server_open : Bool
    pub listening : Bool

  -- The constructor
  abbrev pub new_mediator : OldMediator
  new_mediator = record {
    subscriber_table = [];
    publisher_table = [];
    node_table = [];
    connection_list = [];
    server_open = true;
    listening = true;
  }

  -- `table[topic_name].push_back(topic_info)`
  pub push : Registration → List (String × List Topic) → List (String × List Topic)
  push g table = modify [] g.topic_name (λ l. l ++ topic g ∷ []) table

  -- What `std::remove_if` leaves in front.
  pub remove_if : Topic → List Topic → List Topic
  remove_if x [] = []
  remove_if x (y ∷ l) = if same y x then remove_if x l else y ∷ remove_if x l

  pull_from :
      Option (List Topic)
      → Registration
      → List (String × List Topic)
      → ℕ × List (String × List Topic)
  unfolding remove_if
  pull_from none g table = (0, table)
  pull_from (some l) g table =
      let kept = remove_if (topic g) l in (length l - length kept, assign g.topic_name kept table)

  -- The removal from a table, with the distance from the new end to the old one.
  pub pull : Registration → List (String × List Topic) → ℕ × List (String × List Topic)
  unfolding pull_from
  pull g table = pull_from (lookup g.topic_name table) g table

  module _ ⦃json : JsonLib⦄ where
    open json use {string, int, object, find, get_int}

    abbrev pub ready : Json
    ready = object (("code", int (ℤ.pos 0)) ∷ ("status", string "ready") ∷ [])

    abbrev pub removed : ℕ → Json
    removed dist = object (
        ("code", int (ℤ.pos 0))
        ∷ ("status", string "ready")
        ∷ ("numUnregistered", int (int_of dist))
        ∷ [])

    pub add_subscriber : Registration → OldMediator → Json × OldMediator
    unfolding push
    add_subscriber g m = (ready, record m { subscriber_table = push g m.subscriber_table })

    pub add_publisher : Registration → OldMediator → Json × OldMediator
    unfolding push
    add_publisher g m = (ready, record m { publisher_table = push g m.publisher_table })

    pub remove_subscriber : Registration → OldMediator → Json × OldMediator
    unfolding pull
    remove_subscriber g m =
        let (dist, table) = pull g m.subscriber_table in
        (removed dist, record m { subscriber_table = table })

    pub remove_publisher : Registration → OldMediator → Json × OldMediator
    unfolding pull
    remove_publisher g m =
        let (dist, table) = pull g m.publisher_table in
        (removed dist, record m { publisher_table = table })

    pub add_node : String → String → ℤ → OldMediator → OldMediator
    add_node node_name host port m = record m {
      node_table = assign (to_uri host port) node_name m.node_table;
    }

    pub remove_node : String → String → ℤ → OldMediator → OldMediator
    remove_node node_name host port m = record m {
      node_table = erase (to_uri host port) m.node_table;
    }

    -- The arguments that the four callbacks take out of a message.
    pub registration_at : Json → Option Registration
    registration_at j = do
      topic_name ← string_at "topic_name" j
      host ← string_at "host" j
      port ← find "port" j >>= get_int
      message_name ← string_at "message_name" j
      some (record {
        topic_name = topic_name;
        host = host;
        port = port;
        message_name = message_name;
      })

    pub json_subscribe_callback : Json → OldMediator → Option (Json × OldMediator)
    unfolding registration_at
    json_subscribe_callback j m = do g ← registration_at j; some (add_subscriber g m)

    pub json_unsubscribe_callback : Json → OldMediator → Option (Json × OldMediator)
    unfolding registration_at
    json_unsubscribe_callback j m = do g ← registration_at j; some (remove_subscriber g m)

    pub json_publish_callback : Json → OldMediator → Option (Json × OldMediator)
    unfolding registration_at
    json_publish_callback j m = do g ← registration_at j; some (add_publisher g m)

    pub json_unpublish_callback : Json → OldMediator → Option (Json × OldMediator)
    unfolding registration_at
    json_unpublish_callback j m = do g ← registration_at j; some (remove_publisher g m)

    -- A request callback, whose result is dropped.
    abbrev pub without_result :
        (Json → OldMediator → Option (Json × OldMediator)) → Json → OldMediator → Option OldMediator
    without_result callback j m = do (result, m') ← callback j m; some m'

    -- The callbacks of a new connection. `socket` is the connection before they are registered.
    pub callbacks : Callbacks OldMediator → Callbacks OldMediator
    unfolding register_request_callback register_request_response_callback
    callbacks socket =
        register_request_callback "unpublish" (without_result json_unpublish_callback) (
          register_request_callback "publish" (without_result json_publish_callback) (
            register_request_callback "unsubscribe" (without_result json_unsubscribe_callback)
              (register_request_response_callback "subscribe" json_subscribe_callback socket)))

  -- What a round of the listening thread meets: an empty backlog, an exception of `accept`, or a new
  -- connection, with whether `startConnection` returns.
  pub data Accepted : Type 0 where
    nothing failed : Accepted
    connected : ℕ → Bool → Accepted

  -- `RPCListenerThread` over the rounds until the status turns. An exception leaves the thread, which
  -- ends the program.
  pub listen : List Accepted → OldMediator → Option OldMediator
  listen [] m = some (record m { listening = false })
  listen (nothing ∷ rounds) m = listen rounds m
  listen (failed ∷ rounds) m = none
  listen (connected c true ∷ rounds) m =
      listen rounds (record m { connection_list = c ∷ m.connection_list })
  listen (connected c false ∷ rounds) m = none

  -- The destructor, which first joins the listening thread.
  pub destroy : OldMediator → Option OldMediator
  destroy m = if m.listening then none else some (record m { server_open = false })
