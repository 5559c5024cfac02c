-- ===== src/Delivery.antt =====
-- A message on its way from `publish` of include/mros/publisher.hpp over the sockets to the queue of
-- include/mros/subscriber.hpp, and the message of include/messages/example_message.hpp. What the user
-- gives as a message type is a parameter with the concept of include/mros/utils/utils.hpp.
pub mod Arrive
mod Tests
use mros_w24_solution.Common.{
  ℕ, zero, suc, String, true, false, List, [], ◌∷◌, Option, none, some, ◌>>=◌, ◌≡◌,
}
use mros_w24_solution.Containers.Table.{lookup}
use mros_w24_solution.Json.{JsonLib, Json}
use mros_w24_solution.BsonSocket
use mros_w24_solution.BsonSocket.{
  ReceiveEnd, received, threw, blocked, undefined, receive_message, Sent, SendEnd, send_message,
}
use mros_w24_solution.Subscriber.{Subscriber, Received, message, lost, receive_messages}

pub record StringMessage : Type 0 where
  pub «data» : String

module _ ⦃json : JsonLib⦄ where
  open json use {string, object, find, get_string, find-object, get_string-string}

  -- `JsonConvertible`, where reading back what was written gives the message. `none` is an exception.
  pub record MessageType : Type 1 where
    pub Message : Type 0
    pub convert_to_json : Message → Json
    pub set_from_json : Json → Option Message
    pub set_from_json-convert_to_json : (m : Message) → set_from_json (convert_to_json m) ≡ some m

  pub convert_to_json : StringMessage → Json
  convert_to_json m = object (("data", string m.«data») ∷ [])

  pub set_from_json : Json → Option StringMessage
  set_from_json j = do s ← find "data" j >>= get_string; some (record { «data» = s })

  pub set_from_json-convert_to_json :
      (m : StringMessage) → set_from_json (convert_to_json m) ≡ some m
  unfolding convert_to_json set_from_json lookup
  set_from_json-convert_to_json m = simp (find-object, get_string-string)

  -- The example message is of the concept.
  abbrev pub string_messages : MessageType
  string_messages = record {
    Message = StringMessage;
    convert_to_json = convert_to_json;
    set_from_json = set_from_json;
    set_from_json-convert_to_json = set_from_json-convert_to_json;
  }

  module _ ⦃type : MessageType⦄ where
    open type use {Message}

    -- What `sendMessage` does in `publish`.
    pub send : Message → List Sent → SendEnd
    send m answers = send_message true false (type.convert_to_json m) answers

    -- The bytes that a connection has stored, and what its `recv` will answer.
    pub record Connection : Type 0 where
      pub storage : List ℕ
      pub answers : List BsonSocket.Received

    read_json : Option Message → Received Message
    read_json none = lost
    read_json (some m) = message m

    received_next : ReceiveEnd Json → Option (Received Message × Connection)
    unfolding read_json
    received_next (received j storage answers) =
        some (read_json (type.set_from_json j), record { storage = storage; answers = answers })
    received_next (threw e storage answers) =
        some (lost, record { storage = storage; answers = answers })
    received_next (blocked storage) = none
    received_next undefined = none

    -- `receiveMessage`, `set_from_json` and the handlers around them. `none` waits for more bytes.
    pub receive_one : Connection → Option (Received Message × Connection)
    unfolding received_next
    receive_one c = received_next (receive_message true c.storage c.answers)

    -- Cycles of a receiving thread whose one connection is to the publisher at `uri`. A connection that
    -- is lost is removed, and nothing more is received on it.
    pub receive_cycles :
        ℕ → String → Connection → Subscriber Message → Option (Connection × Subscriber Message)
    unfolding receive_one
    receive_cycles zero uri c s = some (c, s)
    receive_cycles (suc n) uri c s = do
      (result, c') ← receive_one c
      let s' = receive_messages ((uri, result) ∷ []) s
      let rest = receive_cycles n uri c' s'
      elim result [ message m ↦ rest | lost ↦ some (c', s') ]
