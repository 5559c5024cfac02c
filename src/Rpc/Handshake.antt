-- ===== src/Rpc/Handshake.antt =====
-- How a connection starts: `connectToServer` of src/socket/bson_rpc_socket/client_bson_rpc_socket.cpp
-- and `startConnection` of src/socket/bson_rpc_socket/connection_bson_rpc_socket.cpp, as steps of
-- both ends on messages in order. Neither end closes meanwhile. A function that throws leaves its
-- socket open.
pub mod Starts
mod Tests
use mros_w24_solution.Common.{
  Bool, true, false, if◌then◌else◌, List, [], ◌∷◌, ◌++◌, Option, none, some, ◌≡◌, ◌⊎◌, inl, inr,
  refl, sym, ap, ◌∙◌, arith,
}
use mros_w24_solution.Json.{JsonLib, Json}

-- Where the client is in `connectToServer`: in the wait for the first message, at the send of its
-- own, at the receive of the last one, in the receiving thread, out with a time-out, or out with an exception.
pub data Client : Type 0 where
  waiting_acknowledgement sending_message waiting_clear receiving timed_out client_threw : Client

module _ ⦃json : JsonLib⦄ where
  open json use {string, object}

  -- What a handshake depends on: whether a connecting callback is registered, on which messages it
  -- throws, and which messages `receiveMessage` can read; on the others `from_bson` throws.
  pub record Setup : Type 0 where
    pub callback_set : Bool
    pub callback_throws : Json → Bool
    pub is_readable : Json → Bool

  -- Where the connection is in `startConnection`.
  pub data Connection : Type 0 where
    sending_acknowledgement waiting_message sending_clear serving connection_threw : Connection
    calling_back : Json → Connection

  -- The two ends, what is on the way to each, and the messages that the connecting callback was
  -- called with, the newest first.
  pub record Ends : Type 0 where
    pub client : Client
    pub connection : Connection
    pub to_client : List Json
    pub to_connection : List Json
    pub is_connected : Bool
    pub called_with : List Json

  abbrev pub acknowledgement : Json
  acknowledgement = object (("reply", string "ack") ∷ [])

  abbrev pub clear : Json
  clear = object (("reply", string "clr") ∷ [])

  abbrev pub accepted : Ends
  accepted = record {
    client = waiting_acknowledgement;
    connection = sending_acknowledgement;
    to_client = [];
    to_connection = [];
    is_connected = false;
    called_with = [];
  }

  -- The client reads a message, if there is one.
  client_reads : Setup → Client → Bool → List Json → Ends → Option Ends
  client_reads setup place connected [] s = none
  client_reads setup place connected (j ∷ rest) s = some (
      if setup.is_readable j
      then record s { client = place; to_client = rest; is_connected = connected }
      else record s { client = client_threw; to_client = rest })

  client_step_at : Setup → Client → Json → Ends → Option Ends
  unfolding client_reads
  client_step_at setup waiting_acknowledgement message s =
      client_reads setup sending_message true s.to_client s
  client_step_at setup sending_message message s =
      some (record s { client = waiting_clear; to_connection = s.to_connection ++ message ∷ [] })
  client_step_at setup waiting_clear message s =
      client_reads setup receiving s.is_connected s.to_client s
  client_step_at setup _ message s = none

  -- A step of `connectToServer` with its connection message
  pub client_step : Setup → Json → Ends → Option Ends
  unfolding client_step_at
  client_step setup message s = client_step_at setup s.client message s

  connection_reads : Setup → List Json → Ends → Option Ends
  connection_reads setup [] s = none
  connection_reads setup (j ∷ rest) s = some (
      if setup.is_readable j
      then record s { connection = calling_back j; to_connection = rest }
      else record s { connection = connection_threw; to_connection = rest })

  -- The connecting callback, if there is one
  run_connecting_callback : Setup → Json → Ends → Ends
  run_connecting_callback setup j s =
      if setup.callback_set
      then (if setup.callback_throws j
          then record s { connection = connection_threw; called_with = j ∷ s.called_with }
          else record s { connection = sending_clear; called_with = j ∷ s.called_with })
      else record s { connection = sending_clear }

  connection_step_at : Setup → Connection → Ends → Option Ends
  unfolding connection_reads run_connecting_callback
  connection_step_at setup sending_acknowledgement s =
      some
        (record s { connection = waiting_message; to_client = s.to_client ++ acknowledgement ∷ [] })
  connection_step_at setup waiting_message s = connection_reads setup s.to_connection s
  connection_step_at setup (calling_back j) s = some (run_connecting_callback setup j s)
  connection_step_at setup sending_clear s =
      some (record s { connection = serving; to_client = s.to_client ++ clear ∷ [] })
  connection_step_at setup _ s = none

  -- A step of `startConnection`
  pub connection_step : Setup → Ends → Option Ends
  unfolding connection_step_at
  connection_step setup s = connection_step_at setup s.connection s

  time_out_at : Client → List Json → Ends → Option Ends
  time_out_at waiting_acknowledgement [] s = some (record s { client = timed_out })
  time_out_at _ _ s = none

  -- `poll` ends without a message.
  pub time_out : Ends → Option Ends
  unfolding time_out_at
  time_out s = time_out_at s.client s.to_client s

  pub data Who : Type 0 where
    client_goes connection_goes time_passes : Who

  pub step : Setup → Json → Who → Ends → Option Ends
  unfolding client_step connection_step time_out
  step setup message client_goes s = client_step setup message s
  step setup message connection_goes s = connection_step setup s
  step setup message time_passes s = time_out s

  pub data Reach (setup : Setup) (message : Json) : Ends → Type 0 where
    start : Reach setup message accepted
    next :
        {s s' : Ends} (who : Who)
        → Reach setup message s
        → step setup message who s ≡ some s'
        → Reach setup message s'
