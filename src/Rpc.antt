-- ===== src/Rpc.antt =====
-- include/socket/bson_rpc_socket/bson_rpc_socket.hpp and its source: the messages of the remote
-- calls, and what the receiving thread does with each message. The callbacks change the state `W`
-- of the socket's owner. `none` is a call that throws or is undefined, which ends the program.
pub mod Dispatch
pub mod Cycle
pub mod Closing
pub mod Handshake
mod Tests
use mros_w24_solution.Common.{
  String, Bool, true, false, ◌&&◌, ◌||◌, List, [], ◌∷◌, Option, none, some, ◌>>=◌, if◌then◌else◌,
  is_some,
}
use mros_w24_solution.Containers.Table.{lookup, assign}
use mros_w24_solution.Json.{JsonLib, Json}

-- How the receiving thread reads a message.
pub data Kind : Type 0 where
  closing request_response request ignored : Kind

module _ ⦃json : JsonLib⦄ where
  open json use {null, string, boolean, object, find, get_string, empty, is_discarded}

  -- The callbacks of a socket. `send_request` is the socket's own `sendRequest`, as its owner sees it.
  pub record Callbacks (W : Type 0) : Type 0 where
    pub request_callbacks : List (String × (Json → W → Option W))
    pub request_response_callbacks : List (String × (Json → W → Option (Json × W)))
    pub closing_callback : Option (W → Option W)
    pub send_request : String → Json → W → W

  -- The message that `sendRequest` sends.
  abbrev pub request_message : String → Json → Json
  request_message name argument =
      object (("callback name", string name) ∷ ("message", argument) ∷ [])

  -- The message that `sendRequestAndGetResponse` sends.
  abbrev pub request_response_message : String → Json → String → Json
  request_response_message name argument response_name = object (
      ("callback name", string name)
      ∷ ("response callback name", string response_name)
      ∷ ("message", argument)
      ∷ [])

  -- The message that `sendClosingMessage` sends.
  abbrev pub closing_message : Bool → Json
  closing_message closing_callback_set = object (("close", boolean closing_callback_set) ∷ [])

  module _ {W : Type 0} where
    unfoldable pub register_request_callback :
        String → (Json → W → Option W) → Callbacks W → Callbacks W
    register_request_callback name f s = record s {
      request_callbacks = assign name f s.request_callbacks;
    }

    unfoldable pub register_request_response_callback :
        String → (Json → W → Option (Json × W)) → Callbacks W → Callbacks W
    register_request_response_callback name f s = record s {
      request_response_callbacks = assign name f s.request_response_callbacks;
    }

    unfoldable pub register_closing_callback : (W → Option W) → Callbacks W → Callbacks W
    register_closing_callback f s = record s { closing_callback = some f }

    call_request : Option (Json → W → Option W) → Json → W → Option W
    call_request none message w = some w
    call_request (some f) message w = do argument ← find "message" message; f argument w

    pub process_request : Callbacks W → Json → W → Option W
    unfolding call_request
    process_request s message w = do
      name ← find "callback name" message >>= get_string
      call_request (lookup name s.request_callbacks) message w

    call_request_response :
        Callbacks W → String → Option (Json → W → Option (Json × W)) → Json → W → Option W
    call_request_response s response_name none message w = some w
    call_request_response s response_name (some f) message w = do
      argument ← find "message" message
      (result, w') ← f argument w
      some (s.send_request response_name result w')

    pub process_request_response : Callbacks W → Json → W → Option W
    unfolding call_request_response
    process_request_response s message w = do
      response_name ← find "response callback name" message >>= get_string
      name ← find "callback name" message >>= get_string
      call_request_response s response_name (lookup name s.request_response_callbacks) message w

    unfoldable pub run_closing_callback : Option (W → Option W) → W → Option W
    run_closing_callback none w = some w
    run_closing_callback (some f) w = f w

  -- The order of the tests in `receiveCycle`.
  pub classify : Json → Kind
  classify m =
      if is_some (find "close" m) || (empty m || is_discarded m)
      then closing
      else if is_some (find "response callback name" m)
      then request_response
      else if is_some (find "callback name" m)
      then request
      else ignored

  module _ {W : Type 0} where
    -- What the branch of a message does to the owner, with whether the loop goes on. What the closing
    -- branch does to the socket itself is `close_branch` of Rpc/Closing.
    dispatch : Kind → Callbacks W → Json → W → Option (W × Bool)
    unfolding run_closing_callback
    dispatch closing s m w = do w' ← run_closing_callback s.closing_callback w; some (w', false)
    dispatch request_response s m w = do w' ← process_request_response s m w; some (w', true)
    dispatch request s m w = do w' ← process_request s m w; some (w', true)
    dispatch ignored s m w = some (w, true)

    -- One round of `receiveCycle`. `none` in place of the message is an exception of
    -- `receiveMessage`, which the loop catches: it goes on with the value that `received_message` had.
    pub receive_round : Callbacks W → Json → Option Json → W → Option (W × Bool)
    unfolding dispatch classify
    receive_round s before none w = dispatch (classify before) s before w
    receive_round s before (some m) w = dispatch (classify m) s m w

    -- The rounds on what `receiveMessage` gives, each but the first on a cleared message, which is
    -- an empty object. The flag tells whether the thread still waits for more.
    pub receive_rounds : Callbacks W → Json → List (Option Json) → W → Option (W × Bool)
    receive_rounds s before [] w = some (w, true)
    receive_rounds s before (m ∷ ms) w = do
      (w', more) ← receive_round s before m w
      elim more [ true ↦ receive_rounds s (object []) ms w' | false ↦ some (w', false) ]

    -- `receiveCycle`, whose message starts as null.
    pub receive_cycle : Callbacks W → List (Option Json) → W → Option (W × Bool)
    unfolding receive_rounds
    receive_cycle s ms w = receive_rounds s null ms w
