-- ===== src/Rpc/Dispatch.antt =====
-- Which callback a message reaches in src/socket/bson_rpc_socket/bson_rpc_socket.cpp.
use mros_w24_solution.Common.{String, Bool, true, [], Option, none, some, ◌>>=◌, ◌≡◌, refl, ap}
use mros_w24_solution.Containers.Table.{lookup}
use mros_w24_solution.Json.{JsonLib, Json}
use mros_w24_solution.Rpc.{
  Callbacks, request_message, request_response_message, closing_message, closing, request_response,
  request, classify, call_request, call_request_response, process_request, process_request_response,
  receive_round,
}

module _ ⦃json : JsonLib⦄ where
  open json use {
    null, string, boolean, object, find, get_string, empty, is_discarded, find-object, find-null,
    empty-null, empty-nil, empty-cons, is_discarded-object, get_string-string,
  }

  pub classify-request_message :
      (name : String) (argument : Json) → classify (request_message name argument) ≡ request
  unfolding classify lookup
  classify-request_message name argument = simp (find-object, empty-cons, is_discarded-object)

  pub classify-request_response_message :
      (name : String) (argument : Json) (response_name : String)
      → classify (request_response_message name argument response_name) ≡ request_response
  unfolding classify lookup
  classify-request_response_message name argument response_name =
      simp (find-object, empty-cons, is_discarded-object)

  pub classify-closing_message : (b : Bool) → classify (closing_message b) ≡ closing
  unfolding classify lookup
  classify-closing_message b = simp (find-object, empty-cons, is_discarded-object)

  pub classify-null : classify null ≡ closing
  unfolding classify
  classify-null = simp (find-null, empty-null)

  pub classify-nil : classify (object []) ≡ closing
  unfolding classify lookup
  classify-nil = simp (find-object, empty-nil)

  module _ {W : Type 0} where
    -- The outcome of a callback, with the loop going on.
    abbrev pub go_on : Option W → Option (W × Bool)
    go_on r = r >>= λ w. some (w, true)

    abbrev pub invoke : Option (Json → W → Option W) → Json → W → Option W
    invoke none argument w = some w
    invoke (some f) argument w = f argument w

    abbrev pub invoke_and_respond :
        Callbacks W → Option (Json → W → Option (Json × W)) → Json → String → W → Option W
    invoke_and_respond s none argument response_name w = some w
    invoke_and_respond s (some f) argument response_name w =
        f argument w >>= λ (result, w'). some (s.send_request response_name result w')

    call_request_lem :
        (o : Option (Json → W → Option W)) (name : String) (argument : Json) (w : W)
        → call_request o (request_message name argument) w ≡ invoke o argument w
    unfolding call_request lookup
    call_request_lem none name argument w = refl
    call_request_lem (some f) name argument w = simp find-object

    call_request_response_lem :
        (s : Callbacks W) (o : Option (Json → W → Option (Json × W))) (name response_name : String)
        (argument : Json) (w : W)
        → call_request_response s response_name o
            (request_response_message name argument response_name)
            w
          ≡ invoke_and_respond s o argument response_name w
    unfolding call_request_response lookup
    call_request_response_lem s none name response_name argument w = refl
    call_request_response_lem s (some f) name response_name argument w = simp find-object

    process_request_lem :
        (s : Callbacks W) (name : String) (argument : Json) (w : W)
        → process_request s (request_message name argument) w
          ≡ invoke (lookup name s.request_callbacks) argument w
    unfolding process_request
    process_request_lem s name argument w =
        rw (name_found) (call_request_lem (lookup name s.request_callbacks) name argument w)
      where
        name_found :
            (find "callback name" (request_message name argument) >>= get_string) ≡ some name
        name_found = unfold lookup in simp (find-object, get_string-string)

    process_request_response_lem :
        (s : Callbacks W) (name response_name : String) (argument : Json) (w : W)
        → process_request_response s (request_response_message name argument response_name) w
          ≡ invoke_and_respond s (lookup name s.request_response_callbacks) argument response_name w
    unfolding process_request_response
    process_request_response_lem s name response_name argument w =
        rw (response_found, name_found)
          (call_request_response_lem s (lookup name s.request_response_callbacks) name response_name
            argument w)
      where
        message : Json
        message = request_response_message name argument response_name

        response_found : (find "response callback name" message >>= get_string) ≡ some response_name
        response_found = unfold lookup in simp (find-object, get_string-string)

        name_found : (find "callback name" message >>= get_string) ≡ some name
        name_found = unfold lookup in simp (find-object, get_string-string)

    -- A half duplex call runs the callback of its name, if there is one, on the argument sent.
    pub receive_round-request :
        (s : Callbacks W) (before : Json) (name : String) (argument : Json) (w : W)
        → receive_round s before (some (request_message name argument)) w
          ≡ go_on (invoke (lookup name s.request_callbacks) argument w)
    unfolding receive_round
    receive_round-request s before name argument w =
        rw (classify-request_message name argument)
          (ap go_on (process_request_lem s name argument w))

    -- A full duplex call runs the callback of its name, and sends the result to the named response
    -- callback of the caller.
    pub receive_round-request_response :
        (s : Callbacks W) (before : Json) (name response_name : String) (argument : Json) (w : W)
        → receive_round s before (some (request_response_message name argument response_name)) w
          ≡ go_on (
              invoke_and_respond s
                (lookup name s.request_response_callbacks)
                argument
                response_name
                w)
    unfolding receive_round
    receive_round-request_response s before name response_name argument w =
        rw (classify-request_response_message name argument response_name)
          (ap go_on (process_request_response_lem s name response_name argument w))
