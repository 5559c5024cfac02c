-- ===== src/Rpc/Tests.antt =====
-- The theorems on the receiving thread at a socket that counts.
use mros_w24_solution.Common.{
  ℕ, suc, [], ◌∷◌, ◌++◌, Option, none, some, ◌≡◌, refl, ◌==◌, if◌then◌else◌,
}
use mros_w24_solution.Json.{Json}
use mros_w24_solution.Json.Sample.{tree_json, Tree}
use mros_w24_solution.Rpc.{
  Callbacks, request_message, receive_round, receive_cycle, register_request_callback,
}
use mros_w24_solution.Rpc.Dispatch.{go_on}
use mros_w24_solution.Rpc.Cycle.{failed, finish, receive_cycle-Ends, receive_round-register}

-- The owner's state is a number, which the closing callback resets.
abbrev counter : Callbacks ℕ
counter = record {
  request_callbacks = [];
  request_response_callbacks = [];
  closing_callback = some (λ n. some 0);
  send_request = λ name argument n. n;
}

abbrev count : Json → ℕ → Option ℕ
count argument n = some (suc n)

receive_cycle-Ends_example : receive_cycle counter ([] ++ none ∷ (none ∷ [])) 5 ≡ finish counter 5
unfolding receive_cycle
receive_cycle-Ends_example = receive_cycle-Ends counter [] (none ∷ []) 5 5 refl failed

receive_round-register_example :
    receive_round
      (register_request_callback "count" count counter)
      Tree.null
      (some (request_message "count" Tree.null))
      5
    ≡ (if "count" == "count"
        then go_on (count Tree.null 5)
        else receive_round counter Tree.null (some (request_message "count" Tree.null)) 5)
receive_round-register_example =
    receive_round-register counter "count" "count" count Tree.null Tree.null 5
