-- ===== src/Delivery/Tests.antt =====
-- A message of the example type from a publisher with one subscriber to the subscriber's queue.
use mathlib.Core.List.{append-nil}
use mros_w24_solution.Common.{ℕ, Bool, true, [], ◌∷◌, ◌++◌, List, some, ◌≡◌, refl, sym, ◌∙◌, arith}
use mros_w24_solution.Json.Sample.{tree_json, to_bson, from_bson, members}
use mros_w24_solution.BsonSocket.{accepted}
use mros_w24_solution.BsonSocket.Bytes.{frame}
use mros_w24_solution.BsonSocket.Send.{whole, halves, send_bson-frame}
use mros_w24_solution.BsonSocket.Receive.{joined, arriving}
use mros_w24_solution.BsonSocket.RoundTrip.{send_message_lem}
use mros_w24_solution.Subscriber.{Subscriber, new_subscriber}
use mros_w24_solution.Publisher.{Publisher, new_publisher, publish, send_all, erase_failed}
use mros_w24_solution.Publisher.Deliveries.{until_failure}
use mros_w24_solution.Delivery.{
  StringMessage, MessageType, string_messages, convert_to_json, send, receive_cycles,
}
use mros_w24_solution.Delivery.Arrive.{Transmission, Completed, wires, published-queued}

instance abbrev messages_of_strings : MessageType
messages_of_strings = string_messages

abbrev hi : StringMessage
hi = record { «data» = "hi" }

abbrev hi_bson : List ℕ
hi_bson = 18 ∷ 0 ∷ 0 ∷ 0 ∷ 2 ∷ 100 ∷ 97 ∷ 116 ∷ 97 ∷ 0 ∷ 3 ∷ 0 ∷ 0 ∷ 0 ∷ 104 ∷ 105 ∷ 0 ∷ 0 ∷ []

abbrev sent_hi : Transmission
sent_hi = record {
  message = hi;
  bson = hi_bson;
  for_size = accepted 8 ∷ [];
  for_message = accepted 10 ∷ accepted 8 ∷ [];
  wire = frame hi_bson;
}

hi_writes : to_bson (convert_to_json hi) ≡ some hi_bson
unfolding convert_to_json members to_bson
hi_writes = refl

hi_reads : from_bson hi_bson ≡ some (convert_to_json hi)
unfolding convert_to_json members from_bson
hi_reads = refl

hi_Completed : Completed sent_hi
unfolding send
hi_Completed = record {
  writes = hi_writes;
  reads = hi_reads;
  nonempty = omega arith;
  small = omega arith;
  size_sends = whole;
  message_sends = halves 10 (omega arith);
  sends =
      send_message_lem (convert_to_json hi) hi_bson _ hi_writes
      ∙ send_bson-frame hi_bson [] (omega arith) (omega arith) whole (halves 10 (omega arith));
}

-- A publisher with a subscriber on the socket 4.
abbrev with_subscriber : Publisher StringMessage
with_subscriber = record new_publisher { subscriber_connections = 4 ∷ [] }

abbrev rounds : List ((ℕ → Bool) × StringMessage)
rounds = ((λ c. true), hi) ∷ []

hi_stream : [] ++ joined (frame hi_bson ∷ []) ≡ wires (sent_hi ∷ []) ++ []
unfolding joined
hi_stream = sym (append-nil (frame hi_bson ++ []))

published-queued_example :
    (storage : List ℕ) × (chunks : List (List ℕ)) × (s : Subscriber StringMessage) × (receive_cycles
        1 "http://10.0.0.1:6000"
        (record { storage = []; answers = arriving (frame hi_bson ∷ []) [] })
        (new_subscriber 10)
      ≡ some (record { storage = storage; answers = arriving chunks [] }, s))
    × (s.message_queue ≡ [] ++ until_failure 4 rounds)
    × (storage ++ joined chunks ≡ [])
unfolding publish send_all erase_failed
published-queued_example =
    published-queued rounds 4 with_subscriber (refl, tt) refl refl (sent_hi ∷ []) refl
      (hi_Completed, tt) "http://10.0.0.1:6000" (new_subscriber 10) (omega arith) [] []
      (frame hi_bson ∷ []) [] hi_stream
