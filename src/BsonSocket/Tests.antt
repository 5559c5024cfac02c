-- ===== src/BsonSocket/Tests.antt =====
-- The theorems on the byte stream at concrete messages.
use mros_w24_solution.Common.{ℕ, true, false, List, [], ◌∷◌, ◌++◌, ◌≡◌, ◌≢◌, refl, arith}
use mros_w24_solution.Json.Sample.{tree_json, Tree, end, to_bson, from_bson}
use mros_w24_solution.BsonSocket.{
  accepted, completed, closed, received, send_bson, receive_bson, send_message, receive_message,
  size_bytes, send_rounds, send_body, send_parts,
}
use mros_w24_solution.BsonSocket.Bytes.{frame}
use mros_w24_solution.BsonSocket.Send.{whole, halves, garbled, send_bson-frame}
use mros_w24_solution.BsonSocket.Receive.{joined, arriving, Receives, receive_bson-frame}
use mros_w24_solution.BsonSocket.RoundTrip.{
  receive_bsons, receive_bsons-frames, receive_message-send_message, receive_bson-garbled,
}

-- The BSON of an empty document.
abbrev empty_document : List ℕ
empty_document = 5 ∷ 0 ∷ 0 ∷ 0 ∷ 0 ∷ []

-- Its frame, cut at the buffer of four bytes, with one byte of the next message.
abbrev cut : List (List ℕ)
cut = (5 ∷ 0 ∷ 0 ∷ 0 ∷ []) ∷ (0 ∷ 0 ∷ 0 ∷ 0 ∷ []) ∷ (5 ∷ 0 ∷ 0 ∷ []) ∷ (0 ∷ 0 ∷ 7 ∷ []) ∷ []

framed : frame empty_document ≡ 5 ∷ 0 ∷ 0 ∷ 0 ∷ 0 ∷ 0 ∷ 0 ∷ 0 ∷ 5 ∷ 0 ∷ 0 ∷ 0 ∷ 0 ∷ []
unfolding frame size_bytes
framed = refl

cut_stream : [] ++ joined cut ≡ frame empty_document ++ (7 ∷ [])
unfolding joined frame size_bytes
cut_stream = refl

receive_bson-frame_example :
    Receives empty_document (7 ∷ []) (closed ∷ []) (receive_bson [] (arriving cut (closed ∷ [])))
receive_bson-frame_example =
    receive_bson-frame empty_document (7 ∷ []) [] cut (closed ∷ []) (omega arith) cut_stream

receive_bsons-frames_example :
    (storage : List ℕ) × (chunks : List (List ℕ)) × (receive_bsons 1 [] (arriving cut [])
      ≡ received (empty_document ∷ []) storage (arriving chunks []))
    × (storage ++ joined chunks ≡ 7 ∷ [])
unfolding joined frame size_bytes
receive_bsons-frames_example =
    receive_bsons-frames (empty_document ∷ []) (7 ∷ []) [] cut [] (omega arith) refl

send_bson-frame_example :
    send_bson empty_document ((accepted 3 ∷ accepted 5 ∷ []) ++ ((accepted 5 ∷ []) ++ []))
    ≡ completed (frame empty_document) []
send_bson-frame_example =
    send_bson-frame empty_document [] (omega arith) (omega arith) (halves 3 (omega arith)) whole

empty_document_sends :
    send_message true false (Tree.object end) ((accepted 8 ∷ []) ++ ((accepted 5 ∷ []) ++ []))
    ≡ completed (frame empty_document) []
unfolding send_message send_bson send_rounds send_parts send_body size_bytes frame to_bson
empty_document_sends = refl

receive_message-send_message_example :
    (storage : List ℕ) × (chunks : List (List ℕ)) × (receive_message true [] (arriving cut [])
      ≡ received (Tree.object end) storage (arriving chunks []))
    × (storage ++ joined chunks ≡ 7 ∷ [])
unfolding to_bson from_bson
receive_message-send_message_example =
    receive_message-send_message (Tree.object end) empty_document (frame empty_document) (7 ∷ []) []
      cut [] refl refl (omega arith) (omega arith) whole whole empty_document_sends cut_stream

-- A message of six bytes that goes out as 2, 2 and 2.
abbrev six : List ℕ
six = 1 ∷ 2 ∷ 3 ∷ 4 ∷ 5 ∷ 6 ∷ []

abbrev six_wire : List ℕ
six_wire = 6 ∷ 0 ∷ 0 ∷ 0 ∷ 0 ∷ 0 ∷ 0 ∷ 0 ∷ 1 ∷ 2 ∷ 3 ∷ 4 ∷ 3 ∷ 4 ∷ []

last_bytes_differ : ◌≢◌ {A = List ℕ} (3 ∷ 4 ∷ []) (5 ∷ 6 ∷ [])
last_bytes_differ e = ground (arith, e)

six_sends :
    send_bson six ((accepted 8 ∷ []) ++ (accepted 2 ∷ (accepted 2 ∷ (accepted 2 ∷ []))))
    ≡ completed six_wire []
unfolding send_bson send_rounds send_parts send_body size_bytes
six_sends = refl

receive_bson-garbled_example :
    Receives (garbled 2 2 six) [] [] (receive_bson [] (arriving (six_wire ∷ []) []))
    × (garbled 2 2 six ≢ six)
unfolding joined
receive_bson-garbled_example =
    receive_bson-garbled six six_wire [] [] (six_wire ∷ []) [] 2 2 whole (omega arith) (omega arith)
      (omega arith) last_bytes_differ six_sends refl
