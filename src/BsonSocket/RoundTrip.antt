-- ===== src/BsonSocket/RoundTrip.antt =====
-- A message from `sendMessage` to `receiveMessage` of src/socket/bson_socket/bson_socket.cpp.
use mathlib.Core.List.{append_assoc}
use mros_w24_solution.Common.{
  ℕ, zero, suc, ◌+◌, ◌-◌, ◌^◌, ◌<◌, ◌≤◌, ◌≡◌, ◌≢◌, refl, ap, ◌∙◌, List, [], ◌∷◌, ◌++◌, arith,
  length, length-append, length-drop, take, drop, take-append-drop, true, false, some, All,
}
use mros_w24_solution.Json.{JsonLib, Json}
use mros_w24_solution.BsonSocket.{
  Sent, accepted, completed, Received, ReceiveEnd, received, send_bson, receive_bson, send_message,
  receive_message, ◌>>=◌,
}
use mros_w24_solution.BsonSocket.Bytes.{frame}
use mros_w24_solution.BsonSocket.Send.{
  AtMostTwo, send_bson-frame, send_bson-garbled, garbled, garbled-ne,
}
use mros_w24_solution.BsonSocket.Receive.{joined, arriving, Receives, receive_bson-frame}

-- The messages of several calls, one after the other.
pub receive_bsons : ℕ → List ℕ → List Received → ReceiveEnd (List (List ℕ))
receive_bsons zero storage answers = received [] storage answers
receive_bsons (suc n) storage answers = receive_bson storage answers >>= λ bson storage answers.
    receive_bsons n storage answers >>= λ bsons. received (bson ∷ bsons)

abbrev pub frames : List (List ℕ) → List ℕ
frames [] = []
frames (bson ∷ bsons) = frame bson ++ frames bsons

-- Messages that were sent one after the other come out in order, each whole, however their frames
-- are cut into answers of `recv`; what follows them stays for the next call.
pub receive_bsons-frames :
    (bsons : List (List ℕ)) (rest storage : List ℕ) (chunks : List (List ℕ)) (later : List Received)
    → All (λ bson. length bson < 2 ^ 31) bsons
    → storage ++ joined chunks ≡ frames bsons ++ rest
    → (storage' : List ℕ) × (chunks' : List (List ℕ)) × (receive_bsons
          (length bsons)
          storage
          (arriving chunks later)
        ≡ received bsons storage' (arriving chunks' later))
      × (storage' ++ joined chunks' ≡ rest)
unfolding receive_bsons
receive_bsons-frames [] rest storage chunks later h e = (storage, chunks, refl, e)
receive_bsons-frames (bson ∷ bsons) rest storage chunks later (h, hs) e =
    let (storage', chunks', one, left) =
      receive_bson-frame bson (frames bsons ++ rest) storage chunks later h
        (e ∙ append_assoc (frame bson) (frames bsons) rest) in
    let (storage'', chunks'', others, left') =
      receive_bsons-frames bsons rest storage' chunks' later hs left in
    (storage'', chunks'', rw (one, others) refl, left')

module _ ⦃json : JsonLib⦄ where
  open json use {to_bson, from_bson}

  pub send_message_lem :
      (message : Json) (bson : List ℕ) (answers : List Sent)
      → to_bson message ≡ some bson
      → send_message true false message answers ≡ send_bson bson answers
  unfolding send_message
  send_message_lem message bson answers e = rw e refl

  receive_message_lem :
      (message : Json) (bson storage storage' : List ℕ) (answers answers' : List Received)
      → from_bson bson ≡ some message
      → receive_bson storage answers ≡ received bson storage' answers'
      → receive_message true storage answers ≡ received message storage' answers'
  unfolding receive_message
  receive_message_lem message bson storage storage' answers answers' e h = rw (h, e) refl

  -- A message that the json package can write and read back arrives as it was sent: if each of the
  -- sender's loops ends within two calls of `send`, then whatever part of the stream the receiver
  -- has stored, and however `recv` cuts the rest, the receiver gets the message, and what follows it
  -- on the wire is left.
  pub receive_message-send_message :
      (message : Json) (bson : List ℕ) {answers answers' : List Sent} (wire rest storage : List ℕ)
      (chunks : List (List ℕ)) (later : List Received)
      → to_bson message ≡ some bson
      → from_bson bson ≡ some message
      → 0 < length bson
      → length bson < 2 ^ 31
      → AtMostTwo 8 answers
      → AtMostTwo (length bson) answers'
      → send_message true false message (answers ++ (answers' ++ [])) ≡ completed wire []
      → storage ++ joined chunks ≡ wire ++ rest
      → (storage' : List ℕ) × (chunks' : List (List ℕ)) × (receive_message true storage
            (arriving chunks later)
          ≡ received message storage' (arriving chunks' later))
        × (storage' ++ joined chunks' ≡ rest)
  receive_message-send_message message bson wire rest storage chunks later e d pos small first
        second sends stream =
      let framed : send_message true false message _ ≡ completed (frame bson) [] =
        send_message_lem message bson _ e
        ∙ send_bson-frame bson [] pos (omega arith) first second in
      let wire_frame : wire ≡ frame bson = cc in
      let (storage', chunks', got, left) =
        receive_bson-frame bson rest storage chunks later small
          (stream ∙ ap (λ w. w ++ rest) wire_frame) in
      (storage', chunks', receive_message_lem message bson storage storage' _ _ d got, left)

length-take : (n : ℕ) (l : List ℕ) → n ≤ length l → length (take n l) ≡ n
length-take n l h =
    omega (
      arith,
      ap length (take-append-drop n l),
      length-append (take n l) (drop n l),
      length-drop n l,
    )

length-garbled :
    (bson : List ℕ) (k l : ℕ) → k + l < length bson → length (garbled k l bson) ≡ length bson
length-garbled bson k l fits =
    let n = length bson - k - l in
    length-append (take k bson) _
    ∙ omega (
      arith,
      length-append (take l (drop k bson)) (take n (drop l bson)),
      length-drop k bson,
      length-drop l bson,
      length-take k bson,
      length-take l (drop k bson),
      length-take n (drop l bson),
    )

-- If a message goes out in three calls of `send`, no error is reported, and the receiver takes a
-- message of the right size whose last part is sent from the wrong place: it is another message,
-- unless the bytes happen to agree there.
pub receive_bson-garbled :
    (bson : List ℕ) {answers : List Sent} (wire rest storage : List ℕ) (chunks : List (List ℕ))
    (later : List Received) (k l : ℕ)
    → AtMostTwo 8 answers
    → 0 < k
    → k + l < length bson
    → length bson < 2 ^ 31
    → take (length bson - k - l) (drop l bson) ≢ drop l (drop k bson)
    → send_bson bson (answers ++ accepted k ∷ accepted l ∷ accepted (length bson - k - l) ∷ [])
      ≡ completed wire []
    → storage ++ joined chunks ≡ wire ++ rest
    → Receives (garbled k l bson) rest later (receive_bson storage (arriving chunks later))
      × (garbled k l bson ≢ bson)
receive_bson-garbled bson wire rest storage chunks later k l first pos fits small other sends
      stream =
    let same = length-garbled bson k l fits in
    let put = send_bson-garbled bson [] k l first pos fits (omega arith) in
    let wire_frame : wire ≡ frame (garbled k l bson) = unfold frame in rw same (cc) in
    (
      receive_bson-frame (garbled k l bson) rest storage chunks later (omega arith)
          (stream ∙ ap (λ w. w ++ rest) wire_frame),
      garbled-ne bson k l other,
    )
