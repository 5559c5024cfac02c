-- ===== src/Delivery/Arrive.antt =====
-- What a subscriber of include/mros/subscriber.hpp has in its queue after a publisher of
-- include/mros/publisher.hpp has published.
use mathlib.Core.List.{append-nil, append_assoc}
use mros_w24_solution.Common.{
  ℕ, suc, ◌+◌, ◌^◌, ◌≤◌, ◌<◌, String, Bool, true, List, [], ◌∷◌, ◌++◌, some, ◌≡◌, refl, sym, ap,
  ◌∙◌, arith, length, length-append, All,
}
use mros_w24_solution.Json.{JsonLib}
use mros_w24_solution.BsonSocket
use mros_w24_solution.BsonSocket.{Sent, completed, received, receive_message}
use mros_w24_solution.BsonSocket.Send.{AtMostTwo}
use mros_w24_solution.BsonSocket.Receive.{joined, arriving}
use mros_w24_solution.BsonSocket.RoundTrip.{receive_message-send_message}
use mros_w24_solution.Subscriber.{Subscriber, message, limit, enqueue}
use mros_w24_solution.Subscriber.Queue.{
  receive_messages-message, enqueue_within, queue_size-enqueue,
}
use mros_w24_solution.Publisher.{Publisher}
use mros_w24_solution.Publisher.Deliveries.{
  Distinct, has, sent_on, publish_all, until_failure, publish_all-sent,
}
use mros_w24_solution.Delivery.{MessageType, send, received_next, receive_one, receive_cycles}

module _ ⦃json : JsonLib⦄ ⦃type : MessageType⦄ where
  open json use {to_bson, from_bson}
  open type use {Message}

  -- A message that has gone out: its BSON, what `send` answered for the size and for the message, and
  -- the bytes on the wire.
  pub record Transmission : Type 0 where
    pub message : Message
    pub bson : List ℕ
    pub for_size : List Sent
    pub for_message : List Sent
    pub wire : List ℕ

  -- The json package writes the message and reads it back, each loop of `sendMessage` ends within two
  -- calls of `send`, and these bytes have gone out.
  pub record Completed (t : Transmission) : Type 0 where
    pub writes : to_bson (type.convert_to_json t.message) ≡ some t.bson
    pub reads : from_bson t.bson ≡ some (type.convert_to_json t.message)
    pub nonempty : 0 < length t.bson
    pub small : length t.bson < 2 ^ 31
    pub size_sends : AtMostTwo 8 t.for_size
    pub message_sends : AtMostTwo (length t.bson) t.for_message
    pub sends : send t.message (t.for_size ++ (t.for_message ++ [])) ≡ completed t.wire []

  abbrev pub messages : List Transmission → List Message
  messages [] = []
  messages (t ∷ ts) = t.message ∷ messages ts

  abbrev pub wires : List Transmission → List ℕ
  wires [] = []
  wires (t ∷ ts) = t.wire ++ wires ts

  -- One message is taken off the stream.
  receive_one-Completed :
      (t : Transmission)
      → Completed t
      → (rest storage : List ℕ) (chunks : List (List ℕ)) (later : List BsonSocket.Received)
      → storage ++ joined chunks ≡ t.wire ++ rest
      → (storage' : List ℕ) × (chunks' : List (List ℕ)) × (receive_one
            (record { storage = storage; answers = arriving chunks later })
          ≡ some
              (message t.message, record { storage = storage'; answers = arriving chunks' later }))
        × (storage' ++ joined chunks' ≡ rest)
  unfolding receive_one received_next send
  receive_one-Completed t h rest storage chunks later stream =
      let (storage', chunks', got, left) =
        receive_message-send_message (type.convert_to_json t.message) t.bson t.wire rest storage
          chunks later h.writes h.reads h.nonempty h.small h.size_sends h.message_sends h.sends
          stream in
      (storage', chunks', rw (got, type.set_from_json-convert_to_json t.message) refl, left)

  -- Cycles that take messages off the stream put them at the end of the queue, as long as it is within
  -- its limit.
  receive_cycles-Completed :
      (ts : List Transmission)
      → All Completed ts
      → (uri : String) (s : Subscriber Message)
      → length s.message_queue + length ts ≤ limit s.queue_size + 1
      → (rest storage : List ℕ) (chunks : List (List ℕ)) (later : List BsonSocket.Received)
      → storage ++ joined chunks ≡ wires ts ++ rest
      → (storage' : List ℕ) × (chunks' : List (List ℕ)) × (s' : Subscriber Message)
        × (receive_cycles
              (length ts)
              uri
              (record { storage = storage; answers = arriving chunks later })
              s
            ≡ some (record { storage = storage'; answers = arriving chunks' later }, s'))
        × (s'.message_queue ≡ s.message_queue ++ messages ts)
        × (storage' ++ joined chunks' ≡ rest)
  unfolding receive_cycles
  receive_cycles-Completed [] h uri s fits rest storage chunks later stream =
      (storage, chunks, s, refl, sym (append-nil s.message_queue), stream)
  receive_cycles-Completed (t ∷ ts) (h, hs) uri s fits rest storage chunks later stream =
      let m = t.message in
      let (storage1, chunks1, one, left1) =
        receive_one-Completed t h (wires ts ++ rest) storage chunks later
          (stream ∙ append_assoc t.wire (wires ts) rest) in
      let queue : (enqueue m s).message_queue ≡ s.message_queue ++ m ∷ [] =
        enqueue_within m s (omega (arith, fits)) in
      let (storage2, chunks2, s2, others, queued, left2) =
        receive_cycles-Completed ts hs uri (enqueue m s) (fits_after t ts s queue fits) rest
          storage1 chunks1 later left1 in
      (
        storage2,
        chunks2,
        s2,
        rw (one, receive_messages-message uri m s) others,
        queued
            ∙ ap (λ q. q ++ messages ts) queue
            ∙ append_assoc s.message_queue (m ∷ []) (messages ts),
        left2,
      )
    where
      fits_after :
          (t : Transmission) (ts : List Transmission) (s : Subscriber Message)
          → (enqueue t.message s).message_queue ≡ s.message_queue ++ t.message ∷ []
          → length s.message_queue + suc (length ts) ≤ limit s.queue_size + 1
          → length (enqueue t.message s).message_queue + length ts
            ≤ limit (enqueue t.message s).queue_size + 1
      fits_after t ts s queue fits =
          rw (queue, queue_size-enqueue t.message s)
            (omega (arith, fits, length-append s.message_queue (t.message ∷ [])))

  -- A publisher without two equal connections publishes, with a subscriber connected on the socket
  -- `c`, on which nothing was sent before, and the subscriber has no other connection. If each message
  -- that went out on that socket is one that the json package writes, as at least one byte and fewer
  -- than 2 ^ 31, and reads back, the send of its size and the send of its bytes each ended within two
  -- calls of `send`, and all the bytes arrive, however `recv` cuts them, and if the subscriber's queue
  -- has room up to one more than its limit, then as many cycles of the receiving thread put the
  -- published messages at the end of the queue, in order and up to the first whose send to this
  -- subscriber has thrown, and leave what follows on the wire.
  pub published-queued :
      (rounds : List ((ℕ → Bool) × Message)) (c : ℕ) (p : Publisher Message)
      → Distinct p.subscriber_connections
      → has c p.subscriber_connections ≡ true
      → sent_on c p.sent ≡ []
      → (ts : List Transmission) → messages ts ≡ sent_on c (publish_all rounds p).sent
      → All Completed ts
      → (uri : String) (s : Subscriber Message)
      → length s.message_queue + length ts ≤ limit s.queue_size + 1
      → (rest storage : List ℕ) (chunks : List (List ℕ)) (later : List BsonSocket.Received)
      → storage ++ joined chunks ≡ wires ts ++ rest
      → (storage' : List ℕ) × (chunks' : List (List ℕ)) × (s' : Subscriber Message)
        × (receive_cycles
              (length ts)
              uri
              (record { storage = storage; answers = arriving chunks later })
              s
            ≡ some (record { storage = storage'; answers = arriving chunks' later }, s'))
        × (s'.message_queue ≡ s.message_queue ++ until_failure c rounds)
        × (storage' ++ joined chunks' ≡ rest)
  published-queued rounds c p distinct there nothing_yet ts out h uri s fits rest storage chunks
        later stream =
      let (storage', chunks', s', got, queued, left) =
        receive_cycles-Completed ts h uri s fits rest storage chunks later stream in
      (
        storage',
        chunks',
        s',
        got,
        queued
            ∙ ap (λ l. s.message_queue ++ l)
                (out ∙ publish_all-sent rounds c p distinct ∙ rw (nothing_yet, there) refl),
        left,
      )
