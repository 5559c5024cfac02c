-- ===== src/BsonSocket.antt =====
-- include/socket/bson_socket/bson_socket.hpp and src/socket/bson_socket/bson_socket.cpp: messages
-- over a byte stream, each behind the eight bytes of its size. What `send`, `recv` and `poll` answer
-- is an argument. A size_t wraps at 2 ^ 64, and the size is laid out low byte first, as on the
-- machines that the program is built for.
pub mod Bytes
pub mod Send
pub mod Receive
pub mod RoundTrip
mod Tests
use mros_w24_solution.Common.{
  ℕ, zero, suc, ◌+◌, ◌-◌, ◌*◌, ◌/◌, ◌%◌, ◌^◌, Bool, true, false, List, [], ◌∷◌, ◌++◌, Option, none,
  some, ltb, nat_eq, if◌then◌else◌, length, take, drop,
}
use mros_w24_solution.Json.{JsonLib, Json}

-- What a call throws. `length_error` is that of std::basic_string, and the last two are those of
-- the json package.
pub data Error : Type 0 where
  socket_exception peer_closed_exception socket_errno_exception length_error : Error
  json_type_error json_parse_error : Error

-- The bytes of a number that is stored in `k` bytes.
pub size_bytes : ℕ → ℕ → List ℕ
size_bytes zero n = []
size_bytes (suc k) n = (n % 256) ∷ size_bytes k (n / 256)

-- The number that the bytes hold.
pub size_value : List ℕ → ℕ
size_value [] = 0
size_value (b ∷ bytes) = b + 256 * size_value bytes

-- What a call of `send` answers: the number of bytes that it took, or -1.
pub data Sent : Type 0 where
  accepted : ℕ → Sent
  refused : Sent

-- How a send ends, with all the bytes that have gone out, and the answers not yet used. `blocked`
-- waits for an answer that has not come.
pub data SendEnd : Type 0 where
  completed : List ℕ → List Sent → SendEnd
  threw : Error → List ℕ → SendEnd
  blocked : List ℕ → SendEnd

-- The rounds of a loop that sends `bytes`, from the call of `send` on. `left` is
-- `size_to_complete_send`, `offset` is `send_size`, the answer to the call before, and `out` is what
-- has gone out.
pub send_rounds : List ℕ → ℕ → ℕ → List ℕ → List Sent → SendEnd
send_rounds bytes left offset out [] = blocked out
send_rounds bytes left offset out (refused ∷ answers) = threw socket_errno_exception out
send_rounds bytes left offset out (accepted k ∷ answers) =
    let left' = (left + 2 ^ 64 - k) % 2 ^ 64 in
    let out' = out ++ take k (drop offset bytes) in
    let rest = send_rounds bytes left' k out' answers in
    if ltb 0 left' then rest else completed out' answers

-- The loop that sends the message itself tests first.
send_body : List ℕ → List ℕ → List Sent → SendEnd
unfolding send_rounds
send_body bytes out answers =
    if ltb 0 (length bytes)
    then send_rounds bytes (length bytes) 0 out answers
    else completed out answers

-- The two loops one after the other.
send_parts : List ℕ → SendEnd → SendEnd
unfolding send_body
send_parts bson (completed out answers) = send_body bson out answers
send_parts bson (threw e out) = threw e out
send_parts bson (blocked out) = blocked out

pub send_bson : List ℕ → List Sent → SendEnd
unfolding send_rounds send_parts
send_bson bson answers = send_parts bson (send_rounds (size_bytes 8 (length bson)) 8 0 [] answers)

-- What a call of `recv` answers: some bytes, 0 because the peer has closed, or -1.
pub data Received : Type 0 where
  bytes : List ℕ → Received
  closed failed : Received

-- How a receive ends, with `storage_bson_` and the answers not yet used. `undefined` is a step past
-- the front of the storage.
pub data ReceiveEnd {ℓ} (A : Type ℓ) : Type ℓ where
  received : A → List ℕ → List Received → ReceiveEnd A
  threw : Error → List ℕ → List Received → ReceiveEnd A
  blocked : List ℕ → ReceiveEnd A
  undefined : ReceiveEnd A

infixl 5 ◌>>=◌
abbrev ◌>>=◌ {ℓ κ} :
    {A : Type ℓ} {B : Type κ}
    → ReceiveEnd A
    → (A → List ℕ → List Received → ReceiveEnd B)
    → ReceiveEnd B
received a storage answers >>= f = f a storage answers
threw e storage answers >>= f = threw e storage answers
blocked storage >>= f = blocked storage
undefined >>= f = undefined

-- Both loops that fill the storage up to a size. An answer of -1 is appended as a length first, and
-- the append throws.
pub fill : ℕ → List ℕ → List Received → ReceiveEnd (Unit {0})
fill size storage [] = if ltb (length storage) size then blocked storage else received tt storage []
fill size storage (bytes chunk ∷ answers) =
    let rest = fill size (storage ++ chunk) answers in
    if ltb (length storage) size then rest else received tt storage (bytes chunk ∷ answers)
fill size storage (closed ∷ answers) =
    if ltb (length storage) size
    then threw peer_closed_exception storage answers
    else received tt storage (closed ∷ answers)
fill size storage (failed ∷ answers) =
    if ltb (length storage) size
    then threw length_error storage answers
    else received tt storage (failed ∷ answers)

-- `storage_bson_.erase(begin, begin += static_cast<int>(bson_size))`
erase_message : ℕ → List ℕ → Option (List ℕ)
erase_message size storage =
    let n = size % 2 ^ 32 in if ltb n (2 ^ 31) then some (drop n storage) else none

cut_message : ℕ → List ℕ → List Received → Option (List ℕ) → ReceiveEnd (List ℕ)
cut_message size storage answers none = undefined
cut_message size storage answers (some rest) = received (take size storage) rest answers

-- The bytes of the next message.
pub receive_bson : List ℕ → List Received → ReceiveEnd (List ℕ)
unfolding erase_message cut_message
receive_bson storage answers = fill 8 storage answers >>= λ _ storage answers.
    let size = size_value (take 8 storage) in
    fill size (drop 8 storage) answers >>= λ _ storage answers.
    cut_message size storage answers (erase_message size storage)

module _ ⦃json : JsonLib⦄ where
  open json use {to_bson, from_bson}

  send_encoded : Option (List ℕ) → List Sent → SendEnd
  send_encoded none answers = threw json_type_error []
  send_encoded (some bson) answers = send_bson bson answers

  -- `sendMessage`. `hung_up` tells whether `poll` reports that the peer has closed.
  pub send_message : Bool → Bool → Json → List Sent → SendEnd
  unfolding send_encoded
  send_message is_open hung_up message answers =
      if is_open
      then (if hung_up
          then threw peer_closed_exception []
          else send_encoded (to_bson message) answers)
      else threw socket_exception []

  decoded : Option Json → List ℕ → List Received → ReceiveEnd Json
  decoded none storage answers = threw json_parse_error storage answers
  decoded (some message) storage answers = received message storage answers

  -- `receiveMessage`
  pub receive_message : Bool → List ℕ → List Received → ReceiveEnd Json
  unfolding decoded
  receive_message is_open storage answers =
      if is_open
      then (receive_bson storage answers >>= λ bson. decoded (from_bson bson))
      else threw socket_exception storage answers
