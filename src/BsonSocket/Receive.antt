-- ===== src/BsonSocket/Receive.antt =====
-- `receiveMessage` of src/socket/bson_socket/bson_socket.cpp finds the messages in the stream,
-- however the stream is cut into answers of `recv`.
use mathlib.Core.List.{append-nil, append_assoc}
use mros_w24_solution.Common.{
  ℕ, zero, suc, ◌^◌, ◌<◌, ◌≤◌, ◌≡◌, refl, ap, sym, ◌∙◌, List, [], ◌∷◌, ◌++◌, arith, length, take,
  drop, ltb, inl, inr, Bool-cases, ltb→lt, ltb→le, length-append, some,
}
use mros_w24_solution.BsonSocket.{
  Received, bytes, closed, failed, ReceiveEnd, received, fill, erase_message, cut_message,
  receive_bson, size_bytes, size_value,
}
use mros_w24_solution.BsonSocket.Bytes.{length-size_bytes, size_value-size_bytes, frame}

-- The bytes of some chunks.
unfoldable pub joined : List (List ℕ) → List ℕ
joined [] = []
joined (chunk ∷ chunks) = chunk ++ joined chunks

-- Chunks that arrive, and then other answers.
unfoldable pub arriving : List (List ℕ) → List Received → List Received
arriving [] later = later
arriving (chunk ∷ chunks) later = bytes chunk ∷ arriving chunks later

fill_full :
    (size : ℕ) (storage : List ℕ) (answers : List Received)
    → size ≤ length storage
    → fill size storage answers ≡ received tt storage answers
unfolding fill
fill_full size storage [] h = ground arith
fill_full size storage (bytes chunk ∷ answers) h = ground arith
fill_full size storage (closed ∷ answers) h = ground arith
fill_full size storage (failed ∷ answers) h = ground arith

fill_more :
    (size : ℕ) (storage chunk : List ℕ) (answers : List Received)
    → length storage < size
    → fill size storage (bytes chunk ∷ answers) ≡ fill size (storage ++ chunk) answers
unfolding fill
fill_more size storage chunk answers h = ground arith

-- The outcome of a loop that fills the storage from chunks that hold enough.
abbrev Filled : ℕ → List ℕ → List (List ℕ) → List Received → ReceiveEnd (Unit {0}) → Type 0
Filled size storage chunks later r =
    (storage' : List ℕ) × (chunks' : List (List ℕ)) × (r
      ≡ received tt storage' (arriving chunks' later))
    × (storage' ++ joined chunks' ≡ storage ++ joined chunks)
    × (size ≤ length storage')

fill-Filled :
    (size : ℕ) (storage : List ℕ) (chunks : List (List ℕ)) (later : List Received)
    → size ≤ length (storage ++ joined chunks)
    → Filled size storage chunks later (fill size storage (arriving chunks later))
unfolding arriving joined
fill-Filled size storage [] later h =
    let enough : size ≤ length storage = rw (append-nil storage) at h in
    (storage, [], fill_full size storage later enough, refl, enough)
fill-Filled size storage (chunk ∷ chunks) later h = elim (Bool-cases (ltb (length storage) size)) [
  | inl short ↦
      let same : (storage ++ chunk) ++ joined chunks ≡ storage ++ (chunk ++ joined chunks) =
        append_assoc storage chunk (joined chunks) in
      let (storage', chunks', done, left, enough) =
        fill-Filled size (storage ++ chunk) chunks later (rw same h) in
      (
        storage',
        chunks',
        fill_more size storage chunk _ (ltb→lt _ _ short) ∙ done,
        left ∙ same,
        enough,
      )
  | inr full ↦
      (storage, chunk ∷ chunks, fill_full size storage _ (ltb→le _ _ full), refl, ltb→le _ _ full)
]

-- The front of the storage is the front of the stream.
split_front :
    (n : ℕ) (storage later front rest : List ℕ)
    → n ≡ length front
    → n ≤ length storage
    → storage ++ later ≡ front ++ rest
    → (take n storage ≡ front) × (drop n storage ++ later ≡ rest)
split_front zero storage later [] rest e h s = (refl, s)
split_front zero storage later (b ∷ front) rest e h s = absurd (omega arith)
split_front (suc n) storage later [] rest e h s = absurd (omega arith)
split_front (suc n) [] later (b ∷ front) rest e h s = absurd (omega arith)
split_front (suc n) (a ∷ storage) later (b ∷ front) rest e h s =
    let (same, left) = split_front n storage later front rest (omega arith) (omega arith) (cc) in
    (cc (same), left)

erase_message_lem :
    (size : ℕ) (storage : List ℕ)
    → size < 2 ^ 31
    → erase_message size storage ≡ some (drop size storage)
unfolding erase_message
erase_message_lem size storage h = ground arith

-- What `receive_bson` leaves when the stream goes on with `rest`.
abbrev pub Receives : List ℕ → List ℕ → List Received → ReceiveEnd (List ℕ) → Type 0
Receives bson rest later r =
    (storage : List ℕ) × (chunks : List (List ℕ)) × (r
      ≡ received bson storage (arriving chunks later))
    × (storage ++ joined chunks ≡ rest)

receive_bson_steps :
    (storage storage' storage'' : List ℕ) (answers answers' answers'' : List Received) (size : ℕ)
    → fill 8 storage answers ≡ received tt storage' answers'
    → size_value (take 8 storage') ≡ size
    → fill size (drop 8 storage') answers' ≡ received tt storage'' answers''
    → size < 2 ^ 31
    → receive_bson storage answers ≡ received (take size storage'') (drop size storage'') answers''
unfolding receive_bson cut_message
receive_bson_steps storage storage' storage'' answers answers' answers'' size f s g h =
    rw (f, s, g, erase_message_lem size storage'' h) refl

-- A stream that begins with the frame of a message, part of it in the storage and the rest in
-- chunks of any sizes: the message comes out whole, and what is left of the storage and the chunks
-- is the stream behind it.
pub receive_bson-frame :
    (bson rest storage : List ℕ) (chunks : List (List ℕ)) (later : List Received)
    → length bson < 2 ^ 31
    → storage ++ joined chunks ≡ frame bson ++ rest
    → Receives bson rest later (receive_bson storage (arriving chunks later))
receive_bson-frame bson rest storage chunks later h e =
    let field = size_bytes 8 (length bson) in
    let stream : storage ++ joined chunks ≡ field ++ (bson ++ rest) =
      e ∙ unfold frame in append_assoc field bson rest in
    let (storage', chunks', filled, same, enough) = fill-Filled 8 storage chunks later (
      omega (
        arith,
        ap length stream,
        length-append field (bson ++ rest),
        length-size_bytes 8 (length bson),
      )) in
    let (front, body) =
      split_front 8 storage' (joined chunks') field (bson ++ rest)
        (sym (length-size_bytes 8 (length bson))) enough (same ∙ stream) in
    let (storage'', chunks'', filled', same', enough') =
      fill-Filled (length bson) (drop 8 storage') chunks' later
        (omega (arith, ap length body, length-append bson rest)) in
    let (message, left) =
      split_front (length bson) storage'' (joined chunks'') bson rest refl enough' (same' ∙ body) in
    (
      drop (length bson) storage'',
      chunks'',
      receive_bson_steps storage storage' storage'' _ _ _ (length bson) filled
            (ap size_value front ∙ size_value-size_bytes 8 (length bson) (omega arith)) filled' h
          ∙ rw message refl,
      left,
    )
