-- ===== src/BsonSocket/Send.antt =====
-- What the loops of `sendMessage` in src/socket/bson_socket/bson_socket.cpp put on the wire.
use mathlib.Core.List.{append_assoc, append_cancel_left}
use mros_w24_solution.Common.{
  ℕ, zero, suc, ◌+◌, ◌-◌, ◌%◌, ◌^◌, ◌<◌, ◌≤◌, ◌≡◌, ◌≢◌, refl, ap, sym, ◌∙◌, List, [], ◌∷◌, ◌++◌,
  arith, length, take, drop, length-drop, take-append-drop,
}
use mros_w24_solution.BsonSocket.{
  Sent, accepted, completed, send_rounds, send_body, send_bson, size_bytes,
}
use mros_w24_solution.BsonSocket.Bytes.{frame, length-size_bytes}

take_all : (n : ℕ) (bytes : List ℕ) → length bytes ≤ n → take n bytes ≡ bytes
take_all zero [] h = refl
take_all zero (b ∷ bytes) h = absurd (omega arith)
take_all (suc n) [] h = refl
take_all (suc n) (b ∷ bytes) h = ap (◌∷◌ b) (take_all n bytes (omega arith))

-- A call that takes less than what is left is followed by another,
send_rounds_more :
    (bytes : List ℕ) (left offset : ℕ) (out : List ℕ) (k : ℕ) (answers : List Sent)
    → k < left
    → left < 2 ^ 64
    → send_rounds bytes left offset out (accepted k ∷ answers)
      ≡ send_rounds bytes (left - k) k (out ++ take k (drop offset bytes)) answers
unfolding send_rounds
send_rounds_more bytes left offset out k answers h small =
    let wraps : (left + 2 ^ 64 - k) % 2 ^ 64 ≡ left - k = omega arith in rw wraps (ground arith)

-- and one that takes all of it ends the loop.
send_rounds_last :
    (bytes : List ℕ) (left offset : ℕ) (out : List ℕ) (answers : List Sent)
    → left < 2 ^ 64
    → send_rounds bytes left offset out (accepted left ∷ answers)
      ≡ completed (out ++ take left (drop offset bytes)) answers
unfolding send_rounds
send_rounds_last bytes left offset out answers small =
    let wraps : (left + 2 ^ 64 - left) % 2 ^ 64 ≡ 0 = omega arith in rw wraps refl

-- Answers of `send` that take `n` bytes in one call, or in two.
pub data AtMostTwo (n : ℕ) : List Sent → Type 0 where
  whole : AtMostTwo n (accepted n ∷ [])
  halves : (k : ℕ) → k < n → AtMostTwo n (accepted k ∷ accepted (n - k) ∷ [])

-- Such a loop sends the bytes as they are.
send_rounds-AtMostTwo :
    (bytes out : List ℕ) (n : ℕ) {answers : List Sent} (later : List Sent)
    → length bytes ≡ n
    → n < 2 ^ 64
    → AtMostTwo n answers
    → send_rounds bytes n 0 out (answers ++ later) ≡ completed (out ++ bytes) later
send_rounds-AtMostTwo bytes out n later e small whole =
    send_rounds_last bytes n 0 out later small ∙ rw (take_all n bytes (omega arith)) refl
send_rounds-AtMostTwo bytes out n later e small (halves k h) =
    send_rounds_more bytes n 0 out k _ h small
    ∙ send_rounds_last bytes (n - k) k (out ++ take k bytes) later (omega arith)
    ∙ rw
        (
          take_all (n - k) (drop k bytes) (omega (arith, length-drop k bytes)),
          append_assoc out (take k bytes) (drop k bytes),
          take-append-drop k bytes,
        )
        refl

-- The second loop runs on a message that is not empty.
send_bson_body :
    (bson : List ℕ) (answers answers' : List Sent)
    → 0 < length bson
    → send_rounds (size_bytes 8 (length bson)) 8 0 [] answers
      ≡ completed (size_bytes 8 (length bson)) answers'
    → send_bson bson answers
      ≡ send_rounds bson (length bson) 0 (size_bytes 8 (length bson)) answers'
unfolding send_bson send_body
send_bson_body bson answers answers' some e = rw e (ground arith)

-- `sendMessage` puts exactly the frame on the wire if neither loop needs more than two calls.
pub send_bson-frame :
    (bson : List ℕ) {answers answers' : List Sent} (later : List Sent)
    → 0 < length bson
    → length bson < 2 ^ 64
    → AtMostTwo 8 answers
    → AtMostTwo (length bson) answers'
    → send_bson bson (answers ++ (answers' ++ later)) ≡ completed (frame bson) later
unfolding frame
send_bson-frame bson {answers} {answers'} later some small first second =
    send_bson_body bson _ _ some
      (send_rounds-AtMostTwo _ [] 8 _ (length-size_bytes 8 (length bson)) (omega arith) first)
    ∙ send_rounds-AtMostTwo bson _ (length bson) later refl small second

-- What a loop of three calls makes of the bytes: the third call starts behind the bytes that the
-- second one took, and not behind those that both took.
abbrev pub garbled : ℕ → ℕ → List ℕ → List ℕ
garbled k l bson = take k bson ++ (take l (drop k bson) ++ take (length bson - k - l) (drop l bson))

-- If the message goes out in three calls, the size field is right and the bytes behind it are the
-- garbled ones.
pub send_bson-garbled :
    (bson : List ℕ) {answers : List Sent} (later : List Sent) (k l : ℕ)
    → AtMostTwo 8 answers
    → 0 < k
    → k + l < length bson
    → length bson < 2 ^ 64
    → send_bson bson (answers ++ accepted k ∷ accepted l ∷ accepted (length bson - k - l) ∷ later)
      ≡ completed (size_bytes 8 (length bson) ++ garbled k l bson) later
send_bson-garbled bson {answers} later k l first pos fits small =
    let field = size_bytes 8 (length bson) in
    send_bson_body bson _ _ (omega arith)
      (send_rounds-AtMostTwo _ [] 8 _ (length-size_bytes 8 (length bson)) (omega arith) first)
    ∙ send_rounds_more bson (length bson) 0 field k _ (omega arith) small
    ∙ send_rounds_more bson (length bson - k) k (field ++ take k bson) l _ (omega arith)
        (omega arith)
    ∙ send_rounds_last bson (length bson - k - l) l _ later (omega arith)
    ∙ ap (λ out. completed out later)
        (append_assoc (field ++ take k bson) (take l (drop k bson)) _
          ∙ append_assoc field (take k bson) _)

-- The garbled bytes are another message of the same length, but where the bytes repeat.
pub garbled-ne :
    (bson : List ℕ) (k l : ℕ)
    → take (length bson - k - l) (drop l bson) ≢ drop l (drop k bson)
    → garbled k l bson ≢ bson
garbled-ne bson k l other e = other (
    append_cancel_left (take l (drop k bson)) _ _ (
      append_cancel_left (take k bson) _ _ (e ∙ sym (take-append-drop k bson))
      ∙ sym (take-append-drop l (drop k bson))))
