-- ===== src/Subscriber/Queue.antt =====
-- The queue of include/mros/subscriber.hpp: its bound, what it drops, and the connections that a
-- cycle of the receiving thread leaves.
use mros_w24_solution.Common.{
  ℕ, zero, suc, ◌+◌, ◌-◌, ◌≤◌, ◌<◌, String, Bool, false, ◌||◌, List, [], ◌∷◌, ◌++◌, none, ltb,
  if◌then◌else◌, length, length-append, length-drop, drop, ◌≡◌, refl, ◌∙◌, ap, arith, ◌==◌,
  Bool-cases, inl, inr, ltb→lt, ltb→le,
}
use mros_w24_solution.Containers.NameSet.{contains}
use mros_w24_solution.Containers.Table.{lookup, erase, lookup-erase}
use mros_w24_solution.Subscriber.{
  Subscriber, Received, message, lost, limit, drop_messages, enqueue, receive_all, erase_all,
  receive_messages, receive_while_connecting, connect_to_publishers,
}

one_more : {n : ℕ} (k : ℕ) → n < suc k → suc (k - n) ≡ suc k - n
one_more k h = omega arith

none_left : {n : ℕ} (k : ℕ) → suc k ≤ n → 0 ≡ suc k - n
none_left k h = omega arith

pub lookup-erase_all :
    (uri : String) (gone : List String) (table : List (String × ℕ))
    → lookup uri (erase_all gone table) ≡ (if contains uri gone then none else lookup uri table)
unfolding erase_all contains
lookup-erase_all uri [] table = refl
lookup-erase_all uri (other ∷ gone) table =
    lookup-erase_all uri gone (erase other table) ∙ ground (arith, lookup-erase other uri table)

module _ {ℓ} {M : Type ℓ} where
  drop_messages_lem :
      (n : ℕ) (queue : List M) → drop_messages n queue ≡ drop (length queue - n) queue
  unfolding drop_messages
  drop_messages_lem zero [] = refl
  drop_messages_lem (suc n) [] =
      let none_there : 0 ≡ 0 - suc n = omega arith in ap (λ (k : ℕ). drop k []) none_there
  drop_messages_lem n (m ∷ queue) = elim (Bool-cases (ltb n (suc (length queue)))) [
    | inl more ↦ rw more (
        drop_messages_lem n queue
        ∙ ap (λ (k : ℕ). drop k (m ∷ queue)) (one_more (length queue) (ltb→lt _ _ more)))
    | inr fits ↦
        rw fits (ap (λ (k : ℕ). drop k (m ∷ queue)) (none_left (length queue) (ltb→le _ _ fits)))
  ]

  -- A new message goes behind the others. Only the oldest go, and only as many as there are over
  -- the limit, which is the queue size and one, in 32 bits.
  pub enqueue_lem :
      (m : M) (s : Subscriber M)
      → (enqueue m s).message_queue
        ≡ drop (length s.message_queue - limit s.queue_size) s.message_queue ++ m ∷ []
  unfolding enqueue
  enqueue_lem m s = ap (λ l. l ++ m ∷ []) (drop_messages_lem (limit s.queue_size) s.message_queue)

  -- The queue never holds more than the queue size and two messages, or one if the queue size is the
  -- largest of 32 bits.
  pub length-enqueue :
      (m : M) (s : Subscriber M) → length (enqueue m s).message_queue ≤ limit s.queue_size + 1
  length-enqueue m s =
      let queue = s.message_queue in
      let n = limit s.queue_size in
      rw (enqueue_lem m s) (
        omega (
          arith,
          length-append (drop (length queue - n) queue) (m ∷ []),
          length-drop (length queue - n) queue,
        ))

  -- Whether a receive for the publisher has failed.
  abbrev pub is_lost : String → List (String × Received M) → Bool
  is_lost uri [] = false
  is_lost uri ((other, message m) ∷ rest) = is_lost uri rest
  is_lost uri ((other, lost) ∷ rest) = other == uri || is_lost uri rest

  pub contains-receive_all :
      (uri : String) (results : List (String × Received M)) (gone : List String) (s : Subscriber M)
      → contains uri (receive_all results (gone, s)).0 ≡ (is_lost uri results || contains uri gone)
  unfolding receive_all contains
  contains-receive_all uri [] gone s = refl
  contains-receive_all uri ((other, message m) ∷ rest) gone s =
      contains-receive_all uri rest gone (enqueue m s)
  contains-receive_all uri ((other, lost) ∷ rest) gone s =
      contains-receive_all uri rest (other ∷ gone) s ∙ ground arith

  pub connections-receive_all :
      (results : List (String × Received M)) (gone : List String) (s : Subscriber M)
      → (receive_all results (gone, s)).1.publisher_connections ≡ s.publisher_connections
  unfolding receive_all enqueue
  connections-receive_all [] gone s = refl
  connections-receive_all ((other, message m) ∷ rest) gone s =
      connections-receive_all rest gone (enqueue m s)
  connections-receive_all ((other, lost) ∷ rest) gone s =
      connections-receive_all rest (other ∷ gone) s

  -- A cycle in which the one connection gives a message.
  pub receive_messages-message :
      (uri : String) (m : M) (s : Subscriber M)
      → receive_messages ((uri, message m) ∷ []) s ≡ enqueue m s
  unfolding receive_messages receive_while_connecting receive_all erase_all connect_to_publishers
  receive_messages-message uri m s = refl

  -- Nothing is dropped while the queue is within its limit.
  pub enqueue_within :
      (m : M) (s : Subscriber M)
      → length s.message_queue ≤ limit s.queue_size
      → (enqueue m s).message_queue ≡ s.message_queue ++ m ∷ []
  enqueue_within m s h =
      enqueue_lem m s
      ∙ ap (λ (k : ℕ). drop k s.message_queue ++ m ∷ [])
          (let none_over : length s.message_queue - limit s.queue_size ≡ 0 = omega (arith, h) in
            none_over)

  pub queue_size-enqueue : (m : M) (s : Subscriber M) → (enqueue m s).queue_size ≡ s.queue_size
  unfolding enqueue
  queue_size-enqueue m s = refl
