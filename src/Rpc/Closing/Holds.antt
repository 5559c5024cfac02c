-- ===== src/Rpc/Closing/Holds.antt =====
-- What holds of the two ends in src/socket/bson_rpc_socket/bson_rpc_socket.cpp at every moment of a
-- closing, whichever threads have taken steps.
use mros_w24_solution.Common.{
  ℕ, ◌+◌, ◌-◌, ◌≤◌, Bool, true, false, ◌||◌, List, [], ◌∷◌, ◌++◌, ◌≡◌, refl, arith, if◌then◌else◌,
}
use mros_w24_solution.Rpc.Closing.{
  Message, closing, other, Thread, receiving, socket_closed, finished, End,
}

abbrev pub is_receiving : Thread → Bool
is_receiving receiving = true
is_receiving _ = false

abbrev pub is_finished : Thread → Bool
is_finished finished = true
is_finished _ = false

-- How often the closing callback has been called.
abbrev pub calls : Thread → Bool → ℕ
calls receiving set = 0
calls socket_closed set = 0
calls _ set = if set then 1 else 0

-- The threads that are in `close`.
abbrev pub inside : End → ℕ
inside a = a.tested + (a.at_wait + (a.asleep + a.notified))

unfoldable pub has_closing : List Message → Bool
has_closing [] = false
has_closing (closing ∷ rest) = true
has_closing (other ∷ rest) = has_closing rest

pub has_closing-append :
    (x : Message) (l : List Message)
    → has_closing (l ++ x ∷ []) ≡ (has_closing l || has_closing (x ∷ []))
unfolding has_closing
has_closing-append x [] = ground arith
has_closing-append x (closing ∷ l) = refl
has_closing-append x (other ∷ l) = has_closing-append x l

-- What holds of an end and its peer. An end that is off without having closed its socket has sent
-- the closing message, and the peer has it before it or has closed.
pub record Half (me peer : End) : Type 0 where
  pub open_eq : me.is_open ≡ is_receiving me.thread
  pub received_eq : me.closing_message_received ≡ is_finished me.thread
  pub calls_eq : me.callback_calls ≡ calls me.thread me.closing_callback_set
  pub off : is_receiving me.thread ≡ false → me.is_connected ≡ false
  pub counted : inside me ≤ me.close_calls
  pub left : is_finished me.thread ≡ true → me.asleep ≤ me.close_calls - 1
  pub told :
      me.is_connected ≡ false
      → is_receiving me.thread ≡ true
      → is_receiving peer.thread ≡ true
      → has_closing peer.inbox ≡ true

pub record Holds (me peer : End) : Type 0 where
  pub mine : Half me peer
  pub theirs : Half peer me
