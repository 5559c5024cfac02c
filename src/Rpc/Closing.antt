-- ===== src/Rpc/Closing.antt =====
-- How the two ends of a connection close: `close`, the closing branch of `receiveCycle` and
-- `sendClosingMessage` of src/socket/bson_rpc_socket/bson_rpc_socket.cpp, and `BsonSocket::close`.
-- A step is what one thread does under the sending lock, or the calls between two locks.
pub mod Holds
pub mod UserKeeps
pub mod Keeps
pub mod Settles
pub mod Terminates
mod Tests
use mros_w24_solution.Common.{
  ℕ, zero, suc, ◌+◌, Bool, true, false, ◌&&◌, not, List, [], ◌∷◌, ◌++◌, Option, none, some, ◌>>=◌,
  ◌≡◌, if◌then◌else◌,
}

-- What is on the way to an end.
pub data Message : Type 0 where
  closing other : Message

-- Where the receiving thread is: in the loop, behind `BsonSocket::close`, behind the closing
-- callback, or at its end.
pub data Thread : Type 0 where
  receiving socket_closed called_back finished : Thread

-- Any number of threads may be in `close` of an end. They are counted: those behind the test of
-- `is_connected_`, those behind the sending lock, those asleep in the wait, and those that a notice
-- has woken. `close_calls` counts the calls that have passed the test.
pub record End : Type 0 where
  pub is_connected : Bool
  pub is_open : Bool
  pub closing_callback_set : Bool
  pub closing_message_received : Bool
  pub inbox : List Message
  pub tested : ℕ
  pub at_wait : ℕ
  pub asleep : ℕ
  pub notified : ℕ
  pub close_calls : ℕ
  pub thread : Thread
  pub callback_calls : ℕ

-- Both ends after the handshake.
abbrev pub connected_end : Bool → List Message → End
connected_end closing_callback_set inbox = record {
  is_connected = true;
  is_open = true;
  closing_callback_set = closing_callback_set;
  closing_message_received = false;
  inbox = inbox;
  tested = 0;
  at_wait = 0;
  asleep = 0;
  notified = 0;
  close_calls = 0;
  thread = receiving;
  callback_calls = 0;
}

-- `sendMessage`, whose exceptions the callers catch: on a closed socket, and if the peer has closed.
pub send : Message → End → End → End
send x me peer =
    if me.is_open && peer.is_open then record peer { inbox = peer.inbox ++ x ∷ [] } else peer

pub data Action : Type 0 where
  begin_close send_close enter_wait wake receive call_back announce send_request : Action

-- A call of `close` up to the lock
pub begin_close_step : End → End → Option (End × End)
begin_close_step me peer = some (
  if me.is_connected
      then record me { tested = me.tested + 1; close_calls = me.close_calls + 1 }
      else me,
  peer,
)

-- `close` under the sending lock, of one of the threads that have passed the test
pub send_close_step : ℕ → End → End → Option (End × End)
unfolding send
send_close_step zero me peer = none
send_close_step (suc n) me peer =
    some (
      record me { is_connected = false; tested = n; at_wait = me.at_wait + 1 },
      send closing me peer,
    )

-- The test of the wait under the closing lock: the thread returns, or goes to sleep.
abbrev pub return_or_sleep : End → End
return_or_sleep me =
    if me.closing_message_received then me else record me { asleep = me.asleep + 1 }

-- A thread comes to the wait of `close`.
pub enter_wait_step : ℕ → End → End → Option (End × End)
enter_wait_step zero me peer = none
enter_wait_step (suc n) me peer = some (return_or_sleep (record me { at_wait = n }), peer)

-- A thread that has been notified tests again.
pub wake_step : ℕ → End → End → Option (End × End)
wake_step zero me peer = none
wake_step (suc n) me peer = some (return_or_sleep (record me { notified = n }), peer)

-- `notify_one`: one of the threads that are asleep then
pub notify_one : ℕ → End → End
notify_one zero me = me
notify_one (suc n) me = record me { asleep = n; notified = me.notified + 1 }

-- The closing branch under the lock
pub close_branch : End → End → End × End
unfolding send
close_branch me peer = (
  record me { is_connected = false; is_open = false; thread = socket_closed },
  if me.is_connected then send closing me peer else peer,
)

-- A round of the loop: the next message, or an exception on a closed socket or a closed peer. The
-- thread blocks while nothing comes from an open peer.
receive_next : List Message → End → End → Option (End × End)
unfolding close_branch
receive_next [] me peer = if peer.is_open then none else some (close_branch me peer)
receive_next (closing ∷ rest) me peer = some (close_branch (record me { inbox = rest }) peer)
receive_next (other ∷ rest) me peer = some (record me { inbox = rest }, peer)

receive_step : Thread → End → End → Option (End × End)
unfolding receive_next close_branch
receive_step receiving me peer =
    if me.is_open then receive_next me.inbox me peer else some (close_branch me peer)
receive_step _ me peer = none

-- The closing callback
call_back_step : Thread → End → End → Option (End × End)
call_back_step socket_closed me peer = some (
  record me {
    thread = called_back;
    callback_calls = if me.closing_callback_set then me.callback_calls + 1 else me.callback_calls;
  },
  peer,
)
call_back_step _ me peer = none

-- The flag and the notice to a thread in `close`, with which the loop ends
pub announce_step : Thread → End → End → Option (End × End)
unfolding notify_one
announce_step called_back me peer =
    some (
      notify_one me.asleep (record me { thread = finished; closing_message_received = true }),
      peer,
    )
announce_step _ me peer = none

-- A step of the first end.
pub act : Action → End → End → Option (End × End)
unfolding begin_close_step send_close_step enter_wait_step wake_step receive_step call_back_step
    announce_step send
act begin_close me peer = begin_close_step me peer
act send_close me peer = send_close_step me.tested me peer
act enter_wait me peer = enter_wait_step me.at_wait me peer
act wake me peer = wake_step me.notified me peer
act receive me peer = receive_step me.thread me peer
act call_back me peer = call_back_step me.thread me peer
act announce me peer = announce_step me.thread me peer
act send_request me peer = some (me, send other me peer)

-- Which end takes a step.
pub data Who : Type 0 where
  first second : Who

swap : End × End → End × End
swap (a, b) = (b, a)

pub step : Who → Action → End × End → Option (End × End)
unfolding act swap
step first x (a, b) = act x a b
step second x (a, b) = do ends ← act x b a; some (swap ends)

-- The connection after any steps of its two ends.
pub data Reach : End × End → Type 0 where
  start :
      (set set' : Bool) (inbox inbox' : List Message)
      → Reach (connected_end set inbox, connected_end set' inbox')
  next :
      {ends ends' : End × End} (who : Who) (x : Action)
      → Reach ends
      → step who x ends ≡ some ends'
      → Reach ends'
