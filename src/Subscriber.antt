-- ===== src/Subscriber.antt =====
-- include/mros/subscriber.hpp: the queue of a subscriber between the thread that receives messages
-- and the thread that runs the callback, and the connections to publishers. A step is what a thread
-- does under the lock of the queue, or between two locks.
pub mod Queue
pub mod InOrder
pub mod Actions
pub mod Orderly
pub mod Spinning
pub mod Connecting
mod Tests
use mros_w24_solution.Common.{
  ℕ, suc, ◌+◌, ◌^◌, ◌%◌, String, ℤ, Bool, true, false, List, [], ◌∷◌, ◌++◌, Option, none, some, ltb,
  nat_eq, if◌then◌else◌, length,
}
use mros_w24_solution.Containers.Table.{insert, erase}
use mros_w24_solution.Uri.{to_uri}

-- The spinning thread: not started, at the test of the loop, at the lock of the queue, in the wait
-- (with whether it has been notified), holding a message, or at its end.
pub data Spinner {ℓ} (M : Type ℓ) : Type ℓ where
  not_started at_test at_queue ended : Spinner M
  asleep : Bool → Spinner M
  holding : M → Spinner M

-- A call of the user's callback, with whether its message comes from the queue.
pub record Call {ℓ} (M : Type ℓ) : Type ℓ where
  pub message : M
  pub is_queued : Bool

pub record Subscriber {ℓ} (M : Type ℓ) : Type ℓ where
  pub queue_size : ℕ
  pub message_queue : List M
  pub publisher_connections : List (String × ℕ)
  pub connected : Bool
  pub receiving_started : Bool
  pub spinner : Spinner M
  pub calls : List (Call M)

-- What `receiveMessage` gives for one connection; `lost` is any exception.
pub data Received {ℓ} (M : Type ℓ) : Type ℓ where
  message : M → Received M
  lost : Received M

-- `queue_size_ + 1`, in 32 bits
abbrev pub limit : ℕ → ℕ
limit queue_size = (queue_size + 1) % 2 ^ 32

-- The loop that removes the lost connections
pub erase_all : List String → List (String × ℕ) → List (String × ℕ)
erase_all [] table = table
erase_all (uri ∷ uris) table = erase_all uris (erase uri table)

module _ {ℓ} {M : Type ℓ} where
  -- The constructor
  abbrev pub new_subscriber : ℕ → Subscriber M
  new_subscriber queue_size = record {
    queue_size = queue_size;
    message_queue = [];
    publisher_connections = [];
    connected = true;
    receiving_started = false;
    spinner = not_started;
    calls = [];
  }

  -- The loop that drops messages from the front of the queue
  pub drop_messages : ℕ → List M → List M
  drop_messages n [] = []
  drop_messages n (m ∷ queue) =
      let rest = drop_messages n queue in if ltb n (length (m ∷ queue)) then rest else m ∷ queue

  -- `notify_one` on a thread that waits
  abbrev notify : Spinner M → Spinner M
  notify (asleep notified) = asleep true
  notify spinner = spinner

  -- The queue's part of `receiveMessagesUntilDisconnect`, for one message
  pub enqueue : M → Subscriber M → Subscriber M
  unfolding drop_messages
  enqueue m s =
      let queue = drop_messages (limit s.queue_size) s.message_queue ++ m ∷ [] in
      record s {
        message_queue = queue;
        spinner = if nat_eq (length queue) 1 then notify s.spinner else s.spinner;
      }

  -- The receive for each connection, with the connections that are lost
  pub receive_all :
      List (String × Received M) → List String × Subscriber M → List String × Subscriber M
  unfolding enqueue
  receive_all [] (gone, s) = (gone, s)
  receive_all ((uri, message m) ∷ rest) (gone, s) = receive_all rest (gone, enqueue m s)
  receive_all ((uri, lost) ∷ rest) (gone, s) = receive_all rest (uri ∷ gone, s)

  -- `connectToPublisher`; `none` in place of the socket is an exception of its constructor or of
  -- `connect`
  unfoldable pub connect_to_publisher : String → ℤ → Option ℕ → Subscriber M → Subscriber M
  connect_to_publisher host port none s = s
  connect_to_publisher host port (some client) s = record s {
    publisher_connections = insert (to_uri host port) client s.publisher_connections;
    receiving_started = true;
  }

  -- Connections that are made one after the other
  unfoldable pub connect_to_publishers :
      List (String × (ℤ × Option ℕ)) → Subscriber M → Subscriber M
  unfolding connect_to_publisher
  connect_to_publishers [] s = s
  connect_to_publishers ((host, (port, client)) ∷ rest) s =
      connect_to_publishers rest (connect_to_publisher host port client s)

  -- One cycle of `receiveMessagesUntilDisconnect`, on what each connection of the copy gives and the
  -- connections that are made before the lost ones are removed. Neither reads what the other writes.
  pub receive_while_connecting :
      List (String × Received M) → List (String × (ℤ × Option ℕ)) → Subscriber M → Subscriber M
  unfolding receive_all erase_all connect_to_publishers
  receive_while_connecting results connects s =
      let (gone, received) = receive_all results ([], s) in
      let s' = connect_to_publishers connects received in
      record s' { publisher_connections = erase_all gone s'.publisher_connections }

  -- A cycle without new connections
  pub receive_messages : List (String × Received M) → Subscriber M → Subscriber M
  unfolding receive_while_connecting
  receive_messages results s = receive_while_connecting results [] s

  unfoldable pub spin_at : Spinner M → Subscriber M → Option (Subscriber M)
  spin_at not_started s = some (record s { spinner = at_test })
  spin_at _ s = none

  -- `spin`. A second call assigns to a thread that runs, which ends the program.
  unfoldable pub spin : Subscriber M → Option (Subscriber M)
  unfolding spin_at
  spin s = spin_at s.spinner s

  take_message : List M → Subscriber M → Subscriber M
  take_message [] s = record s { spinner = asleep false }
  take_message (m ∷ queue) s = record s { message_queue = queue; spinner = holding m }

  spinner_step_at : Spinner M → Subscriber M → Option (Subscriber M)
  unfolding take_message
  spinner_step_at at_test s = some (record s { spinner = if s.connected then at_queue else ended })
  spinner_step_at at_queue s = some (take_message s.message_queue s)
  spinner_step_at (asleep true) s = some (take_message s.message_queue s)
  spinner_step_at (holding m) s = some (record s {
    spinner = at_test;
    calls =
        if s.connected then s.calls ++ record { message = m; is_queued = true } ∷ [] else s.calls;
  })
  spinner_step_at _ s = none

  -- A step of `executeCallbacksUntilDisconnect`; `none` while the thread waits or does not run
  pub spinner_step : Subscriber M → Option (Subscriber M)
  unfolding spinner_step_at
  spinner_step s = spinner_step_at s.spinner s

  spin_once_on : List M → M → Subscriber M → Subscriber M
  spin_once_on [] default s = record s {
    calls = s.calls ++ record { message = default; is_queued = false } ∷ [];
  }
  spin_once_on (m ∷ queue) default s = record s {
    message_queue = queue;
    calls = s.calls ++ record { message = m; is_queued = true } ∷ [];
  }

  -- `spinOnce`, where the message starts as the default
  pub spin_once : M → Subscriber M → Subscriber M
  unfolding spin_once_on
  spin_once default s = spin_once_on s.message_queue default s

  -- `disconnect`
  pub disconnect : Subscriber M → Subscriber M
  disconnect s = record s { connected = false }

  -- The destructor up to the joining of the spinning thread: the dummy message wakes it.
  pub shut_down : M → Subscriber M → Subscriber M
  unfolding disconnect
  shut_down default s =
      let s' = disconnect s in
      elim s.spinner [
        | not_started ↦ s'
        | _ ↦ record s' {
          message_queue = s'.message_queue ++ default ∷ [];
          spinner = notify s'.spinner;
        }
      ]
