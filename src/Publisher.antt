-- ===== src/Publisher.antt =====
-- include/mros/publisher.hpp: the connections of a publisher to its subscribers, the messages that
-- go out on them, and the thread that accepts connections. Sockets are numbers. A step is what a
-- thread does under the lock of the connections, or between two locks.
pub mod Deliveries
pub mod Runs
pub mod Schedules
pub mod Keeps
pub mod Streams
pub mod Ends
mod Tests
use mros_w24_solution.Common.{
  ℕ, Bool, true, false, List, [], ◌∷◌, ◌++◌, Option, none, some, if◌then◌else◌,
}

-- The accepting thread: at the test of the loop, in `acceptConnection`, about to enter a connection,
-- about to close the server, about to drop the connections, or at its end.
pub data Acceptor : Type 0 where
  at_test at_accept at_close at_clear ended : Acceptor
  at_push : ℕ → Acceptor

pub record Publisher {ℓ} (M : Type ℓ) : Type ℓ where
  pub connected : Bool
  pub acceptor : Acceptor
  -- Whether the server socket is open.
  pub server_open : Bool
  pub subscriber_connections : List ℕ
  -- What `sendMessage` has sent, and on which socket, in order.
  pub sent : List (ℕ × M)

-- What `acceptConnection` gives: no connection, a connection, or an exception.
pub data Accepted : Type 0 where
  nothing failed : Accepted
  connection : ℕ → Accepted

-- The connections on which the send does not throw, in order.
unfoldable pub erase_failed : (ℕ → Bool) → List ℕ → List ℕ
erase_failed sends [] = []
erase_failed sends (c ∷ connections) =
    if sends c then c ∷ erase_failed sends connections else erase_failed sends connections

module _ {ℓ} {M : Type ℓ} where
  -- The constructor
  abbrev pub new_publisher : Publisher M
  new_publisher = record {
    connected = true;
    acceptor = at_test;
    server_open = true;
    subscriber_connections = [];
    sent = [];
  }

  -- The sends of `std::erase_if`, which calls its predicate once for each connection.
  unfoldable pub send_all : (ℕ → Bool) → M → List ℕ → List (ℕ × M)
  send_all sends message [] = []
  send_all sends message (c ∷ connections) =
      if sends c
      then (c, message) ∷ send_all sends message connections
      else send_all sends message connections

  -- `publish`. `sends` tells on which sockets `sendMessage` returns.
  unfoldable pub publish : (ℕ → Bool) → M → Publisher M → Publisher M
  unfolding send_all erase_failed
  publish sends message p = record p {
    subscriber_connections = erase_failed sends p.subscriber_connections;
    sent = p.sent ++ send_all sends message p.subscriber_connections;
  }

  -- `disconnect`
  unfoldable pub disconnect : Publisher M → Publisher M
  disconnect p = record p { connected = false }

  unfoldable pub accept_step_at : Acceptor → Accepted → Publisher M → Option (Publisher M)
  accept_step_at at_test a p =
      some (record p { acceptor = if p.connected then at_accept else at_close })
  accept_step_at at_accept nothing p = some (record p { acceptor = at_test })
  accept_step_at at_accept failed p = none
  accept_step_at at_accept (connection c) p = some (record p { acceptor = at_push c })
  accept_step_at (at_push c) a p =
      some (record p {
        acceptor = at_test;
        subscriber_connections = p.subscriber_connections ++ c ∷ [];
      })
  accept_step_at at_close a p = some (record p { acceptor = at_clear; server_open = false })
  accept_step_at at_clear a p = some (record p { acceptor = ended; subscriber_connections = [] })
  accept_step_at ended a p = some p

  -- A step of `acceptConnectionsUntilDisconnect`, with what `acceptConnection` gives if the step is
  -- its end. `none` is an exception that leaves the thread, which ends the program.
  unfoldable pub accept_step : Accepted → Publisher M → Option (Publisher M)
  unfolding accept_step_at
  accept_step a p = accept_step_at p.acceptor a p
