-- ===== src/Sockets/Tests.antt =====
-- A server socket at concrete answers: it listens, it fails to bind, and it accepts a connection on a
-- descriptor that was closed before.
use mros_w24_solution.Common.{ℕ, ℤ, true, false, [], ◌∷◌, none, some, ◌≡◌, ◌≤◌, refl, All}
use mros_w24_solution.Sockets.{
  Outcome, returned, Answers, ServerSocket, client, new_server_socket, socket_address,
  socket_errno_exception, accept_connection, accept_at, accept_on, close_server, close_socket,
}
use mros_w24_solution.Sockets.Construct.{
  table, attempt, error_of, IsOpenOn, closes, new_server_socket-table,
}
use mros_w24_solution.Sockets.Owners.{
  Process, Event, accepts, closes_connection, run, count, owners, Given, IsHeld,
}
use mros_w24_solution.Sockets.Descriptors.{Reach, start, next, Reach-IsHeld}

abbrev all_well : Answers
all_well = record {
  address = some 2130706433;
  descriptor = some 3;
  has_flags = true;
  sets_nonblocking = true;
  sets_reuse_address = true;
  binds = true;
  listens = true;
  socket_name = none;
  error = "Address already in use";
}

abbrev in_use : Answers
in_use = record all_well { binds = false }

-- The exception leaves the descriptor 3 open.
in_use_throws :
    (new_server_socket "127.0.0.1" (ℤ.pos 13331) (ℤ.pos 100) in_use).1
    ≡ Outcome.threw (socket_errno_exception "Failed to bind to port." "Address already in use")
unfolding new_server_socket socket_address
in_use_throws = refl

bind_fails_described :
    let (calls, outcome) = new_server_socket "127.0.0.1" (ℤ.pos 13331) (ℤ.pos 100) in_use in
    ((calls, error_of outcome) ≡ attempt (table "127.0.0.1" (ℤ.pos 13331) (ℤ.pos 100) in_use))
    × IsOpenOn (some 3) outcome
    × (closes calls ≡ [])
bind_fails_described = new_server_socket-table "127.0.0.1" (ℤ.pos 13331) (ℤ.pos 100) in_use

abbrev server : ServerSocket
server = record {
  server_address = record { ip = 2130706433; port = 13331 };
  file_descriptor = some 3;
  is_open = true;
  last_client_address_port = ("", ℤ.pos 0);
}

-- The port 65536 goes to the kernel as 0, and the port that it chooses is not asked for.
too_large_port :
    (new_server_socket "127.0.0.1" (ℤ.pos 65536) (ℤ.pos 100) all_well).1
    ≡ returned (record server { server_address = record { ip = 2130706433; port = 0 } })
unfolding new_server_socket socket_address
too_large_port = refl

listening : Reach (record { server = server; connections = []; descriptors = 3 ∷ [] })
unfolding new_server_socket socket_address
listening = start "127.0.0.1" (ℤ.pos 13331) (ℤ.pos 100) all_well refl refl

abbrev Scene : Type 0
Scene = (p : Process) × Reach p

-- The descriptor 4 is given twice.
given_again : Scene
unfolding accept_connection accept_at accept_on close_server close_socket
given_again = (
  _,
  next (accepts (client 4 "10.0.0.2" 4000))
      (next (closes_connection 0) (next (accepts (client 4 "10.0.0.1" 4000)) listening refl) tt)
      refl,
)

-- The first socket is closed once more, which calls nothing.
closed_before : (run (closes_connection 1) given_again.0).0 ≡ []
unfolding given_again accept_connection accept_at accept_on close_server close_socket
closed_before = refl

Reach-IsHeld_example :
    ((d : ℕ)
      → (count d given_again.0.descriptors ≡ owners d given_again.0)
        × (count d given_again.0.descriptors ≤ 1))
    × ((e : Event)
        → Given e given_again.0
        → All (IsHeld given_again.0.descriptors) (run e given_again.0).0)
Reach-IsHeld_example = Reach-IsHeld given_again.1
