-- ===== src/Sockets/Descriptors.antt =====
-- The descriptors of a server socket and of the connection sockets that it gives, from
-- src/socket/server_socket.cpp and src/socket/bson_socket/bson_socket.cpp, over any sequence of accepts
-- and closes. The operating system may give a closed descriptor out again.
use mathlib.Core.Path.{subst}
use mros_w24_solution.Common.{
  ℕ, ◌+◌, ◌≤◌, String, ℤ, Bool, true, false, List, [], ◌∷◌, Option, none, some, ◌≡◌, refl, sym, ◌∙◌,
  arith, All,
}
use mros_w24_solution.Sockets.{
  SysCall, returned, ServerSocket, Answers, Accepted, again, failed, client, new_server_socket,
  accept_connection, accept_at, accept_on,
}
use mros_w24_solution.Sockets.Construct.{IsOpenOn, new_server_socket-table}
use mros_w24_solution.Sockets.Owners.{
  Process, Event, count, taken_in, run, Given, holds, holders, owners, IsHeld, held_one,
  close_server_lem, Owned, closing-Owned, Owned-eq, close_at-Owned, accepts, closes_server,
  closes_connection,
}

-- A server socket that the constructor returns, with the descriptor that `socket` has given.
pub data Reach : Process → Type 0 where
  start :
      (address : String) (port listen_backlog : ℤ) (a : Answers) {s : ServerSocket} {d : ℕ}
      → (new_server_socket address port listen_backlog a).1 ≡ returned s
      → a.descriptor ≡ some d
      → Reach (record { server = s; connections = []; descriptors = d ∷ [] })
  next : {p : Process} (e : Event) → Reach p → Given e p → Reach (run e p).1

abbrev Inv : Process → Type 0
Inv p = Owned (λ d. owners d p) p.descriptors

accept_on-Inv :
    (answer : Accepted) (p : Process)
    → Inv p
    → Given (accepts answer) p
    → let (calls, outcome, server) = accept_on answer p.server in
      Inv (taken_in outcome (record p { server = server }))
unfolding accept_on
accept_on-Inv again p i given = i
accept_on-Inv (failed error) p i given = i
accept_on-Inv (client d host port) p (h, once) given =
    ((λ x. ground (arith, h x)), (λ x. ground (arith, once x, given)))

calls-accept_on :
    (answer : Accepted) (s : ServerSocket)
    → (accept_on answer s).0 ≡ SysCall.accept s.file_descriptor ∷ []
unfolding accept_on
calls-accept_on again s = refl
calls-accept_on (failed error) s = refl
calls-accept_on (client d host port) s = refl

accept-IsHeld :
    (descriptor : Option ℕ) (rest : ℕ → ℕ) (l : List ℕ)
    → Owned (λ d. holds d descriptor true + rest d) l
    → All (IsHeld l) (SysCall.accept descriptor ∷ [])
accept-IsHeld none rest l o = (tt, tt)
accept-IsHeld (some x) rest l (h, once) = (held_one x rest l h once, tt)

-- An accept is made on a descriptor that the server socket holds.
accept_at-Inv :
    (b : Bool) (answer : Accepted) (p : Process)
    → p.server.is_open ≡ b
    → Inv p
    → Given (accepts answer) p
    → let (calls, outcome, server) = accept_at b answer p.server in
      Inv (taken_in outcome (record p { server = server })) × All (IsHeld p.descriptors) calls
unfolding accept_at
accept_at-Inv true answer p on i given =
    let held =
      accept-IsHeld p.server.file_descriptor (λ d. holders d p.connections) p.descriptors
        (subst
          (λ b.
            Owned (λ d. holds d p.server.file_descriptor b + holders d p.connections) p.descriptors)
          on i) in
    (
      accept_on-Inv answer p i given,
      subst (All (IsHeld p.descriptors)) (sym (calls-accept_on answer p.server)) held,
    )
accept_at-Inv false answer p off i given = (i, tt)

accepts-Inv :
    (answer : Accepted) (p : Process)
    → Inv p
    → Given (accepts answer) p
    → Inv (run (accepts answer) p).1 × All (IsHeld p.descriptors) (run (accepts answer) p).0
unfolding accept_connection
accepts-Inv answer p i given = accept_at-Inv p.server.is_open answer p refl i given

run-Inv :
    (e : Event) (p : Process)
    → Inv p
    → Given e p
    → Inv (run e p).1 × All (IsHeld p.descriptors) (run e p).0
run-Inv (accepts answer) p i given = accepts-Inv answer p i given
run-Inv closes_server p i given = rw (close_server_lem p.server) (
    closing-Owned p.server.file_descriptor p.server.is_open (λ d. holders d p.connections)
      p.descriptors i)
run-Inv (closes_connection n) p i given =
    let server = p.server in
    let (after, held) =
      close_at-Owned n p.connections (λ d. holds d server.file_descriptor server.is_open)
        p.descriptors (Owned-eq _ _ _ (λ d. omega arith) i) in
    (Owned-eq _ _ _ (λ d. omega arith) after, held)

start-Inv :
    (s : ServerSocket) (d : ℕ)
    → s.file_descriptor ≡ some d
    → s.is_open ≡ true
    → Inv (record { server = s; connections = []; descriptors = d ∷ [] })
start-Inv s d e on = rw (e, on) ((λ x. ground arith), (λ x. ground arith))

Reach-Inv : {p : Process} → Reach p → Inv p
Reach-Inv (start address port backlog a {s} {d} built given) =
    let (table, opened, unclosed) = new_server_socket-table address port backlog a in
    let (e, on) = subst (IsOpenOn a.descriptor) built opened in start-Inv s d (e ∙ given) on
Reach-Inv (next {p} e before given) = (run-Inv e p (Reach-Inv before) given).0

-- After any sequence of accepts and closes of a server socket and the connection sockets that it
-- gives, where `accept` gives descriptors that are not open: each open descriptor is held by exactly
-- one open socket, and whatever is done next, each `accept` and `close` is called on an open
-- descriptor that the socket alone holds. So nothing closes a descriptor twice, nor one that has been
-- given out again.
pub Reach-IsHeld :
    {p : Process}
    → Reach p
    → ((d : ℕ) → (count d p.descriptors ≡ owners d p) × (count d p.descriptors ≤ 1))
      × ((e : Event) → Given e p → All (IsHeld p.descriptors) (run e p).0)
Reach-IsHeld {p} h =
    let (counted, once) = Reach-Inv h in
    ((λ d. (counted d, once d)), (λ e given. (run-Inv e p (counted, once) given).1))
