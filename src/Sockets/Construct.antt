-- ===== src/Sockets/Construct.antt =====
-- The constructor of src/socket/server_socket.cpp against a table of its calls.
use mros_w24_solution.Common.{
  ℕ, suc, zero, String, ℤ, Bool, true, false, List, [], ◌∷◌, Option, none, some, ◌≡◌, refl, is_some,
  if◌then◌else◌,
}
use mros_w24_solution.Sockets.{
  SysCall, Outcome, returned, threw, Address, ServerSocket, Answers, port_bits, is_zero,
  socket_address, new_server_socket, socket_exception, socket_errno_exception,
}

-- A call, whether it succeeds, and the text of the exception if it does not.
abbrev pub Row : Type 0
Row = SysCall × Bool × String

-- The calls up to the first whose failure is tested, and its exception.
abbrev pub attempt : List Row → List SysCall × Option String
attempt [] = ([], none)
attempt ((call, true, e) ∷ rows) = let (calls, error) = attempt rows in (call ∷ calls, error)
attempt ((call, false, e) ∷ rows) = (call ∷ [], some e)

abbrev address_or_zero : Option ℕ → ℕ
address_or_zero none = 0
address_or_zero (some ip) = ip

-- What it takes to have a socket that listens without blocking on an address that may still be in use,
-- in this order. The kernel's choice of a port is asked for only if the port is 0.
abbrev pub table : String → ℤ → ℤ → Answers → List Row
table address port listen_backlog a =
    (
      SysCall.inet_aton address,
      is_some a.address,
      socket_errno_exception "Failed to convert address." a.error,
    )
    ∷ (SysCall.socket, true, "")
    ∷ (SysCall.get_flags a.descriptor, a.has_flags, socket_exception "Failed to get flags.")
    ∷ (
      SysCall.set_nonblocking a.descriptor,
      a.sets_nonblocking,
      socket_errno_exception "Failed to set socket nonblocking." a.error,
    )
    ∷ (
      SysCall.set_reuse_address a.descriptor,
      a.sets_reuse_address,
      socket_errno_exception "Failed to set socket to reuse address." a.error,
    )
    ∷ (
      SysCall.bind a.descriptor (address_or_zero a.address) (port_bits port),
      a.binds,
      socket_errno_exception "Failed to bind to port." a.error,
    )
    ∷ (
      SysCall.listen a.descriptor listen_backlog,
      a.listens,
      socket_errno_exception "Failed to listen.." a.error,
    )
    ∷ (if is_zero port
        then (
          SysCall.getsockname a.descriptor,
          is_some a.socket_name,
          socket_errno_exception "Failed to get socket address." a.error,
        )
          ∷ []
        else [])

abbrev pub error_of : {A : Type 0} → Outcome A → Option String
error_of (returned a) = none
error_of (threw e) = some e

-- The server that is returned is open on the descriptor, and none of the calls closes it.
abbrev pub IsOpenOn : Option ℕ → Outcome ServerSocket → Type 0
IsOpenOn descriptor (returned s) = (s.file_descriptor ≡ descriptor) × (s.is_open ≡ true)
IsOpenOn descriptor (threw e) = Unit {0}

abbrev pub closes : List SysCall → List (Option ℕ)
closes [] = []
closes (SysCall.close d ∷ calls) = d ∷ closes calls
closes (_ ∷ calls) = closes calls

abbrev Described : String → ℤ → ℤ → Answers → Type 0
Described address port listen_backlog a =
    let (calls, outcome) = new_server_socket address port listen_backlog a in
    ((calls, error_of outcome) ≡ attempt (table address port listen_backlog a))
    × IsOpenOn a.descriptor outcome
    × (closes calls ≡ [])

described :
    (address : String) (port listen_backlog : ℤ) (ip descriptor : Option ℕ)
    (flags nonblocking reuse binds listens : Bool) (name : Option Address) (error : String)
    → Described address port listen_backlog (record {
      address = ip;
      descriptor = descriptor;
      has_flags = flags;
      sets_nonblocking = nonblocking;
      sets_reuse_address = reuse;
      binds = binds;
      listens = listens;
      socket_name = name;
      error = error;
    })
unfolding new_server_socket socket_address
described address port backlog none d f n r b l name error = (refl, tt, refl)
described address port backlog (some ip) d false n r b l name error = (refl, tt, refl)
described address port backlog (some ip) d true false r b l name error = (refl, tt, refl)
described address port backlog (some ip) d true true false b l name error = (refl, tt, refl)
described address port backlog (some ip) d true true true false l name error = (refl, tt, refl)
described address port backlog (some ip) d true true true true false name error = (refl, tt, refl)
described address (ℤ.pos zero) backlog (some ip) d true true true true true none error =
    (refl, tt, refl)
described address (ℤ.pos zero) backlog (some ip) d true true true true true (some name) error =
    (refl, (refl, refl), refl)
described address (ℤ.pos (suc port)) backlog (some ip) d true true true true true name error =
    (refl, (refl, refl), refl)
described address (ℤ.negsuc port) backlog (some ip) d true true true true true name error =
    (refl, (refl, refl), refl)

-- The constructor makes the calls of the table up to the first tested one that fails, and throws that
-- one's exception, or returns if none does; the result of `socket` is not tested. The socket that it returns is open on the descriptor. No call
-- is a `close`, also where the constructor throws after `socket`.
pub new_server_socket-table :
    (address : String) (port listen_backlog : ℤ) (a : Answers)
    → let (calls, outcome) = new_server_socket address port listen_backlog a in
      ((calls, error_of outcome) ≡ attempt (table address port listen_backlog a))
      × IsOpenOn a.descriptor outcome
      × (closes calls ≡ [])
new_server_socket-table address port listen_backlog a =
    described address port listen_backlog a.address a.descriptor a.has_flags a.sets_nonblocking
      a.sets_reuse_address a.binds a.listens a.socket_name a.error
