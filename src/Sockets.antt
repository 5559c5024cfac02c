-- ===== src/Sockets.antt =====
-- src/socket/server_socket.cpp, src/socket/client_socket.cpp, src/socket/connection_socket.cpp, the
-- closing of src/socket/bson_socket/bson_socket.cpp, and the exceptions of include/socket/utils. What
-- the operating system answers is an argument; `none` as a descriptor is -1. What a function does is
-- the list of its calls of the operating system, and what it returns or throws.
pub mod Construct
pub mod Owners
pub mod Descriptors
mod Tests
use Prim.Native.String
use mros_w24_solution.Common.{
  ℕ, zero, suc, ◌-◌, ◌%◌, ◌^◌, String, ℤ, Bool, true, false, List, [], ◌∷◌, ◌++◌, Option, none,
  some, nat_eq, if◌then◌else◌,
}

-- The texts of the exceptions. `error` is what `strerror(errno)` gives.
abbrev pub socket_exception : String → String
socket_exception error_message = String.◌++◌ "SocketException: " error_message

abbrev pub socket_errno_exception : String → String → String
socket_errno_exception error_message error =
    socket_exception (String.◌++◌ error_message (String.◌++◌ " Error: " error))

abbrev pub peer_closed_exception : String
peer_closed_exception = socket_exception "Peer socket has closed."

-- A call of the operating system.
pub data SysCall : Type 0 where
  inet_aton : String → SysCall
  socket : SysCall
  get_flags set_nonblocking set_reuse_address getsockname accept close : Option ℕ → SysCall
  bind connect : Option ℕ → ℕ → ℕ → SysCall
  listen : Option ℕ → ℤ → SysCall

pub data Outcome {ℓ} (A : Type ℓ) : Type ℓ where
  returned : A → Outcome A
  threw : String → Outcome A

-- The calls, and the outcome.
abbrev pub Run {ℓ} : Type ℓ → Type ℓ
Run A = List SysCall × Outcome A

infixl 5 ◌>>=◌ ◌>>◌
abbrev pub ◌>>=◌ {ℓ κ} : {A : Type ℓ} {B : Type κ} → Run A → (A → Run B) → Run B
(calls, returned a) >>= f = let (calls', outcome) = f a in (calls ++ calls', outcome)
(calls, threw e) >>= f = (calls, threw e)

abbrev pub ◌>>◌ {ℓ κ} : {A : Type ℓ} {B : Type κ} → Run A → Run B → Run B
m >> k = m >>= λ _. k

abbrev pub return {ℓ} : {A : Type ℓ} → A → Run A
return a = ([], returned a)

-- A call whose failure throws.
abbrev pub ask {ℓ} : {A : Type ℓ} → SysCall → Option A → String → Run A
ask call none error = (call ∷ [], threw error)
ask call (some a) error = (call ∷ [], returned a)

abbrev pub check : SysCall → Bool → String → Run (Unit {0})
check call true error = (call ∷ [], returned tt)
check call false error = (call ∷ [], threw error)

-- `socket`, whose answer is not looked at.
abbrev call_socket : Run (Unit {0})
call_socket = (socket ∷ [], returned tt)

pub record Address : Type 0 where
  pub ip : ℕ
  pub port : ℕ

-- `htons` takes the low 16 bits of the `int`.
abbrev pub port_bits : ℤ → ℕ
port_bits (ℤ.pos n) = n % 2 ^ 16
port_bits (ℤ.negsuc n) = 2 ^ 16 - 1 - n % 2 ^ 16

abbrev pub is_zero : ℤ → Bool
is_zero (ℤ.pos zero) = true
is_zero (ℤ.pos (suc n)) = false
is_zero (ℤ.negsuc n) = false

pub record ServerSocket : Type 0 where
  pub server_address : Address
  pub file_descriptor : Option ℕ
  pub is_open : Bool
  pub last_client_address_port : String × ℤ

-- What the operating system answers to the constructor of a server socket.
pub record Answers : Type 0 where
  pub address : Option ℕ
  pub descriptor : Option ℕ
  pub has_flags : Bool
  pub sets_nonblocking : Bool
  pub sets_reuse_address : Bool
  pub binds : Bool
  pub listens : Bool
  pub socket_name : Option Address
  pub error : String

-- The address of the socket once it listens.
socket_address : ℤ → Address → Answers → Run Address
socket_address port requested a =
    if is_zero port
    then ask (getsockname a.descriptor) a.socket_name
        (socket_errno_exception "Failed to get socket address." a.error)
    else return requested

-- The constructor
pub new_server_socket : String → ℤ → ℤ → Answers → Run ServerSocket
unfolding socket_address
new_server_socket address port listen_backlog a = do
  ip ←
      ask (inet_aton address) a.address
        (socket_errno_exception "Failed to convert address." a.error)
  call_socket
  check (get_flags a.descriptor) a.has_flags (socket_exception "Failed to get flags.")
  check (set_nonblocking a.descriptor) a.sets_nonblocking
      (socket_errno_exception "Failed to set socket nonblocking." a.error)
  check (set_reuse_address a.descriptor) a.sets_reuse_address
      (socket_errno_exception "Failed to set socket to reuse address." a.error)
  check (bind a.descriptor ip (port_bits port)) a.binds
      (socket_errno_exception "Failed to bind to port." a.error)
  check (listen a.descriptor listen_backlog) a.listens
      (socket_errno_exception "Failed to listen.." a.error)
  bound ← socket_address port (record { ip = ip; port = port_bits port }) a
  return (record {
    server_address = bound;
    file_descriptor = a.descriptor;
    is_open = true;
    last_client_address_port = ("", ℤ.pos 0);
  })

-- `getAddressPort`, where `text` is the numeric form that `getnameinfo` gives.
pub get_address_port : (ℕ → String) → ServerSocket → String × ℤ
get_address_port text s = (text s.server_address.ip, ℤ.pos s.server_address.port)

-- What `accept` answers: an empty backlog, another error, or a descriptor with the client's address.
pub data Accepted : Type 0 where
  again : Accepted
  failed : String → Accepted
  client : ℕ → String → ℕ → Accepted

-- `acceptConnection`, with the descriptor of the new connection socket, if there is one.
accept_on : Accepted → ServerSocket → List SysCall × Outcome (Option ℕ) × ServerSocket
accept_on again s = (accept s.file_descriptor ∷ [], returned none, s)
accept_on (failed error) s = (
  accept s.file_descriptor ∷ [],
  threw (socket_errno_exception "Failed to accept connection." error),
  s,
)
accept_on (client descriptor host port) s = (
  accept s.file_descriptor ∷ [],
  returned (some descriptor),
  record s { last_client_address_port = (host, ℤ.pos port) },
)

accept_at : Bool → Accepted → ServerSocket → List SysCall × Outcome (Option ℕ) × ServerSocket
unfolding accept_on
accept_at true answer s = accept_on answer s
accept_at false answer s = ([], threw (socket_exception "Cannot accept on close socket."), s)

pub accept_connection : Accepted → ServerSocket → List SysCall × Outcome (Option ℕ) × ServerSocket
unfolding accept_at
accept_connection answer s = accept_at s.is_open answer s

-- `close` and the destructor, which calls it
pub close_server : ServerSocket → List SysCall × ServerSocket
close_server s =
    if s.is_open then (close s.file_descriptor ∷ [], record s { is_open = false }) else ([], s)

-- A socket of a connection, on either end.
pub record BsonSocket : Type 0 where
  pub file_descriptor : Option ℕ
  pub is_open : Bool

-- The constructor of a connection socket
abbrev pub new_connection_socket : ℕ → BsonSocket
new_connection_socket descriptor = record { file_descriptor = some descriptor; is_open = true }

-- The constructor of a client socket: it throws before it has a descriptor, or does not look at the
-- answer of `socket`.
pub new_client_socket : String → ℤ → Option ℕ → Option ℕ → Run (Address × BsonSocket)
new_client_socket address port ip descriptor = do
  ip' ← ask (inet_aton address) ip (socket_exception "Failed to convert address.")
  call_socket
  return (
    record { ip = ip'; port = port_bits port },
    record { file_descriptor = descriptor; is_open = true },
  )

-- `connect`, with whether the operating system connects
pub connect_client : Address → BsonSocket → Bool → Run (Unit {0})
connect_client server s connects =
    check (connect s.file_descriptor server.ip server.port) connects
      (socket_exception "Failed to connect to server.")

-- `BsonSocket::close`, and its destructor
pub close_socket : BsonSocket → List SysCall × BsonSocket
close_socket s =
    if s.is_open then (close s.file_descriptor ∷ [], record s { is_open = false }) else ([], s)
