-- ===== src/Sockets/Owners.antt =====
-- The open descriptors of a process with the server socket of src/socket/server_socket.cpp and the
-- connection sockets that it gives, and which socket holds which, when one of them is closed.
use mros_w24_solution.Common.{
  ℕ, zero, suc, ◌+◌, ◌-◌, ◌≤◌, Bool, true, false, List, [], ◌∷◌, Option, none, some, ◌≡◌, refl, ◌∙◌,
  nat_eq, if◌then◌else◌, arith, All,
}
use mros_w24_solution.Sockets.{
  SysCall, Outcome, returned, ServerSocket, Accepted, client, BsonSocket, new_connection_socket,
  accept_connection, close_server, close_socket,
}

-- The sockets of a process, and the descriptors that its operating system has open for it.
pub record Process : Type 0 where
  pub server : ServerSocket
  pub connections : List BsonSocket
  pub descriptors : List ℕ

pub data Event : Type 0 where
  accepts : Accepted → Event
  closes_server : Event
  closes_connection : ℕ → Event

abbrev pub count : ℕ → List ℕ → ℕ
count d [] = 0
count d (x ∷ l) = if nat_eq x d then suc (count d l) else count d l

abbrev pub remove : ℕ → List ℕ → List ℕ
remove d [] = []
remove d (x ∷ l) = let rest = remove d l in if nat_eq x d then l else x ∷ rest

-- What calls of `close` do to the open descriptors.
abbrev pub closed_by : List SysCall → List ℕ → List ℕ
closed_by [] l = l
closed_by (SysCall.close (some d) ∷ calls) l = closed_by calls (remove d l)
closed_by (_ ∷ calls) l = closed_by calls l

abbrev pub close_at : ℕ → List BsonSocket → List SysCall × List BsonSocket
close_at n [] = ([], [])
close_at zero (s ∷ l) = let (calls, s') = close_socket s in (calls, s' ∷ l)
close_at (suc n) (s ∷ l) = let (calls, l') = close_at n l in (calls, s ∷ l')

-- The process after `acceptConnection`.
abbrev pub taken_in : Outcome (Option ℕ) → Process → Process
taken_in (returned (some d)) p = record p {
  connections = new_connection_socket d ∷ p.connections;
  descriptors = d ∷ p.descriptors;
}
taken_in _ p = p

abbrev pub run : Event → Process → List SysCall × Process
run (accepts answer) p =
    let (calls, outcome, server) = accept_connection answer p.server in
    (calls, taken_in outcome (record p { server = server }))
run closes_server p =
    let (calls, server) = close_server p.server in
    (calls, record p { server = server; descriptors = closed_by calls p.descriptors })
run (closes_connection n) p =
    let (calls, connections) = close_at n p.connections in
    (calls, record p { connections = connections; descriptors = closed_by calls p.descriptors })

-- A descriptor that `accept` gives is not open before.
abbrev pub Given : Event → Process → Type 0
Given (accepts (client d host port)) p = count d p.descriptors ≡ 0
Given _ p = Unit {0}

-- How many of the sockets hold the descriptor and count as open.
abbrev pub holds : ℕ → Option ℕ → Bool → ℕ
holds d (some x) true = if nat_eq x d then 1 else 0
holds d _ _ = 0

abbrev pub holders : ℕ → List BsonSocket → ℕ
holders d [] = 0
holders d (s ∷ l) = holds d s.file_descriptor s.is_open + holders d l

abbrev pub owners : ℕ → Process → ℕ
owners d p = holds d p.server.file_descriptor p.server.is_open + holders d p.connections

count-remove :
    (d x : ℕ) (l : List ℕ)
    → count d (remove x l) ≡ (if nat_eq x d then count d l - 1 else count d l)
count-remove d x [] = ground arith
count-remove d x (y ∷ l) = ground (arith, count-remove d x l)

-- The calls that close one socket.
abbrev pub closing : Option ℕ → Bool → List SysCall
closing descriptor true = SysCall.close descriptor ∷ []
closing descriptor false = []

-- If the open descriptors are those that the sockets hold, then after a socket is closed they are those
-- that the others hold.
closing-count :
    (descriptor : Option ℕ) (is_open : Bool) (rest : ℕ → ℕ) (l : List ℕ)
    → ((d : ℕ) → count d l ≡ holds d descriptor is_open + rest d)
    → (d : ℕ) → count d (closed_by (closing descriptor is_open) l) ≡ rest d
closing-count none true rest l h d = omega (arith, h d)
closing-count none false rest l h d = omega (arith, h d)
closing-count (some x) false rest l h d = omega (arith, h d)
closing-count (some x) true rest l h d = ground (arith, count-remove d x l, h d)

-- The descriptor of a call is open, and one socket holds it.
abbrev pub IsHeld : List ℕ → SysCall → Type 0
IsHeld l (SysCall.close (some d)) = count d l ≡ 1
IsHeld l (SysCall.accept (some d)) = count d l ≡ 1
IsHeld l _ = Unit {0}

pub held_one :
    (x : ℕ) (rest : ℕ → ℕ) (l : List ℕ)
    → ((d : ℕ) → count d l ≡ holds d (some x) true + rest d)
    → ((d : ℕ) → count d l ≤ 1)
    → count x l ≡ 1
held_one x rest l h once = ground (arith, h x, once x)

closing-IsHeld :
    (descriptor : Option ℕ) (is_open : Bool) (rest : ℕ → ℕ) (l : List ℕ)
    → ((d : ℕ) → count d l ≡ holds d descriptor is_open + rest d)
    → ((d : ℕ) → count d l ≤ 1)
    → All (IsHeld l) (closing descriptor is_open)
closing-IsHeld none true rest l h once = (tt, tt)
closing-IsHeld descriptor false rest l h once = tt
closing-IsHeld (some x) true rest l h once = (held_one x rest l h once, tt)

closing-once :
    (descriptor : Option ℕ) (is_open : Bool) (l : List ℕ)
    → ((d : ℕ) → count d l ≤ 1)
    → (d : ℕ) → count d (closed_by (closing descriptor is_open) l) ≤ 1
closing-once none true l once d = once d
closing-once descriptor false l once d = once d
closing-once (some x) true l once d = ground (arith, count-remove d x l, once d)

close_socket_lem :
    (s : BsonSocket)
    → close_socket s ≡ (closing s.file_descriptor s.is_open, record s { is_open = false })
unfolding close_socket
close_socket_lem s = closed_of s.is_open s
  where
    closed_of :
        (b : Bool) (s : BsonSocket)
        → ◌≡◌ {A = List SysCall × BsonSocket}
            (if b
              then (SysCall.close s.file_descriptor ∷ [], record s { is_open = false })
              else ([], record s { is_open = b }))
            (closing s.file_descriptor b, record s { is_open = false })
    closed_of true s = refl
    closed_of false s = refl

pub close_server_lem :
    (s : ServerSocket)
    → close_server s ≡ (closing s.file_descriptor s.is_open, record s { is_open = false })
unfolding close_server
close_server_lem s = closed_of s.is_open s
  where
    closed_of :
        (b : Bool) (s : ServerSocket)
        → ◌≡◌ {A = List SysCall × ServerSocket}
            (if b
              then (SysCall.close s.file_descriptor ∷ [], record s { is_open = false })
              else ([], record s { is_open = b }))
            (closing s.file_descriptor b, record s { is_open = false })
    closed_of true s = refl
    closed_of false s = refl

-- What holds of the open descriptors when the sockets hold them as `owner` counts.
abbrev pub Owned : (ℕ → ℕ) → List ℕ → Type 0
Owned owner l = ((d : ℕ) → count d l ≡ owner d) × ((d : ℕ) → count d l ≤ 1)

holds_closed : (d : ℕ) (descriptor : Option ℕ) → holds d descriptor false ≡ 0
holds_closed d none = refl
holds_closed d (some x) = refl

-- One socket is closed, while `rest` counts the others.
pub closing-Owned :
    (descriptor : Option ℕ) (is_open : Bool) (rest : ℕ → ℕ) (l : List ℕ)
    → Owned (λ d. holds d descriptor is_open + rest d) l
    → Owned (λ d. holds d descriptor false + rest d) (closed_by (closing descriptor is_open) l)
      × All (IsHeld l) (closing descriptor is_open)
closing-Owned descriptor is_open rest l (h, once) = (
  (
    λ d. closing-count descriptor is_open rest l h d ∙ omega (arith, holds_closed d descriptor),
    closing-once descriptor is_open l once,
  ),
  closing-IsHeld descriptor is_open rest l h once,
)

pub Owned-eq :
    (owner other : ℕ → ℕ) (l : List ℕ)
    → ((d : ℕ) → owner d ≡ other d)
    → Owned owner l
    → Owned other l
Owned-eq owner other l e (h, once) = ((λ d. h d ∙ e d), once)

-- The first of some sockets is closed, or one behind it.
pub close_at-Owned :
    (n : ℕ) (sockets : List BsonSocket) (rest : ℕ → ℕ) (l : List ℕ)
    → Owned (λ d. holders d sockets + rest d) l
    → let (calls, sockets') = close_at n sockets in
      Owned (λ d. holders d sockets' + rest d) (closed_by calls l) × All (IsHeld l) calls
close_at-Owned n [] rest l o = (o, tt)
close_at-Owned zero (s ∷ sockets) rest l o =
    let (after, held) =
      closing-Owned s.file_descriptor s.is_open (λ d. holders d sockets + rest d) l
        (Owned-eq _ _ l (λ d. omega arith) o) in
    rw (close_socket_lem s) (Owned-eq _ _ _ (λ d. omega arith) after, held)
close_at-Owned (suc n) (s ∷ sockets) rest l o =
    let (after, held) =
      close_at-Owned n sockets (λ d. holds d s.file_descriptor s.is_open + rest d) l
        (Owned-eq _ _ l (λ d. omega arith) o) in
    (Owned-eq _ _ _ (λ d. omega arith) after, held)
