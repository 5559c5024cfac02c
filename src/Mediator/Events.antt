-- ===== src/Mediator/Events.antt =====
-- What happens to the mediator of src/mediator/mediator.cpp, and the thread that serves it: the
-- accepting loop or the receiving thread of a connection, each run to its end.
use mros_w24_solution.Common.{
  String, ℕ, ℤ, Bool, true, false, [], ◌∷◌, Option, none, some, ◌>>=◌, ◌≡◌, refl, inr,
}
use mros_w24_solution.Json.{JsonLib}
use mros_w24_solution.Rpc.{receive_round, run_closing_callback}
use mros_w24_solution.Rpc.Cycle.{failed, receive_round-Ends}
use mros_w24_solution.Uri.{to_uri}
use mros_w24_solution.Mediator.{Mediator, register, add_node, remove_node}
use mros_w24_solution.Mediator.Callbacks.{
  message, connected, accept_round, start_connection, callbacks,
}
use mros_w24_solution.Mediator.Serve.{
  Call, publishes, subscribes, unpublishes, unsubscribes, call_message, effect, receive_round-call,
  connecting_callback_lem,
}
use mros_w24_solution.Mediator.Registry.{
  Registry, connect, publish, subscribe, unpublish, unsubscribe, leave,
}

-- A node connects from a host and a port and sends its name, a node calls, a connection closes.
pub data Event : Type 0 where
  connects : String → ℤ → ℕ → String → Event
  calls : String → ℕ → Call → Event
  closes : String → ℕ → Event

-- A new connection has an address of its own, and a node calls over its connection.
abbrev pub Allowed : Event → Registry → Type 0
Allowed (connects host port c name) r = r.connection (to_uri host port) ≡ none
Allowed (calls uri c call) r = r.connection uri ≡ some c
Allowed (closes uri c) r = r.connection uri ≡ some c

abbrev pub record_call : String → Call → Registry → Registry
record_call uri (publishes topic a) r = publish uri topic a r
record_call uri (subscribes topic) r = subscribe uri topic r
record_call uri (unpublishes topic) r = unpublish uri topic r
record_call uri (unsubscribes topic) r = unsubscribe uri topic r

abbrev pub record_event : Event → Registry → Registry
record_event (connects host port c name) r = connect (to_uri host port) c r
record_event (calls uri c call) r = record_call uri call r
record_event (closes uri c) r = leave uri r

module _ ⦃json : JsonLib⦄ where
  open json use {object, string}

  abbrev ended : Option (Mediator × Bool) → Option Mediator
  ended r = r >>= λ (m, more). some m

  -- The thread that serves the event: the accepting loop, or the receiving thread of a connection.
  pub serve : Event → Mediator → Option Mediator
  serve (connects host port c name) m =
      some
        (accept_round
          (connected host port c (message (object (("node_name", string name) ∷ [])) true)) m).0
  serve (calls uri c call) m =
      ended (receive_round (callbacks uri c) (object []) (some (call_message call)) m)
  serve (closes uri c) m = ended (receive_round (callbacks uri c) (object []) none m)

  pub serve-connects :
      (host : String) (port : ℤ) (c : ℕ) (name : String) (m : Mediator)
      → serve (connects host port c name) m
        ≡ some (add_node (to_uri host port) name (register (to_uri host port) c m))
  unfolding serve accept_round start_connection
  serve-connects host port c name m =
      rw (connecting_callback_lem (to_uri host port) name (register (to_uri host port) c m)) refl

  pub serve-calls :
      (uri : String) (c : ℕ) (call : Call) (m : Mediator)
      → serve (calls uri c call) m ≡ effect uri c call m
  unfolding serve
  serve-calls uri c call m =
      rw (receive_round-call uri c (object []) call m) (ended-go_on (effect uri c call m))
    where
      ended-go_on : (r : Option Mediator) → ended (r >>= λ m. some (m, true)) ≡ r
      ended-go_on none = refl
      ended-go_on (some m) = refl

  pub serve-closes :
      (uri : String) (c : ℕ) (m : Mediator) → serve (closes uri c) m ≡ remove_node uri m
  unfolding serve callbacks run_closing_callback
  serve-closes uri c m =
      rw (receive_round-Ends (callbacks uri c) (object []) m (inr refl) failed)
        (ended-finish (remove_node uri m))
    where
      ended-finish : (r : Option Mediator) → ended (r >>= λ m. some (m, false)) ≡ r
      ended-finish none = refl
      ended-finish (some m) = refl
