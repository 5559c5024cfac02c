-- ===== src/Mediator/Accepting.antt =====
-- What the accepting loop of src/mediator/mediator.cpp leaves in the tables, however it ends.
use mros_w24_solution.Common.{not, ◌||◌, Bool, true, false, List, [], ◌∷◌, ◌++◌, ◌≡◌, ◌≢◌}
use mros_w24_solution.Json.{JsonLib, Json}
use mros_w24_solution.Uri.{to_uri}
use mros_w24_solution.Mediator.{Mediator}
use mros_w24_solution.Mediator.Callbacks.{
  lost, message, Accepted, nothing, failed, connected, Exit, deactivated, terminated,
}
use mros_w24_solution.Mediator.Registry.{Registry, Represents, no_nodes, connect}

module _ ⦃json : JsonLib⦄ where
  open json use {put, string}

  -- What a round means: a connection that is accepted enters, whatever its greeting.
  abbrev pub enter : Accepted → Registry → Registry
  enter nothing r = r
  enter failed r = r
  enter (connected host port c greeting) r = connect (to_uri host port) c r

  abbrev pub enter_all : List Accepted → Registry → Registry
  enter_all [] r = r
  enter_all (a ∷ rounds) r = enter_all rounds (enter a r)

  -- The rounds in which `accept`, a receive or a send of `startConnection` throws.
  abbrev pub fails : Accepted → Bool
  fails nothing = false
  fails failed = true
  fails (connected host port c lost) = true
  fails (connected host port c (message j clears)) = not clears

  abbrev pub any_fails : List Accepted → Bool
  any_fails [] = false
  any_fails (a ∷ rounds) = fails a || any_fails rounds

  -- How the loop may end: with empty tables and all rounds served, or in a round that met an
  -- exception, with the tables of the connections up to that one, and no later round served.
  pub data Ending (rounds : List Accepted) (r : Registry) : Mediator × Exit → Type 0 where
    all_served :
        (m : Mediator)
        → any_fails rounds ≡ false
        → Represents m no_nodes
        → Ending rounds r (m, deactivated)
    ended_in :
        (before rest : List Accepted) (a : Accepted) (m : Mediator)
        → rounds ≡ before ++ a ∷ rest
        → a ≢ nothing
        → Represents m (enter_all (before ++ a ∷ []) r)
        → Ending rounds r (m, terminated)
