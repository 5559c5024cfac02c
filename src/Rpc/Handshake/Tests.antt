-- ===== src/Rpc/Handshake/Tests.antt =====
-- A handshake from its start to its end.
use mros_w24_solution.Common.{true, false, if◌then◌else◌, [], ◌∷◌, Option, none, some, ◌≡◌, refl}
use mros_w24_solution.Json.Sample.{tree_json, Tree}
use mros_w24_solution.Rpc.Handshake.{
  Setup, receiving, serving, Ends, accepted, Who, client_goes, connection_goes, step, Reach, start,
  next,
}
use mros_w24_solution.Rpc.Handshake.Starts.{Reach-started}

abbrev name_message : Tree
name_message = tree_json.object (("node_name", Tree.string "talker") ∷ [])

-- A connection with a callback that returns, and messages that can be read.
abbrev named : Setup
named = record { callback_set = true; callback_throws = λ j. false; is_readable = λ j. true }

abbrev taken : Option Ends → Ends
taken none = accepted
taken (some s) = s

abbrev goes : Who → Ends → Ends
goes who s = taken (step named name_message who s)

abbrev at_last : Ends
at_last = goes client_goes (
    goes connection_goes (
      goes connection_goes (
        goes connection_goes
          (goes client_goes (goes client_goes (goes connection_goes accepted))))))

at_last-Reach : Reach named name_message at_last
unfolding step
at_last-Reach =
    next client_goes
      (next connection_goes
        (next connection_goes
          (next connection_goes
            (next client_goes (next client_goes (next connection_goes start refl) refl) refl) refl)
          refl)
        refl)
      refl

at_last_receives : at_last.client ≡ receiving
unfolding step
at_last_receives = refl

Reach-started_example :
    (at_last.called_with ≡ (if named.callback_set then name_message ∷ [] else []))
    × (at_last.connection ≡ serving)
    × (at_last.is_connected ≡ true)
Reach-started_example = Reach-started at_last-Reach at_last_receives
