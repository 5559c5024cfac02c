-- ===== src/Mros/Interrupt/Tests.antt =====
-- ctrl+C in a process with two nodes, of which one has registered.
use mros_w24_solution.Common.{true, false, [], ◌∷◌, none, some, ◌≡◌, if◌then◌else◌}
use mros_w24_solution.Json.Sample.{tree_json}
use mros_w24_solution.Node.{new_node, create_subscriber, disconnect}
use mros_w24_solution.Mros.{sigint, init, active, handle_signal}
use mros_w24_solution.Mros.Interrupt.{Nodes, has, register_all, handle_signal-disconnect}

abbrev both : Nodes
both i = create_subscriber "chat" i (new_node true true)

handle_signal-disconnect_example :
    let (p, after) = handle_signal sigint (register_all (λ x. true) (1 ∷ []) (init none)) both in
    (after 1 ≡ (if has 1 (1 ∷ []) then disconnect (λ x. true) (both 1) else both 1))
    × (active p ≡ some false)
    × ((handle_signal sigint p after).1 1 ≡ after 1)
handle_signal-disconnect_example = handle_signal-disconnect (λ x. true) (1 ∷ []) both 1
