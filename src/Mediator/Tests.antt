-- ===== src/Mediator/Tests.antt =====
-- A short history of the mediator: a talker connects and publishes, a listener connects and
-- subscribes, and the talker leaves.
use native.Mathlib.Decide.{dec_lt}
use mros_w24_solution.Common.{
  String, List, [], ℤ, true, ◌∷◌, some, ◌≡◌, ◌↔◌, refl, ◌∙◌, none, false,
}
use mros_w24_solution.Json.Sample.{tree_json, Tree}
use mros_w24_solution.Uri.{to_uri}
use mros_w24_solution.Rpc.{receive_round}
use mros_w24_solution.Rpc.Dispatch.{go_on}
use mros_w24_solution.Mediator.{
  Mediator, AddressPort, init, remove_node, add_subscriber, no_address,
}
use mros_w24_solution.Mediator.Callbacks.{callbacks}
use mros_w24_solution.Mediator.Callbacks.{Accepted, nothing, connected, message, lost}
use mros_w24_solution.Mediator.Views.{address, subscribes as subscribes_to, connection}
use mros_w24_solution.Mediator.Registry.{Registry, Represents, no_nodes, leave}
use mros_w24_solution.Mediator.Announce.{Told}
use mros_w24_solution.Mediator.Serve.{
  publishes, subscribes, unpublishes, call_message, effect, receive_round-call,
}
use mros_w24_solution.Mediator.Telling.{Lists, add_subscriber-Lists}
use mros_w24_solution.Mediator.Removal.{remove_node-Represents}
use mros_w24_solution.Mediator.Race.{overlap, overlap-Lists}
use mros_w24_solution.Containers.NameSet.{contains}
use mros_w24_solution.Mediator.Events.{Event, connects, calls, closes, Allowed, record_event}
use mros_w24_solution.Mediator.History.{
  Reach, start, Reach-serve, Reach-Represents, Reach-discovered,
}

abbrev talker : String
talker = to_uri "10.0.0.1" (ℤ.pos 4000)

abbrev listener : String
listener = to_uri "10.0.0.2" (ℤ.pos 4000)

abbrev talker_address : AddressPort
talker_address = record { host = "127.0.0.1"; port = ℤ.pos 6000 }

-- The mediator after some events, with what they amount to.
abbrev After : Registry → Type 0
After r = (m : Mediator) × Reach m r

abbrev then_serve :
    {r : Registry} (s : After r) (e : Event) → Allowed e r → After (record_event e r)
then_serve s e allowed = let n = Reach-serve s.1 e allowed in (n.0, n.2)

abbrev talker_on : Event
talker_on = connects "10.0.0.1" (ℤ.pos 4000) 1 "talker"

abbrev listener_on : Event
listener_on = connects "10.0.0.2" (ℤ.pos 4000) 2 "listener"

abbrev talker_publishes : Event
talker_publishes = calls talker 1 (publishes "chat" talker_address)

abbrev listener_subscribes : Event
listener_subscribes = calls listener 2 (subscribes "chat")

-- What the events amount to, one after the other.
abbrev first : Registry
first = record_event talker_on no_nodes

abbrev second : Registry
second = record_event talker_publishes first

abbrev third : Registry
third = record_event listener_on second

abbrev fourth : Registry
fourth = record_event listener_subscribes third

after_first : After first
after_first = then_serve (init, start) talker_on refl

after_second : After second
unfolding to_uri dec_lt
after_second = then_serve after_first talker_publishes refl

after_third : After third
unfolding to_uri dec_lt
after_third = then_serve after_second listener_on refl

after_fourth : After fourth
unfolding to_uri dec_lt
after_fourth = then_serve after_third listener_subscribes refl

abbrev last : Mediator
last = after_fourth.0

Reach-Represents_example : Represents last fourth
Reach-Represents_example = Reach-Represents after_fourth.1

talker_at : address last talker "chat" ≡ some talker_address
unfolding to_uri dec_lt
talker_at = (Reach-Represents after_fourth.1).address_eq talker "chat" ∙ refl

listener_there : subscribes_to last listener "chat" ≡ true
unfolding to_uri dec_lt
listener_there = (Reach-Represents after_fourth.1).subscribes_eq listener "chat" ∙ refl

listener_connected : connection last listener ≡ some 2
unfolding to_uri dec_lt
listener_connected = (Reach-Represents after_fourth.1).connection_eq listener ∙ refl

Reach-discovered_example : Told last 2 "chat" talker_address
Reach-discovered_example =
    Reach-discovered after_fourth.1 talker listener "chat" talker_address 2 talker_at listener_there
      listener_connected

talker-Allowed : Allowed (closes talker 1) fourth
unfolding to_uri dec_lt
talker-Allowed = refl

remove_node-Represents_example :
    (m : Mediator) × (remove_node talker last ≡ some m)
    × Represents m (leave talker fourth)
    × (m.closed ≡ 1 ∷ last.closed)
    × (m.sent ≡ last.sent)
remove_node-Represents_example =
    remove_node-Represents (Reach-Represents after_fourth.1) talker 1 talker-Allowed

add_subscriber-Lists_example :
    Lists (add_subscriber talker "chat" last).0 "chat" talker_address
    ↔ ((n : String) × (fourth.publisher n "chat" ≡ some talker_address))
add_subscriber-Lists_example =
    add_subscriber-Lists (Reach-Represents after_fourth.1) talker "chat" talker_address

receive_round-call_example :
    receive_round (callbacks talker 1) Tree.null (some (call_message (unpublishes "chat"))) last
    ≡ go_on (effect talker 1 (unpublishes "chat") last)
receive_round-call_example = receive_round-call talker 1 Tree.null (unpublishes "chat") last

nobody_publishes : third.publisher listener "news" ≡ none
unfolding to_uri dec_lt
nobody_publishes = refl

nobody_subscribes : third.subscriber talker "news" ≡ false
unfolding to_uri dec_lt
nobody_subscribes = refl

overlap-Lists_example :
    let (subscribers, reply, outcome) =
      overlap listener talker "news" talker_address after_third.0 in
    Lists reply "news" no_address × (contains talker subscribers ≡ false)
overlap-Lists_example =
    overlap-Lists (Reach-Represents after_third.1) listener talker "news" talker_address
      nobody_publishes nobody_subscribes

-- A round without a connection, a client whose first message has no name, and one that comes too late.
abbrev rounds : List Accepted
rounds =
    nothing
    ∷ connected "10.0.0.3" (ℤ.pos 4000) 3 (message Tree.null true)
    ∷ connected "10.0.0.4" (ℤ.pos 4000) 4 lost
    ∷ []
