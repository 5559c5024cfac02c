-- ===== src/Mediator/Threads/Agree.antt =====
-- The tables of src/mediator/mediator.cpp between the steps of many threads: how far they follow the
-- registry while handlers are under way.
pub mod Begins
pub mod Leaves
pub mod Settles
pub mod Goes
pub mod Quits
use mros_w24_solution.Common.{
  String, ℕ, Bool, true, false, not, ◌&&◌, ◌||◌, some, ◌≡◌, refl, ◌∙◌, ◌==◌, if◌then◌else◌, is_some,
}
use mros_w24_solution.Containers.NameSet.{contains}
use mros_w24_solution.Containers.Table.{lookup, at}
use mros_w24_solution.Json.{JsonLib}
use mros_w24_solution.Mediator.{Mediator, AddressPort, register, add_node}
use mros_w24_solution.Mediator.Views.{publishes, subscribes, subscribed, address, connection}
use mros_w24_solution.Mediator.Registry.{
  Registry, no_nodes, connect, publish, subscribe, unpublish, unsubscribe, leave,
}
use mros_w24_solution.Mediator.Threads.{
  Pending, idle, leaving, publishing, subscribing, replying, unpublishing, unsubscribing, World,
  initial, Action, registers, names, begins, begins_closing, goes_on,
}

module _ ⦃json : JsonLib⦄ where
  -- What the topic table says already of a node whose handler is under way.
  abbrev pub publishes_in : Pending → String → Bool → Bool
  publishes_in (publishing topic a nodes) t b = topic == t || b
  publishes_in (unpublishing topic) t b = not (topic == t) && b
  publishes_in leaving t b = false
  publishes_in _ t b = b

  abbrev pub subscribes_in : Pending → String → Bool → Bool
  subscribes_in (subscribing c topic nodes) t b = topic == t || b
  subscribes_in (unsubscribing topic) t b = not (topic == t) && b
  subscribes_in leaving t b = false
  subscribes_in _ t b = b

  pub publishes_in-if :
      (b : Bool) (p q : Pending) (t : String) (v : Bool)
      → publishes_in (if b then p else q) t v
        ≡ (if b then publishes_in p t v else publishes_in q t v)
  publishes_in-if true p q t v = refl
  publishes_in-if false p q t v = refl

  pub subscribes_in-if :
      (b : Bool) (p q : Pending) (t : String) (v : Bool)
      → subscribes_in (if b then p else q) t v
        ≡ (if b then subscribes_in p t v else subscribes_in q t v)
  subscribes_in-if true p q t v = refl
  subscribes_in-if false p q t v = refl

  -- The topic table follows the registry up to what is under way; the node table follows it but for
  -- empty addresses that it may hold besides.
  pub record Agrees (w : World) (r : Registry) : Type 0 where
    pub publishes_eq :
        (n t : String)
        → publishes w.mediator n t ≡ publishes_in (w.pending n) t (is_some (r.publisher n t))
    pub subscribes_eq :
        (n t : String)
        → subscribes w.mediator n t ≡ subscribes_in (w.pending n) t (r.subscriber n t)
    pub subscribed_eq : (n t : String) → subscribed w.mediator n t ≡ r.subscriber n t
    pub address_of :
        (n t : String) (a : AddressPort)
        → r.publisher n t ≡ some a
        → address w.mediator n t ≡ some a
    pub connection_eq : (n : String) → connection w.mediator n ≡ r.connection n

  -- A handler counts once its part under the lock of the node table has run.
  abbrev pub record_rest : Pending → String → Registry → Registry
  record_rest (publishing topic a nodes) uri r = publish uri topic a r
  record_rest (subscribing c topic nodes) uri r = subscribe uri topic r
  record_rest (unpublishing topic) uri r = unpublish uri topic r
  record_rest (unsubscribing topic) uri r = unsubscribe uri topic r
  record_rest leaving uri r = leave uri r
  record_rest _ uri r = r

  abbrev pub record_action : Action → World → Registry → Registry
  record_action (registers uri c) w r = connect uri c r
  record_action (goes_on uri) w r = record_rest (w.pending uri) uri r
  record_action _ w r = r

  pub initial-Agrees : Agrees initial no_nodes
  unfolding at lookup contains
  initial-Agrees = record {
    publishes_eq = λ n t. refl;
    subscribes_eq = λ n t. refl;
    subscribed_eq = λ n t. refl;
    address_of = λ n t a e. cc;
    connection_eq = λ n. refl;
  }
