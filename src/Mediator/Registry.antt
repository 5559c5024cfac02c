-- ===== src/Mediator/Registry.antt =====
-- The abstract view of the mediator of src/mediator/mediator.cpp: who publishes what and where, who
-- subscribes to what, and which connection leads to whom. Nothing of the tables' layout is left.
use mros_w24_solution.Common.{
  String, ℕ, Bool, false, not, ◌&&◌, ◌||◌, Option, none, some, ◌≡◌, ◌==◌, if◌then◌else◌, is_some,
}
use mros_w24_solution.Json.{JsonLib}
use mros_w24_solution.Mediator.{Mediator, AddressPort}
use mros_w24_solution.Mediator.Views.{publishes, subscribes, address, subscribed, connection}

pub record Registry : Type 0 where
  -- node and topic
  pub publisher : String → String → Option AddressPort
  pub subscriber : String → String → Bool
  pub connection : String → Option ℕ

abbrev pub no_nodes : Registry
no_nodes = record { publisher = λ n t. none; subscriber = λ n t. false; connection = λ n. none }

abbrev pub connect : String → ℕ → Registry → Registry
connect uri c r = record r { connection = λ n. if uri == n then some c else r.connection n }

abbrev pub publish : String → String → AddressPort → Registry → Registry
publish uri topic a r = record r {
  publisher = λ n t. if uri == n && topic == t then some a else r.publisher n t;
}

abbrev pub subscribe : String → String → Registry → Registry
subscribe uri topic r = record r {
  subscriber = λ n t. (uri == n && topic == t) || r.subscriber n t;
}

abbrev pub unpublish : String → String → Registry → Registry
unpublish uri topic r = record r {
  publisher = λ n t. if uri == n && topic == t then none else r.publisher n t;
}

abbrev pub unsubscribe : String → String → Registry → Registry
unsubscribe uri topic r = record r {
  subscriber = λ n t. not (uri == n && topic == t) && r.subscriber n t;
}

abbrev pub leave : String → Registry → Registry
leave uri r = record {
  publisher = λ n t. if uri == n then none else r.publisher n t;
  subscriber = λ n t. not (uri == n) && r.subscriber n t;
  connection = λ n. if uri == n then none else r.connection n;
}

module _ ⦃json : JsonLib⦄ where
  -- Both tables agree with the registry, and so with each other, at every node and topic.
  pub record Represents (m : Mediator) (r : Registry) : Type 0 where
    pub publishes_eq : (n t : String) → publishes m n t ≡ is_some (r.publisher n t)
    pub address_eq : (n t : String) → address m n t ≡ r.publisher n t
    pub subscribes_eq : (n t : String) → subscribes m n t ≡ r.subscriber n t
    pub subscribed_eq : (n t : String) → subscribed m n t ≡ r.subscriber n t
    pub connection_eq : (n : String) → connection m n ≡ r.connection n
