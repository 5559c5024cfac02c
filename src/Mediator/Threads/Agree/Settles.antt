-- ===== src/Mediator/Threads/Agree/Settles.antt =====
-- When a handler of src/mediator/mediator.cpp leaves the node table: what it has put into the topic
-- table is what the registry takes up.
use mros_w24_solution.Common.{
  String, Bool, false, ◌≡◌, sym, ap, ◌∙◌, ◌==◌, eq_iff, is_some, arith, if◌then◌else◌,
}
use mros_w24_solution.Containers.NameSet.{contains}
use mros_w24_solution.Containers.Table.{at}
use mros_w24_solution.Json.{JsonLib}
use mros_w24_solution.Mediator.{Mediator, new_topic}
use mros_w24_solution.Mediator.Views.{publishes, subscribes}
use mros_w24_solution.Mediator.Registry.{Registry}
use mros_w24_solution.Mediator.Threads.{Pending, World}
use mros_w24_solution.Mediator.Threads.Keeps.{Kept}
use mros_w24_solution.Mediator.Threads.Agree.{
  Agrees, publishes_in, subscribes_in, publishes_in-if, subscribes_in-if,
}

module _ ⦃json : JsonLib⦄ where
  -- A change of the node table that keeps what `Kept` says keeps the agreement.
  pub Kept-Agrees :
      {w : World} {r : Registry} {m : Mediator}
      → Kept w.mediator m
      → Agrees w r
      → Agrees (record w { mediator = m }) r
  Kept-Agrees k v = record {
    publishes_eq = λ n t.
        ap (λ l. contains n (at new_topic t l).publishing_nodes) k.topic_table ∙ v.publishes_eq n t;
    subscribes_eq = λ n t.
        ap (λ l. contains n (at new_topic t l).subscribing_nodes) k.topic_table
        ∙ v.subscribes_eq n t;
    subscribed_eq = λ n t. k.subscriptions n t ∙ v.subscribed_eq n t;
    address_of = λ n t a e. k.addresses n t a (v.address_of n t a e);
    connection_eq = λ n. k.connections n ∙ v.connection_eq n;
  }

  module _ {w : World} {r : Registry} (v : Agrees w r) (uri : String) where
    -- What the topic table says of the node is what the registry comes to say of it, and of the
    -- other nodes nothing changes.
    pub settled_publishes :
        (p q : Pending)
        → w.pending uri ≡ p
        → (r' : Registry) → ((t : String) (b : Bool) → publishes_in q t b ≡ b)
        → ((t : String)
            → publishes_in p t (is_some (r.publisher uri t)) ≡ is_some (r'.publisher uri t))
        → ((n t : String) → (uri == n) ≡ false → r'.publisher n t ≡ r.publisher n t)
        → (n t : String)
        → publishes w.mediator n t
          ≡ publishes_in (if uri == n then q else w.pending n) t (is_some (r'.publisher n t))
    settled_publishes p q busy r' h own others n t =
        v.publishes_eq n t
        ∙ ground (
          arith,
          eq_iff uri n,
          ap (λ p. publishes_in p t (is_some (r.publisher uri t))) busy,
          own t,
          others n t,
          h t (is_some (r'.publisher uri t)),
        )
        ∙ sym (publishes_in-if (uri == n) q (w.pending n) t (is_some (r'.publisher n t)))

    pub settled_subscribes :
        (p q : Pending)
        → w.pending uri ≡ p
        → (r' : Registry) → ((t : String) (b : Bool) → subscribes_in q t b ≡ b)
        → ((t : String) → subscribes_in p t (r.subscriber uri t) ≡ r'.subscriber uri t)
        → ((n t : String) → (uri == n) ≡ false → r'.subscriber n t ≡ r.subscriber n t)
        → (n t : String)
        → subscribes w.mediator n t
          ≡ subscribes_in (if uri == n then q else w.pending n) t (r'.subscriber n t)
    settled_subscribes p q busy r' h own others n t =
        v.subscribes_eq n t
        ∙ ground (
          arith,
          eq_iff uri n,
          ap (λ p. subscribes_in p t (r.subscriber uri t)) busy,
          own t,
          others n t,
          h t (r'.subscriber uri t),
        )
        ∙ sym (subscribes_in-if (uri == n) q (w.pending n) t (r'.subscriber n t))
