-- ===== src/Mediator/Publishing.antt =====
-- `addPublisher` of src/mediator/mediator.cpp, call by call: what it does to the tables, and that it
-- returns.
use mros_w24_solution.Common.{String, true, some, ◌≡◌, refl, sym, ap, ◌∙◌, eq_iff, is_some, arith}
use mros_w24_solution.Containers.NameSet.{contains, contains-insert}
use mros_w24_solution.Containers.Table.{lookup, assign, at, lookup-assign}
use mros_w24_solution.Json.{JsonLib}
use mros_w24_solution.Mediator.{
  Mediator, NodeData, AddressPort, new_topic, change_node, publish_topic, add_publisher,
}
use mros_w24_solution.Mediator.Views.{
  node, address-change, publishes-change, subscribed_kept, connection_kept, subscribes_kept,
}
use mros_w24_solution.Mediator.Registry.{Registry, Represents, publish}
use mros_w24_solution.Mediator.Announce.{Notified, notify-Notified, notify-total}

module _ ⦃json : JsonLib⦄ where
  module _ {m : Mediator} {r : Registry} (v : Represents m r) where
    -- The tables between the two locked parts of `addPublisher`, and before the notices go out.
    abbrev pub with_publisher : String → String → AddressPort → Mediator
    with_publisher uri topic a =
        change_node uri
          (λ d. record d {
            publisher_addresses_by_topic = assign topic a d.publisher_addresses_by_topic;
          })
          (publish_topic uri topic m).1

    pub with_publisher-Represents :
        (uri topic : String) (a : AddressPort)
        → Represents (with_publisher uri topic a) (publish uri topic a r)
    unfolding publish_topic
    with_publisher-Represents uri topic a = record {
      publishes_eq = λ n t.
          publishes-change topic n t _ m
          ∙ ground (
            arith,
            eq_iff topic t,
            contains-insert uri n (at new_topic topic m.topic_table).publishing_nodes,
            v.publishes_eq n t,
          );
      address_eq = λ n t.
          address-change uri n t _ m
          ∙ ground (
            arith,
            eq_iff uri n,
            v.address_eq n t,
            lookup-assign topic t a (node m uri).publisher_addresses_by_topic,
          );
      subscribes_eq = λ n t. subscribes_kept topic n t _ m refl ∙ v.subscribes_eq n t;
      subscribed_eq = λ n t. subscribed_kept uri n t _ m refl ∙ v.subscribed_eq n t;
      connection_eq = λ n. connection_kept uri n _ m refl ∙ v.connection_eq n;
    }

    pub add_publisher-Notified :
        (uri topic : String) (a : AddressPort) (m' : Mediator)
        → add_publisher uri topic a m ≡ some m'
        → Notified (publish_topic uri topic m).0 topic a (with_publisher uri topic a) m'
    unfolding add_publisher
    add_publisher-Notified uri topic a m' e = notify-Notified _ topic a _ m' e

    -- A new publisher, whenever the call returns.
    pub add_publisher-Represents :
        (uri topic : String) (a : AddressPort) (m' : Mediator)
        → add_publisher uri topic a m ≡ some m'
        → Represents m' (publish uri topic a r)
    add_publisher-Represents uri topic a m' e =
        let w = with_publisher-Represents uri topic a in
        let s = add_publisher-Notified uri topic a m' e in
        record {
          publishes_eq = λ n t.
              ap (λ l. contains n (at new_topic t l).publishing_nodes) s.topic_table
              ∙ w.publishes_eq n t;
          address_eq = λ n t.
              ap (λ (d : NodeData). lookup t d.publisher_addresses_by_topic) (s.nodes n)
              ∙ w.address_eq n t;
          subscribes_eq = λ n t.
              ap (λ l. contains n (at new_topic t l).subscribing_nodes) s.topic_table
              ∙ w.subscribes_eq n t;
          subscribed_eq = λ n t.
              ap (λ (d : NodeData). contains t d.subscribed_topics) (s.nodes n)
              ∙ w.subscribed_eq n t;
          connection_eq = λ n. ap (λ (d : NodeData). d.connection) (s.nodes n) ∙ w.connection_eq n;
        }

    -- The nodes that `addPublisher` notifies are those that subscribe to the topic.
    pub subscribers_of_topic :
        (uri topic n : String) → contains n (publish_topic uri topic m).0 ≡ r.subscriber n topic
    unfolding publish_topic
    subscribers_of_topic uri topic n =
        subscribes_kept topic n topic _ m refl ∙ v.subscribes_eq n topic

    -- The call returns if every subscriber of the topic is connected.
    pub add_publisher-total :
        (uri topic : String) (a : AddressPort)
        → ((n : String) → r.subscriber n topic ≡ true → is_some (r.connection n) ≡ true)
        → (m' : Mediator) × (add_publisher uri topic a m ≡ some m')
    unfolding add_publisher
    add_publisher-total uri topic a h = notify-total _ topic a (with_publisher uri topic a) (λ n i.
        ap is_some ((with_publisher-Represents uri topic a).connection_eq n)
        ∙ h n (sym (subscribers_of_topic uri topic n) ∙ i))
