-- ===== src/Mediator/Subscribing.antt =====
-- `addSubscriber` of src/mediator/mediator.cpp: what it does to the tables, and the publishers that it
-- reads.
use mros_w24_solution.Common.{String, ◌≡◌, refl, sym, ap, ◌∙◌, eq_iff, is_some, arith}
use mros_w24_solution.Containers.NameSet
use mros_w24_solution.Containers.NameSet.{NameSet, contains, contains-insert, contains-erase}
use mros_w24_solution.Containers.Table.{at}
use mros_w24_solution.Json.{JsonLib}
use mros_w24_solution.Mediator.{
  Mediator, new_topic, change_node, addresses_of, subscribe_topic, add_subscriber,
}
use mros_w24_solution.Mediator.Views.{
  node, subscribed-change, subscribes-change, address_kept, connection_kept, publishes_kept,
}
use mros_w24_solution.Mediator.Registry.{Registry, Represents, subscribe}
use mros_w24_solution.Mediator.Collect.{Collected, addresses_of-Collected}

module _ ⦃json : JsonLib⦄ where
  module _ {m : Mediator} {r : Registry} (v : Represents m r) where
    -- The tables between the two locked parts of `addSubscriber`, and before the addresses are read.
    abbrev pub with_subscriber : String → String → Mediator
    with_subscriber uri topic =
        change_node uri
          (λ d. record d { subscribed_topics = NameSet.insert topic d.subscribed_topics })
          (subscribe_topic uri topic m).1

    pub with_subscriber-Represents :
        (uri topic : String) → Represents (with_subscriber uri topic) (subscribe uri topic r)
    unfolding subscribe_topic
    with_subscriber-Represents uri topic = record {
      publishes_eq = λ n t. publishes_kept topic n t _ m refl ∙ v.publishes_eq n t;
      address_eq = λ n t. address_kept uri n t _ m refl ∙ v.address_eq n t;
      subscribes_eq = λ n t.
          subscribes-change topic n t _ m
          ∙ ground (
            arith,
            eq_iff topic t,
            contains-insert uri n (at new_topic topic m.topic_table).subscribing_nodes,
            v.subscribes_eq n t,
          );
      subscribed_eq = λ n t.
          subscribed-change uri n t _ m
          ∙ ground (
            arith,
            eq_iff uri n,
            v.subscribed_eq n t,
            contains-insert topic t (node m uri).subscribed_topics,
          );
      connection_eq = λ n. connection_kept uri n _ m refl ∙ v.connection_eq n;
    }

    -- The nodes whose addresses `addSubscriber` reads are those that publish on the topic.
    pub publishers_of_topic :
        (uri topic n : String)
        → contains n (subscribe_topic uri topic m).0 ≡ is_some (r.publisher n topic)
    unfolding subscribe_topic
    publishers_of_topic uri topic n = publishes_kept topic n topic _ m refl ∙ v.publishes_eq n topic

    pub add_subscriber-Collected :
        (uri topic : String)
        → let c = addresses_of (subscribe_topic uri topic m).0 topic (with_subscriber uri topic) in
          Collected (subscribe_topic uri topic m).0 topic (with_subscriber uri topic) c.0 c.1 c.2
    add_subscriber-Collected uri topic =
        addresses_of-Collected _ topic (with_subscriber uri topic) (λ n i.
          ap is_some ((with_subscriber-Represents uri topic).address_eq n topic)
          ∙ sym (publishers_of_topic uri topic n)
          ∙ i)

    pub add_subscriber-Represents :
        (uri topic : String) → Represents (add_subscriber uri topic m).1 (subscribe uri topic r)
    unfolding add_subscriber
    add_subscriber-Represents uri topic =
        let w = with_subscriber-Represents uri topic in
        let s = add_subscriber-Collected uri topic in
        record {
          publishes_eq = λ n t.
              ap (λ l. contains n (at new_topic t l).publishing_nodes) s.topic_table
              ∙ w.publishes_eq n t;
          address_eq = λ n t. s.addresses n t ∙ w.address_eq n t;
          subscribes_eq = λ n t.
              ap (λ l. contains n (at new_topic t l).subscribing_nodes) s.topic_table
              ∙ w.subscribes_eq n t;
          subscribed_eq = λ n t. s.subscriptions n t ∙ w.subscribed_eq n t;
          connection_eq = λ n. s.connections n ∙ w.connection_eq n;
        }
