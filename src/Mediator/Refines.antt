-- ===== src/Mediator/Refines.antt =====
-- The functions of src/mediator/mediator.cpp implement the registry: each changes the two tables as
-- its abstract counterpart says.
use mros_w24_solution.Common.{String, ℕ, refl, ◌∙◌, eq_iff, arith}
use mros_w24_solution.Containers.NameSet.{contains, contains-erase}
use mros_w24_solution.Containers.Table.{lookup, at, lookup-erase}
use mros_w24_solution.Json.{JsonLib}
use mros_w24_solution.Mediator.{
  Mediator, new_topic, init, add_node, remove_publisher, remove_subscriber, register,
}
use mros_w24_solution.Mediator.Views.{
  node, address-change, subscribed-change, connection-change, publishes-change, subscribes-change,
  address_kept, subscribed_kept, connection_kept, publishes_kept, subscribes_kept,
}
use mros_w24_solution.Mediator.Registry.{
  Registry, Represents, no_nodes, connect, unpublish, unsubscribe,
}

module _ ⦃json : JsonLib⦄ where
  pub init-Represents : Represents init no_nodes
  unfolding at lookup contains
  init-Represents = record {
    publishes_eq = λ n t. refl;
    address_eq = λ n t. refl;
    subscribes_eq = λ n t. refl;
    subscribed_eq = λ n t. refl;
    connection_eq = λ n. refl;
  }

  module _ {m : Mediator} {r : Registry} (v : Represents m r) where
    -- A new connection.
    pub register-Represents :
        (uri : String) (c : ℕ) → Represents (register uri c m) (connect uri c r)
    unfolding register
    register-Represents uri c = record {
      publishes_eq = v.publishes_eq;
      address_eq = λ n t. address_kept uri n t _ m refl ∙ v.address_eq n t;
      subscribes_eq = v.subscribes_eq;
      subscribed_eq = λ n t. subscribed_kept uri n t _ m refl ∙ v.subscribed_eq n t;
      connection_eq = λ n. connection-change uri n _ m ∙ ground (arith, v.connection_eq n);
    }

    pub add_node-Represents : (uri name : String) → Represents (add_node uri name m) r
    unfolding add_node
    add_node-Represents uri name = record {
      publishes_eq = v.publishes_eq;
      address_eq = λ n t. address_kept uri n t _ m refl ∙ v.address_eq n t;
      subscribes_eq = v.subscribes_eq;
      subscribed_eq = λ n t. subscribed_kept uri n t _ m refl ∙ v.subscribed_eq n t;
      connection_eq = λ n. connection_kept uri n _ m refl ∙ v.connection_eq n;
    }

    pub remove_publisher-Represents :
        (uri topic : String) → Represents (remove_publisher uri topic m) (unpublish uri topic r)
    unfolding remove_publisher
    remove_publisher-Represents uri topic = record {
      publishes_eq = λ n t.
          publishes-change topic n t _ m
          ∙ ground (
            arith,
            eq_iff topic t,
            contains-erase uri n (at new_topic topic m.topic_table).publishing_nodes,
            v.publishes_eq n t,
          );
      address_eq = λ n t.
          address-change uri n t _ m
          ∙ ground (
            arith,
            eq_iff uri n,
            v.address_eq n t,
            lookup-erase topic t (node m uri).publisher_addresses_by_topic,
          );
      subscribes_eq = λ n t. subscribes_kept topic n t _ m refl ∙ v.subscribes_eq n t;
      subscribed_eq = λ n t. subscribed_kept uri n t _ m refl ∙ v.subscribed_eq n t;
      connection_eq = λ n. connection_kept uri n _ m refl ∙ v.connection_eq n;
    }

    pub remove_subscriber-Represents :
        (uri topic : String) → Represents (remove_subscriber uri topic m) (unsubscribe uri topic r)
    unfolding remove_subscriber
    remove_subscriber-Represents uri topic = record {
      publishes_eq = λ n t. publishes_kept topic n t _ m refl ∙ v.publishes_eq n t;
      address_eq = λ n t. address_kept uri n t _ m refl ∙ v.address_eq n t;
      subscribes_eq = λ n t.
          subscribes-change topic n t _ m
          ∙ ground (
            arith,
            eq_iff topic t,
            contains-erase uri n (at new_topic topic m.topic_table).subscribing_nodes,
            v.subscribes_eq n t,
          );
      subscribed_eq = λ n t.
          subscribed-change uri n t _ m
          ∙ ground (
            arith,
            eq_iff uri n,
            v.subscribed_eq n t,
            contains-erase topic t (node m uri).subscribed_topics,
          );
      connection_eq = λ n. connection_kept uri n _ m refl ∙ v.connection_eq n;
    }
