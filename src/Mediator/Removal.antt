-- ===== src/Mediator/Removal.antt =====
-- `removeNode` of src/mediator/mediator.cpp, which the mediator runs when a connection closes.
use mros_w24_solution.Common.{
  String, ℕ, ◌∷◌, none, some, ◌≡◌, refl, ap, ◌∙◌, ◌==◌, eq_iff, if◌then◌else◌, is_some, arith,
}
use mros_w24_solution.Containers.NameSet.{contains}
use mros_w24_solution.Containers.Table.{lookup, erase, at, at-erase}
use mros_w24_solution.Json.{JsonLib}
use mros_w24_solution.Mediator.{
  Mediator, NodeData, new_node, change_node, leave_topics, leave_nodes, remove_node,
  forget_publisher, forget_subscriber,
}
use mros_w24_solution.Mediator.Views.{
  publishes, subscribes, node, node-touch, address_kept, subscribed_kept,
  publishes-forget_publisher, publishes-forget_subscriber, subscribes-forget_publisher,
  subscribes-forget_subscriber, SameNodes-forget_publisher, SameNodes-forget_subscriber,
}
use mros_w24_solution.Mediator.Registry.{Registry, Represents, leave}

module _ ⦃json : JsonLib⦄ where
  module _ {m : Mediator} {r : Registry} (v : Represents m r) (uri : String) where
    abbrev touched : Mediator
    touched = change_node uri (λ d. d) m

    abbrev unsubscribed : Mediator
    unsubscribed =
        forget_subscriber uri (node touched uri).subscribed_topics
          (forget_publisher uri (node touched uri).publisher_addresses_by_topic touched)

    abbrev touched_again : Mediator
    touched_again = change_node uri (λ d. d) unsubscribed

    abbrev removed : ℕ → Mediator
    removed c = record unsubscribed {
      closed = c ∷ unsubscribed.closed;
      node_table = erase uri touched_again.node_table;
    }

    -- The loops over the node's entry reach every topic, since the two tables agree.
    publishes-unsubscribed :
        (n t : String) → publishes unsubscribed n t ≡ is_some ((leave uri r).publisher n t)
    publishes-unsubscribed n t =
        publishes-forget_subscriber uri _ _ n t
        ∙ publishes-forget_publisher uri _ touched n t
        ∙ ground (
          arith,
          eq_iff uri n,
          address_kept uri uri t (λ d. d) m refl,
          v.publishes_eq n t,
          v.address_eq n t,
        )

    subscribes-unsubscribed :
        (n t : String) → subscribes unsubscribed n t ≡ (leave uri r).subscriber n t
    subscribes-unsubscribed n t =
        subscribes-forget_subscriber uri _ _ n t
        ∙ ground (
          arith,
          eq_iff uri n,
          subscribed_kept uri uri t (λ d. d) m refl,
          subscribes-forget_publisher uri (node touched uri).publisher_addresses_by_topic touched n
              t,
          v.subscribes_eq n t,
          v.subscribed_eq n t,
        )

    node_table-unsubscribed : unsubscribed.node_table ≡ touched.node_table
    node_table-unsubscribed =
        (SameNodes-forget_subscriber uri _ _).node_table
        ∙ (SameNodes-forget_publisher uri _ touched).node_table

    node-unsubscribed : (n : String) → node unsubscribed n ≡ node m n
    node-unsubscribed n = ap (λ l. at new_node n l) node_table-unsubscribed ∙ node-touch uri n m

    node-removed :
        (c : ℕ) (n : String) → node (removed c) n ≡ (if uri == n then new_node else node m n)
    node-removed c n =
        at-erase new_node uri n touched_again.node_table
        ∙ ground (arith, node-touch uri n unsubscribed, node-unsubscribed n)

    removed-Represents : (c : ℕ) → Represents (removed c) (leave uri r)
    unfolding lookup contains
    removed-Represents c = record {
      publishes_eq = publishes-unsubscribed;
      address_eq = λ n t.
          ap (λ (d : NodeData). lookup t d.publisher_addresses_by_topic) (node-removed c n)
          ∙ ground (arith, v.address_eq n t);
      subscribes_eq = subscribes-unsubscribed;
      subscribed_eq = λ n t.
          ap (λ (d : NodeData). contains t d.subscribed_topics) (node-removed c n)
          ∙ ground (arith, v.subscribed_eq n t);
      connection_eq = λ n.
          ap (λ (d : NodeData). d.connection) (node-removed c n)
          ∙ ground (arith, v.connection_eq n);
    }

    connection-unsubscribed : (node touched_again uri).connection ≡ r.connection uri
    connection-unsubscribed =
        ap (λ (d : NodeData). d.connection)
          (node-touch uri uri unsubscribed ∙ node-unsubscribed uri)
        ∙ v.connection_eq uri

    remove_node_lem : (c : ℕ) → r.connection uri ≡ some c → remove_node uri m ≡ some (removed c)
    unfolding remove_node leave_topics leave_nodes
    remove_node_lem c e = rw (connection-unsubscribed ∙ e) refl

    -- Where the tables stand for a registry: removing a connected node ends, leaves the tables
    -- standing for the registry without the node, closes its connection once and sends nothing.
    pub remove_node-Represents :
        (c : ℕ)
        → r.connection uri ≡ some c
        → (m' : Mediator) × (remove_node uri m ≡ some m')
          × Represents m' (leave uri r)
          × (m'.closed ≡ c ∷ m.closed)
          × (m'.sent ≡ m.sent)
    remove_node-Represents c e = (
      removed c,
      remove_node_lem c e,
      removed-Represents c,
      ap (◌∷◌ c) (
          (SameNodes-forget_subscriber uri _ _).closed
          ∙ (SameNodes-forget_publisher uri _ touched).closed),
      (SameNodes-forget_subscriber uri _ _).sent ∙ (SameNodes-forget_publisher uri _ touched).sent,
    )

    -- The call is undefined for a node that is not connected.
    pub remove_node_null : r.connection uri ≡ none → remove_node uri m ≡ none
    unfolding remove_node leave_topics leave_nodes
    remove_node_null e = rw (connection-unsubscribed ∙ e) refl
