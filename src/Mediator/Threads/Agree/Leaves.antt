-- ===== src/Mediator/Threads/Agree/Leaves.antt =====
-- `removeNode` of src/mediator/mediator.cpp under the lock of the topic table, while other handlers are
-- under way.
use mros_w24_solution.Common.{
  String, true, ◌≡◌, refl, sym, ap, ◌∙◌, ◌==◌, eq_iff, is_some, arith, Option-cases, inl, inr,
}
use mros_w24_solution.Containers.NameSet.{contains}
use mros_w24_solution.Containers.Table.{lookup, at}
use mros_w24_solution.Json.{JsonLib}
use mros_w24_solution.Mediator.{
  Mediator, NodeData, new_node, leave_topics, change_node, forget_publisher,
}
use mros_w24_solution.Mediator.Views.{
  publishes, address, node, node-touch, address_kept, subscribed_kept, publishes-forget_publisher,
  publishes-forget_subscriber, subscribes-forget_publisher, subscribes-forget_subscriber,
  SameNodes-forget_publisher, SameNodes-forget_subscriber,
}
use mros_w24_solution.Mediator.Registry.{Registry}
use mros_w24_solution.Mediator.Threads.{idle, leaving, World, then_in}
use mros_w24_solution.Mediator.Threads.Agree.Begins.{before_publishes, before_subscribes}
use mros_w24_solution.Mediator.Threads.Agree.{Agrees, publishes_in-if, subscribes_in-if}

module _ ⦃json : JsonLib⦄ where
  module _ {w : World} {r : Registry} (v : Agrees w r) (uri : String)
      (free : w.pending uri ≡ idle) where
    -- A topic on which the node publishes is in its entry, so that the loop reaches it.
    address_known :
        (t : String) → publishes w.mediator uri t ≡ true → is_some (address w.mediator uri t) ≡ true
    address_known t i = elim (Option-cases (r.publisher uri t)) [
      | inl no_publisher ↦ absurd (cc (i, before_publishes v uri free t, ap is_some no_publisher))
      | inr (a, e) ↦ ap is_some (v.address_of uri t a e)
    ]

    abbrev touched : Mediator
    touched = change_node uri (λ d. d) w.mediator

    abbrev without_publisher : Mediator
    without_publisher = forget_publisher uri (node touched uri).publisher_addresses_by_topic touched

    node_table-leave_topics : (leave_topics uri w.mediator).node_table ≡ touched.node_table
    unfolding leave_topics
    node_table-leave_topics =
        (SameNodes-forget_subscriber uri (node touched uri).subscribed_topics
          without_publisher).node_table
        ∙ (SameNodes-forget_publisher uri (node touched uri).publisher_addresses_by_topic
            touched).node_table

    node-leave_topics : (n : String) → node (leave_topics uri w.mediator) n ≡ node w.mediator n
    node-leave_topics n =
        ap (λ l. at new_node n l) node_table-leave_topics ∙ node-touch uri n w.mediator

    pub leave_topics-Agrees : Agrees (then_in uri leaving (leave_topics uri w.mediator) w) r
    unfolding leave_topics
    leave_topics-Agrees = record {
      publishes_eq = λ n t.
          publishes-forget_subscriber uri (node touched uri).subscribed_topics without_publisher n t
          ∙ publishes-forget_publisher uri (node touched uri).publisher_addresses_by_topic touched n
              t
          ∙ ground (
            arith,
            eq_iff uri n,
            address_kept uri uri t (λ d. d) w.mediator refl,
            address_known t,
            v.publishes_eq n t,
          )
          ∙ sym (publishes_in-if (uri == n) leaving (w.pending n) t (is_some (r.publisher n t)));
      subscribes_eq = λ n t.
          subscribes-forget_subscriber uri (node touched uri).subscribed_topics without_publisher n
            t
          ∙ ground (
            arith,
            eq_iff uri n,
            subscribed_kept uri uri t (λ d. d) w.mediator refl,
            subscribes-forget_publisher uri (node touched uri).publisher_addresses_by_topic touched
                n t,
            v.subscribes_eq n t,
            v.subscribed_eq n t,
            before_subscribes v uri free t,
          )
          ∙ sym (subscribes_in-if (uri == n) leaving (w.pending n) t (r.subscriber n t));
      subscribed_eq = λ n t.
          ap (λ (d : NodeData). contains t d.subscribed_topics) (node-leave_topics n)
          ∙ v.subscribed_eq n t;
      address_of = λ n t a e.
          ap (λ (d : NodeData). lookup t d.publisher_addresses_by_topic) (node-leave_topics n)
          ∙ v.address_of n t a e;
      connection_eq =
          λ n. ap (λ (d : NodeData). d.connection) (node-leave_topics n) ∙ v.connection_eq n;
    }
