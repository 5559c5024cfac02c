-- ===== src/Mediator/Threads/Agree/Quits.antt =====
-- The parts of `removePublisher`, `removeSubscriber` and `removeNode` of src/mediator/mediator.cpp under
-- the lock of the node table, while other handlers are under way.
use mathlib.Core.Option.{some-injective}
use mathlib.Core.Path.{subst}
use mros_w24_solution.Common.{
  eq_refl, ◌∷◌, Option-cases, String, ℕ, none, some, ◌≡◌, refl, sym, ap, ◌∙◌, ◌==◌, eq_iff, arith,
  inl, inr, if◌then◌else◌,
}
use mros_w24_solution.Containers.NameSet.{contains, contains-erase}
use mros_w24_solution.Containers.Table.{lookup, at, erase, lookup-erase, at-erase}
use mros_w24_solution.Json.{JsonLib}
use mros_w24_solution.Mediator.{
  Mediator, NodeData, new_node, change_node, unpublish_node, unsubscribe_node, leave_nodes,
}
use mros_w24_solution.Mediator.Views.{
  connection, node, node-touch, address-change, subscribed-change, address_kept, subscribed_kept,
  connection_kept,
}
use mros_w24_solution.Mediator.Registry.{Registry, unpublish, unsubscribe, leave}
use mros_w24_solution.Mediator.Threads.{idle, leaving, unpublishing, unsubscribing, World, then_in}
use mros_w24_solution.Mediator.Threads.Agree.Settles.{settled_publishes, settled_subscribes}
use mros_w24_solution.Mediator.Threads.Agree.{Agrees}

module _ ⦃json : JsonLib⦄ where
  module _ {w : World} {r : Registry} (v : Agrees w r) (uri : String) where
    pub unpublish_node-Agrees :
        (topic : String)
        → w.pending uri ≡ unpublishing topic
        → Agrees (then_in uri idle (unpublish_node uri topic w.mediator) w) (unpublish uri topic r)
    unpublish_node-Agrees topic busy =
        let r' = unpublish uri topic r in
        record {
          publishes_eq =
              settled_publishes v uri (unpublishing topic) idle busy r' (λ t b. refl)
                (λ t. ground (arith, eq_refl uri)) (λ n t h. ground arith);
          subscribes_eq =
              settled_subscribes v uri (unpublishing topic) idle busy r' (λ t b. refl) (λ t. refl)
                (λ n t h. refl);
          subscribed_eq = λ n t. subscribed_kept uri n t _ w.mediator refl ∙ v.subscribed_eq n t;
          address_of = λ n t b e.
              address-change uri n t _ w.mediator
              ∙ ground (
                arith,
                eq_iff uri n,
                v.address_of n t b,
                lookup-erase topic t (node w.mediator uri).publisher_addresses_by_topic,
                e,
              );
          connection_eq = λ n. connection_kept uri n _ w.mediator refl ∙ v.connection_eq n;
        }

    pub unsubscribe_node-Agrees :
        (topic : String)
        → w.pending uri ≡ unsubscribing topic
        → Agrees
            (then_in uri idle (unsubscribe_node uri topic w.mediator) w)
            (unsubscribe uri topic r)
    unsubscribe_node-Agrees topic busy =
        let r' = unsubscribe uri topic r in
        record {
          publishes_eq =
              settled_publishes v uri (unsubscribing topic) idle busy r' (λ t b. refl) (λ t. refl)
                (λ n t h. refl);
          subscribes_eq =
              settled_subscribes v uri (unsubscribing topic) idle busy r' (λ t b. refl)
                (λ t. ground (arith, eq_refl uri)) (λ n t h. ground arith);
          subscribed_eq = λ n t.
              subscribed-change uri n t _ w.mediator
              ∙ ground (
                arith,
                eq_iff uri n,
                v.subscribed_eq n t,
                contains-erase topic t (node w.mediator uri).subscribed_topics,
              );
          address_of = λ n t a e. address_kept uri n t _ w.mediator refl ∙ v.address_of n t a e;
          connection_eq = λ n. connection_kept uri n _ w.mediator refl ∙ v.connection_eq n;
        }

    abbrev emptied : ℕ → Mediator
    emptied c =
        let m = change_node uri (λ d. d) w.mediator in
        record m { closed = c ∷ m.closed; node_table = erase uri m.node_table }

    -- The entry is gone, and the topic table has nothing of the node any more.
    emptied-Agrees :
        (c : ℕ) → w.pending uri ≡ leaving → Agrees (then_in uri idle (emptied c) w) (leave uri r)
    unfolding lookup contains
    emptied-Agrees c busy =
        let m = change_node uri (λ d. d) w.mediator in
        let nodes : (n : String)
            → at new_node n (erase uri m.node_table)
              ≡ (if uri == n then new_node else node w.mediator n) =
          λ n. at-erase new_node uri n m.node_table ∙ ground (arith, node-touch uri n w.mediator) in
        record {
          publishes_eq =
              settled_publishes v uri leaving idle busy (leave uri r) (λ t b. refl)
                (λ t. ground (arith, eq_refl uri)) (λ n t h. ground arith);
          subscribes_eq =
              settled_subscribes v uri leaving idle busy (leave uri r) (λ t b. refl)
                (λ t. ground (arith, eq_refl uri)) (λ n t h. ground arith);
          subscribed_eq = λ n t.
              ap (λ (d : NodeData). contains t d.subscribed_topics) (nodes n)
              ∙ ground (arith, v.subscribed_eq n t);
          address_of = λ n t b e.
              ap (λ (d : NodeData). lookup t d.publisher_addresses_by_topic) (nodes n)
              ∙ ground (arith, v.address_of n t b, e);
          connection_eq = λ n.
              ap (λ (d : NodeData). d.connection) (nodes n) ∙ ground (arith, v.connection_eq n);
        }

    connection-touched : connection (change_node uri (λ d. d) w.mediator) uri ≡ r.connection uri
    connection-touched =
        ap (λ (d : NodeData). d.connection) (node-touch uri uri w.mediator) ∙ v.connection_eq uri

    leave_nodes_lem :
        (c : ℕ) → r.connection uri ≡ some c → leave_nodes uri w.mediator ≡ some (emptied c)
    unfolding leave_nodes
    leave_nodes_lem c e = rw (connection-touched ∙ e) refl

    leave_nodes_null : r.connection uri ≡ none → leave_nodes uri w.mediator ≡ none
    unfolding leave_nodes
    leave_nodes_null e = rw (connection-touched ∙ e) refl

    -- The call returns if the connection is there.
    pub leave_nodes-total :
        (c : ℕ) → r.connection uri ≡ some c → (m : Mediator) × (leave_nodes uri w.mediator ≡ some m)
    leave_nodes-total c e = (emptied c, leave_nodes_lem c e)

    pub leave_nodes-Agrees :
        (m : Mediator)
        → w.pending uri ≡ leaving
        → leave_nodes uri w.mediator ≡ some m
        → Agrees (then_in uri idle m w) (leave uri r)
    leave_nodes-Agrees m busy done = elim (Option-cases (r.connection uri)) [
      | inl null ↦ absurd (cc (done, leave_nodes_null null))
      | inr (c, e) ↦
          subst (λ m. Agrees (then_in uri idle m w) (leave uri r))
            (some-injective (emptied c) m (sym (leave_nodes_lem c e) ∙ done))
            (emptied-Agrees c busy)
    ]
