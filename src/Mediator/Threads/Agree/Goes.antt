-- ===== src/Mediator/Threads/Agree/Goes.antt =====
-- The parts of `addPublisher` and `addSubscriber` of src/mediator/mediator.cpp under the lock of the node
-- table, and the reply, while other handlers are under way.
use mros_w24_solution.Common.{eq_refl, String, ℕ, some, ◌≡◌, refl, ap, ◌∙◌, eq_iff, arith}
use mros_w24_solution.Containers.NameSet.{NameSet, contains, contains-insert}
use mros_w24_solution.Containers.Table.{lookup, assign, lookup-assign}
use mros_w24_solution.Json.{JsonLib, Json}
use mros_w24_solution.Mediator.{
  Mediator, NodeData, AddressPort, publish_node, subscribe_node, change_node,
}
use mros_w24_solution.Mediator.Views.{
  connection, node, address-change, subscribed-change, address_kept, subscribed_kept,
  connection_kept,
}
use mros_w24_solution.Mediator.Serve.{reply}
use mros_w24_solution.Mediator.Registry.{Registry, publish, subscribe}
use mros_w24_solution.Mediator.Announce.{notify-Notified}
use mros_w24_solution.Mediator.Threads.{idle, publishing, subscribing, replying, World, then_in}
use mros_w24_solution.Mediator.Threads.Keeps.{addresses_of-Kept}
use mros_w24_solution.Mediator.Threads.Agree.Settles.{
  Kept-Agrees, settled_publishes, settled_subscribes,
}
use mros_w24_solution.Mediator.Threads.Agree.{Agrees}

module _ ⦃json : JsonLib⦄ where
  -- The tables before the notices of `addPublisher` go out.
  abbrev pub with_address : String → String → AddressPort → Mediator → Mediator
  with_address uri topic a m =
      change_node uri
        (λ d. record d {
          publisher_addresses_by_topic = assign topic a d.publisher_addresses_by_topic;
        })
        m

  module _ {w : World} {r : Registry} (v : Agrees w r) (uri : String) where
    assign_address-Agrees :
        (topic : String) (a : AddressPort) (nodes : NameSet)
        → w.pending uri ≡ publishing topic a nodes
        → Agrees (then_in uri idle (with_address uri topic a w.mediator) w) (publish uri topic a r)
    assign_address-Agrees topic a nodes busy =
        let r' = publish uri topic a r in
        record {
          publishes_eq =
              settled_publishes v uri (publishing topic a nodes) idle busy r' (λ t b. refl)
                (λ t. ground (arith, eq_refl uri)) (λ n t h. ground arith);
          subscribes_eq =
              settled_subscribes v uri (publishing topic a nodes) idle busy r' (λ t b. refl)
                (λ t. refl) (λ n t h. refl);
          subscribed_eq = λ n t. subscribed_kept uri n t _ w.mediator refl ∙ v.subscribed_eq n t;
          address_of = λ n t b e.
              address-change uri n t _ w.mediator
              ∙ ground (
                arith,
                eq_iff uri n,
                v.address_of n t b,
                lookup-assign topic t a (node w.mediator uri).publisher_addresses_by_topic,
                e,
              );
          connection_eq = λ n. connection_kept uri n _ w.mediator refl ∙ v.connection_eq n;
        }

    pub connection-with_address :
        (topic : String) (a : AddressPort) (n : String)
        → connection (with_address uri topic a w.mediator) n ≡ r.connection n
    connection-with_address topic a n = connection_kept uri n _ w.mediator refl ∙ v.connection_eq n

    pub publish_node-Agrees :
        (topic : String) (a : AddressPort) (nodes : NameSet) (m : Mediator)
        → w.pending uri ≡ publishing topic a nodes
        → publish_node uri topic a nodes w.mediator ≡ some m
        → Agrees (then_in uri idle m w) (publish uri topic a r)
    unfolding publish_node
    publish_node-Agrees topic a nodes m busy done =
        let s = notify-Notified nodes topic a _ m done in
        Kept-Agrees
          (record {
            topic_table = s.topic_table;
            connections = λ n. ap (λ (d : NodeData). d.connection) (s.nodes n);
            subscriptions =
                λ n t. ap (λ (d : NodeData). contains t d.subscribed_topics) (s.nodes n);
            addresses = λ n t b e.
                ap (λ (d : NodeData). lookup t d.publisher_addresses_by_topic) (s.nodes n) ∙ e;
          })
          (assign_address-Agrees topic a nodes busy)

    pub subscribe_node-Agrees :
        (c : ℕ) (topic : String) (nodes : NameSet)
        → w.pending uri ≡ subscribing c topic nodes
        → let (j, m) = subscribe_node uri topic nodes w.mediator in
          Agrees (then_in uri (replying c j) m w) (subscribe uri topic r)
    unfolding subscribe_node
    subscribe_node-Agrees c topic nodes busy =
        let r' = subscribe uri topic r in
        Kept-Agrees (addresses_of-Kept nodes topic _) (record {
          publishes_eq =
              settled_publishes v uri (subscribing c topic nodes) (replying c _) busy r'
                (λ t b. refl) (λ t. refl) (λ n t h. refl);
          subscribes_eq =
              settled_subscribes v uri (subscribing c topic nodes) (replying c _) busy r'
                (λ t b. refl) (λ t. ground (arith, eq_refl uri)) (λ n t h. ground arith);
          subscribed_eq = λ n t.
              subscribed-change uri n t _ w.mediator
              ∙ ground (
                arith,
                eq_iff uri n,
                v.subscribed_eq n t,
                contains-insert topic t (node w.mediator uri).subscribed_topics,
              );
          address_of = λ n t a e. address_kept uri n t _ w.mediator refl ∙ v.address_of n t a e;
          connection_eq = λ n. connection_kept uri n _ w.mediator refl ∙ v.connection_eq n;
        })

    pub reply-Agrees :
        (c : ℕ) (j : Json)
        → w.pending uri ≡ replying c j
        → Agrees (then_in uri idle (reply c (j, w.mediator)) w) r
    reply-Agrees c j busy = record {
      publishes_eq =
          settled_publishes v uri (replying c j) idle busy r (λ t b. refl) (λ t. refl)
            (λ n t h. refl);
      subscribes_eq =
          settled_subscribes v uri (replying c j) idle busy r (λ t b. refl) (λ t. refl)
            (λ n t h. refl);
      subscribed_eq = v.subscribed_eq;
      address_of = v.address_of;
      connection_eq = v.connection_eq;
    }
