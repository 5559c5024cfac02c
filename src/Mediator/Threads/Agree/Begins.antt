-- ===== src/Mediator/Threads/Agree/Begins.antt =====
-- The parts of the handlers of src/mediator/mediator.cpp under the lock of the topic table, and the
-- accepting loop, while other handlers are under way.
use mros_w24_solution.Common.{
  String, ℕ, Bool, ◌≡◌, refl, sym, ap, ◌∙◌, ◌==◌, eq_iff, is_some, arith, if◌then◌else◌,
}
use mros_w24_solution.Containers.NameSet.{contains-insert, contains-erase}
use mros_w24_solution.Containers.Table.{at}
use mros_w24_solution.Json.{JsonLib}
use mros_w24_solution.Mediator.{
  AddressPort, new_topic, register, add_node, publish_topic, subscribe_topic, unpublish_topic,
  unsubscribe_topic,
}
use mros_w24_solution.Mediator.Views.{
  publishes, subscribes, publishes-change, subscribes-change, publishes_kept, subscribes_kept,
  address_kept, subscribed_kept, connection_kept, connection-change,
}
use mros_w24_solution.Mediator.Registry.{Registry, connect}
use mros_w24_solution.Mediator.Threads.{
  Pending, idle, publishing, subscribing, unpublishing, unsubscribing, World, then_in,
}
use mros_w24_solution.Mediator.Threads.Agree.{
  Agrees, publishes_in, subscribes_in, publishes_in-if, subscribes_in-if,
}

module _ ⦃json : JsonLib⦄ where
  module _ {w : World} {r : Registry} (v : Agrees w r) (uri : String) where
    pub register-Agrees :
        (c : ℕ) → Agrees (record w { mediator = register uri c w.mediator }) (connect uri c r)
    unfolding register
    register-Agrees c = record {
      publishes_eq = v.publishes_eq;
      subscribes_eq = v.subscribes_eq;
      subscribed_eq = λ n t. subscribed_kept uri n t _ w.mediator refl ∙ v.subscribed_eq n t;
      address_of = λ n t a e. address_kept uri n t _ w.mediator refl ∙ v.address_of n t a e;
      connection_eq = λ n. connection-change uri n _ w.mediator ∙ ground (arith, v.connection_eq n);
    }

    pub add_node-Agrees :
        (name : String) → Agrees (record w { mediator = add_node uri name w.mediator }) r
    unfolding add_node
    add_node-Agrees name = record {
      publishes_eq = v.publishes_eq;
      subscribes_eq = v.subscribes_eq;
      subscribed_eq = λ n t. subscribed_kept uri n t _ w.mediator refl ∙ v.subscribed_eq n t;
      address_of = λ n t a e. address_kept uri n t _ w.mediator refl ∙ v.address_of n t a e;
      connection_eq = λ n. connection_kept uri n _ w.mediator refl ∙ v.connection_eq n;
    }

    module _ (free : w.pending uri ≡ idle) where
      pub before_publishes : (t : String) → publishes w.mediator uri t ≡ is_some (r.publisher uri t)
      before_publishes t =
          v.publishes_eq uri t ∙ ap (λ p. publishes_in p t (is_some (r.publisher uri t))) free

      pub before_subscribes : (t : String) → subscribes w.mediator uri t ≡ r.subscriber uri t
      before_subscribes t =
          v.subscribes_eq uri t ∙ ap (λ p. subscribes_in p t (r.subscriber uri t)) free

      -- A handler that does not change the publishers, or the subscribers, in the topic table.
      publishes_other :
          (q : Pending)
          → ((t : String) (b : Bool) → publishes_in q t b ≡ b)
          → (n t : String)
          → publishes w.mediator n t
            ≡ publishes_in (if uri == n then q else w.pending n) t (is_some (r.publisher n t))
      publishes_other q h n t =
          ground (
            arith,
            eq_iff uri n,
            v.publishes_eq n t,
            before_publishes t,
            h t (is_some (r.publisher uri t)),
          )
          ∙ sym (publishes_in-if (uri == n) q (w.pending n) t _)

      subscribes_other :
          (q : Pending)
          → ((t : String) (b : Bool) → subscribes_in q t b ≡ b)
          → (n t : String)
          → subscribes w.mediator n t
            ≡ subscribes_in (if uri == n then q else w.pending n) t (r.subscriber n t)
      subscribes_other q h n t =
          ground (
            arith,
            eq_iff uri n,
            v.subscribes_eq n t,
            before_subscribes t,
            h t (r.subscriber uri t),
          )
          ∙ sym (subscribes_in-if (uri == n) q (w.pending n) t _)

      pub publish_topic-Agrees :
          (topic : String) (a : AddressPort)
          → let (nodes, m) = publish_topic uri topic w.mediator in
            Agrees (then_in uri (publishing topic a nodes) m w) r
      unfolding publish_topic
      publish_topic-Agrees topic a = record {
        publishes_eq = λ n t.
            publishes-change topic n t _ w.mediator
            ∙ ground (
              arith,
              eq_iff topic t,
              eq_iff uri n,
              contains-insert uri n (at new_topic topic w.mediator.topic_table).publishing_nodes,
              v.publishes_eq n t,
              before_publishes t,
            )
            ∙ sym (publishes_in-if (uri == n) _ _ t _);
        subscribes_eq = λ n t.
            subscribes_kept topic n t _ w.mediator refl ∙ subscribes_other _ (λ t b. refl) n t;
        subscribed_eq = v.subscribed_eq;
        address_of = v.address_of;
        connection_eq = v.connection_eq;
      }

      pub subscribe_topic-Agrees :
          (c : ℕ) (topic : String)
          → let (nodes, m) = subscribe_topic uri topic w.mediator in
            Agrees (then_in uri (subscribing c topic nodes) m w) r
      unfolding subscribe_topic
      subscribe_topic-Agrees c topic = record {
        publishes_eq =
            λ n t. publishes_kept topic n t _ w.mediator refl ∙ publishes_other _ (λ t b. refl) n t;
        subscribes_eq = λ n t.
            subscribes-change topic n t _ w.mediator
            ∙ ground (
              arith,
              eq_iff topic t,
              eq_iff uri n,
              contains-insert uri n (at new_topic topic w.mediator.topic_table).subscribing_nodes,
              v.subscribes_eq n t,
              before_subscribes t,
            )
            ∙ sym (subscribes_in-if (uri == n) _ _ t _);
        subscribed_eq = v.subscribed_eq;
        address_of = v.address_of;
        connection_eq = v.connection_eq;
      }

      pub unpublish_topic-Agrees :
          (topic : String)
          → Agrees (then_in uri (unpublishing topic) (unpublish_topic uri topic w.mediator) w) r
      unpublish_topic-Agrees topic = record {
        publishes_eq = λ n t.
            publishes-change topic n t _ w.mediator
            ∙ ground (
              arith,
              eq_iff topic t,
              eq_iff uri n,
              contains-erase uri n (at new_topic topic w.mediator.topic_table).publishing_nodes,
              v.publishes_eq n t,
              before_publishes t,
            )
            ∙ sym (publishes_in-if (uri == n) _ _ t _);
        subscribes_eq = λ n t.
            subscribes_kept topic n t _ w.mediator refl ∙ subscribes_other _ (λ t b. refl) n t;
        subscribed_eq = v.subscribed_eq;
        address_of = v.address_of;
        connection_eq = v.connection_eq;
      }

      pub unsubscribe_topic-Agrees :
          (topic : String)
          → Agrees (then_in uri (unsubscribing topic) (unsubscribe_topic uri topic w.mediator) w) r
      unsubscribe_topic-Agrees topic = record {
        publishes_eq =
            λ n t. publishes_kept topic n t _ w.mediator refl ∙ publishes_other _ (λ t b. refl) n t;
        subscribes_eq = λ n t.
            subscribes-change topic n t _ w.mediator
            ∙ ground (
              arith,
              eq_iff topic t,
              eq_iff uri n,
              contains-erase uri n (at new_topic topic w.mediator.topic_table).subscribing_nodes,
              v.subscribes_eq n t,
              before_subscribes t,
            )
            ∙ sym (subscribes_in-if (uri == n) _ _ t _);
        subscribed_eq = v.subscribed_eq;
        address_of = v.address_of;
        connection_eq = v.connection_eq;
      }
