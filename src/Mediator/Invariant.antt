-- ===== src/Mediator/Invariant.antt =====
-- What the tables of src/mediator/mediator.cpp and the requests that went out keep, event by event.
use mathlib.Core.Path.{subst, subst₂}
use mros_w24_solution.Common.{
  String, ℕ, true, ◌&&◌, none, some, ◌≡◌, refl, sym, ap, ◌∙◌, arith, is_some, inl, inr, ◌==◌,
  eq_iff, Bool-cases,
}
use mros_w24_solution.Json.{JsonLib}
use mros_w24_solution.Uri.{to_uri}
use mros_w24_solution.Mediator.{
  Mediator, AddressPort, init, register, add_node, add_publisher, add_subscriber, remove_node,
  remove_publisher, remove_subscriber,
}
use mros_w24_solution.Mediator.Serve.{
  Call, publishes, subscribes, unpublishes, unsubscribes, effect, reply,
}
use mros_w24_solution.Mediator.Registry.{
  Registry, Represents, no_nodes, connect, publish, subscribe, unpublish, unsubscribe, leave,
}
use mros_w24_solution.Mediator.Announce.{Told, ToldIn}
use mros_w24_solution.Mediator.Refines.{
  init-Represents, register-Represents, add_node-Represents, remove_publisher-Represents,
  remove_subscriber-Represents,
}
use mros_w24_solution.Mediator.Publishing.{add_publisher-Represents, add_publisher-total}
use mros_w24_solution.Mediator.Subscribing.{add_subscriber-Represents}
use mros_w24_solution.Mediator.Removal.{remove_node-Represents}
use mros_w24_solution.Mediator.Telling.{
  add_publisher-tells, add_publisher_keeps, add_subscriber_keeps, add_subscriber-tells,
}
use mros_w24_solution.Mediator.Events.{
  Event, connects, calls, closes, Allowed, record_call, record_event, serve, serve-connects,
  serve-calls, serve-closes,
}

module _ ⦃json : JsonLib⦄ where
  -- What every history keeps. `m` is the mediator and `r` what its tables stand for.
  pub record Inv (m : Mediator) (r : Registry) : Type 0 where
    pub represents : Represents m r
    pub connected : (n t : String) → r.subscriber n t ≡ true → is_some (r.connection n) ≡ true
    pub discovered :
        (p s t : String) (a : AddressPort) (c : ℕ)
        → r.publisher p t ≡ some a
        → r.subscriber s t ≡ true
        → r.connection s ≡ some c
        → Told m c t a

  pub init-Inv : Inv init no_nodes
  init-Inv = record {
    represents = init-Represents;
    connected = λ n t h. cc;
    discovered = λ p s t a c h k l. cc;
  }

  module _ {m : Mediator} {r : Registry} (v : Inv m r) where
    connect-Inv :
        (uri name : String) (c : ℕ)
        → r.connection uri ≡ none
        → Inv (add_node uri name (register uri c m)) (connect uri c r)
    unfolding register add_node
    connect-Inv uri name c fresh = record {
      represents = add_node-Represents (register-Represents v.represents uri c) uri name;
      connected = λ n t h. ground (arith, v.connected n t);
      discovered = λ p s t a d h k l.
          v.discovered p s t a d h k (ground (arith, eq_iff uri s, v.connected s t));
    }

    the_new_publisher :
        (uri topic p t : String) (a b : AddressPort)
        → (uri == p && topic == t) ≡ true
        → (publish uri topic a r).publisher p t ≡ some b
        → (topic ≡ t) × (a ≡ b)
    the_new_publisher uri topic p t a b new h = ground (arith, eq_iff topic t)

    the_new_subscriber :
        (uri topic s t : String) (c d : ℕ)
        → (uri == s && topic == t) ≡ true
        → r.connection uri ≡ some c
        → r.connection s ≡ some d
        → (topic ≡ t) × (c ≡ d)
    the_new_subscriber uri topic s t c d new e l = ground (arith, eq_iff topic t, eq_iff uri s)

    publish-Inv :
        (uri topic : String) (a : AddressPort)
        → (m' : Mediator) × (add_publisher uri topic a m ≡ some m') × Inv m' (publish uri topic a r)
    publish-Inv uri topic a =
        let (m', e) = add_publisher-total v.represents uri topic a (λ n h. v.connected n topic h) in
        (
          m',
          e,
          record {
            represents = add_publisher-Represents v.represents uri topic a m' e;
            connected = v.connected;
            discovered = λ p s t b c h k l. elim (Bool-cases (uri == p && topic == t)) [
              | inl new ↦
                  let (same_topic, same_address) = the_new_publisher uri topic p t a b new h in
                  subst₂ (λ t b. Told m' c t b) same_topic same_address
                    (add_publisher-tells v.represents uri topic a m' e s c
                      (ap (r.subscriber s) same_topic ∙ k) l)
              | inr old ↦
                  add_publisher_keeps v.represents uri topic a m' e c t b
                    (v.discovered p s t b c (rw old at h) k l)
            ];
          },
        )

    subscribe-Inv :
        (uri topic : String) (c : ℕ)
        → r.connection uri ≡ some c
        → Inv (reply c (add_subscriber uri topic m)) (subscribe uri topic r)
    subscribe-Inv uri topic c e = record {
      represents =
          let w = add_subscriber-Represents v.represents uri topic in
          record {
            publishes_eq = w.publishes_eq;
            address_eq = w.address_eq;
            subscribes_eq = w.subscribes_eq;
            subscribed_eq = w.subscribed_eq;
            connection_eq = w.connection_eq;
          };
      connected = λ n t h. ground (arith, eq_iff uri n, v.connected n t);
      discovered = λ p s t b d h k l. elim (Bool-cases (uri == s && topic == t)) [
        | inl new ↦
            let (same_topic, same_connection) = the_new_subscriber uri topic s t c d new e l in
            subst₂ (λ d t. Told (reply c (add_subscriber uri topic m)) d t b) same_connection
              same_topic
              (add_subscriber-tells v.represents uri topic c p b
                (ap (r.publisher p) same_topic ∙ h))
        | inr old ↦ inr (
            add_subscriber_keeps v.represents uri topic d t b
              (v.discovered p s t b d h (rw old at k) l))
      ];
    }

    unpublish-Inv :
        (uri topic : String) → Inv (remove_publisher uri topic m) (unpublish uri topic r)
    unpublish-Inv uri topic = record {
      represents = remove_publisher-Represents v.represents uri topic;
      connected = v.connected;
      discovered =
          λ p s t b c h k l. unfold remove_publisher in v.discovered p s t b c (ground arith) k l;
    }

    unsubscribe-Inv :
        (uri topic : String) → Inv (remove_subscriber uri topic m) (unsubscribe uri topic r)
    unsubscribe-Inv uri topic = record {
      represents = remove_subscriber-Represents v.represents uri topic;
      connected = λ n t h. ground (arith, v.connected n t);
      discovered =
          λ p s t b c h k l. unfold remove_subscriber in v.discovered p s t b c h (ground arith) l;
    }

    leave-Inv :
        (uri : String) (c : ℕ)
        → r.connection uri ≡ some c
        → (m' : Mediator) × (remove_node uri m ≡ some m') × Inv m' (leave uri r)
    leave-Inv uri c e =
        let (m', done, w, _, sent) = remove_node-Represents v.represents uri c e in
        (
          m',
          done,
          record {
            represents = w;
            connected = λ n t h. ground (arith, v.connected n t);
            discovered = λ p s t b d h k l.
                subst (λ rs. ToldIn rs d t b) (sym sent)
                  (v.discovered p s t b d (ground arith) (ground arith) (ground arith));
          },
        )

    call-Inv :
        (uri : String) (c : ℕ) (call : Call)
        → r.connection uri ≡ some c
        → (m' : Mediator) × (effect uri c call m ≡ some m') × Inv m' (record_call uri call r)
    call-Inv uri c (publishes topic a) e = publish-Inv uri topic a
    call-Inv uri c (subscribes topic) e = (_, refl, subscribe-Inv uri topic c e)
    call-Inv uri c (unpublishes topic) e = (_, refl, unpublish-Inv uri topic)
    call-Inv uri c (unsubscribes topic) e = (_, refl, unsubscribe-Inv uri topic)

    -- Every event that may happen is served to its end, with no call through a null pointer and no
    -- message that cannot be read, and keeps the invariant.
    pub serve-Inv :
        (e : Event)
        → Allowed e r
        → (m' : Mediator) × (serve e m ≡ some m') × Inv m' (record_event e r)
    serve-Inv (connects host port c name) fresh =
        (_, serve-connects host port c name m, connect-Inv (to_uri host port) name c fresh)
    serve-Inv (calls uri c call) e =
        let (m', done, w) = call-Inv uri c call e in (m', serve-calls uri c call m ∙ done, w)
    serve-Inv (closes uri c) e =
        let (m', done, w) = leave-Inv uri c e in (m', serve-closes uri c m ∙ done, w)
