-- ===== src/Mediator/Telling.antt =====
-- Whom `addPublisher` and `addSubscriber` of src/mediator/mediator.cpp tell of which address.
use mathlib.Core.Path.{subst, subst₂}
use mathlib.Core.Option.{some-injective}
use mros_w24_solution.Containers.Table.{lookup}
use mros_w24_solution.Common.{
  length, String, ℕ, ℤ, true, List, some, ◌>>=◌, ◌≡◌, refl, sym, ap, ◌∙◌, is_some, ◌↔◌, inl,
}
use mros_w24_solution.Json.{JsonLib, Json}
use mros_w24_solution.Mediator.{
  Mediator, AddressPort, publishers_message, add_publisher, add_subscriber, publish_topic,
}
use mros_w24_solution.Mediator.Registry.{Registry, Represents}
use mros_w24_solution.Mediator.Announce.{Listed, Told, ToldIn}
use mros_w24_solution.Mediator.Serve.{reply}
use mros_w24_solution.Mediator.Publishing.{
  with_publisher-Represents, add_publisher-Notified, subscribers_of_topic,
}
use mros_w24_solution.Mediator.Subscribing.{
  with_subscriber-Represents, publishers_of_topic, add_subscriber-Collected,
}

module _ ⦃json : JsonLib⦄ where
  open json use {
    find, get_string, get_strings, get_ints, find-object, get_string-string, get_strings-strings,
    get_ints-ints,
  }

  -- The message, as `jsonConnectSubscriberToPublishersCallback` of a node reads it, lists the
  -- address under the topic.
  abbrev pub Lists : Json → String → AddressPort → Type 0
  Lists j topic a =
      (hosts : List String) × (ports : List ℤ) × ((find "topic_name" j >>= get_string) ≡ some topic)
      × ((find "publisher_addresses" j >>= get_strings) ≡ some hosts)
      × ((find "publisher_ports" j >>= get_ints) ≡ some ports)
      × Listed a hosts ports

  pub topic_read :
      (topic : String) (hosts : List String) (ports : List ℤ)
      → (find "topic_name" (publishers_message topic hosts ports) >>= get_string) ≡ some topic
  unfolding lookup
  topic_read topic hosts ports = simp (find-object, get_string-string)

  pub hosts_read :
      (topic : String) (hosts : List String) (ports : List ℤ)
      → (find "publisher_addresses" (publishers_message topic hosts ports) >>= get_strings)
        ≡ some hosts
  unfolding lookup
  hosts_read topic hosts ports = simp (find-object, get_strings-strings)

  pub ports_read :
      (topic : String) (hosts : List String) (ports : List ℤ)
      → (find "publisher_ports" (publishers_message topic hosts ports) >>= get_ints) ≡ some ports
  unfolding lookup
  ports_read topic hosts ports = simp (find-object, get_ints-ints)

  pub Lists-Listed :
      (topic : String) (hosts : List String) (ports : List ℤ) (a : AddressPort)
      → Listed a hosts ports
      → Lists (publishers_message topic hosts ports) topic a
  Lists-Listed topic hosts ports a l = (
    hosts,
    ports,
    topic_read topic hosts ports,
    hosts_read topic hosts ports,
    ports_read topic hosts ports,
    l,
  )

  Lists-publishers_message :
      (topic other : String) (hosts : List String) (ports : List ℤ) (a : AddressPort)
      → Lists (publishers_message topic hosts ports) other a
      → (topic ≡ other) × Listed a hosts ports
  Lists-publishers_message topic other hosts ports a (hosts', ports', t, h, p, l) = (
    some-injective _ _ (sym (topic_read topic hosts ports) ∙ t),
    subst₂ (Listed a) (some-injective _ _ (sym h ∙ hosts_read topic hosts ports))
        (some-injective _ _ (sym p ∙ ports_read topic hosts ports)) l,
  )

  module _ {m : Mediator} {r : Registry} (v : Represents m r) (uri topic : String) where
    -- A new publisher's address goes to every connected subscriber of the topic.
    pub add_publisher-tells :
        (a : AddressPort) (m' : Mediator)
        → add_publisher uri topic a m ≡ some m'
        → (n : String) (c : ℕ) → r.subscriber n topic ≡ true
        → r.connection n ≡ some c
        → Told m' c topic a
    add_publisher-tells a m' e n c i k =
        (add_publisher-Notified v uri topic a m' e).told n c
          (subscribers_of_topic v uri topic n ∙ i)
          ((with_publisher-Represents v uri topic a).connection_eq n ∙ k)

    pub add_publisher_keeps :
        (a : AddressPort) (m' : Mediator)
        → add_publisher uri topic a m ≡ some m'
        → (c : ℕ) (t : String) (b : AddressPort) → Told m c t b
        → Told m' c t b
    unfolding publish_topic
    add_publisher_keeps a m' e c t b h = (add_publisher-Notified v uri topic a m' e).kept c t b h

    pub sent-add_subscriber : (add_subscriber uri topic m).1.sent ≡ m.sent
    unfolding add_subscriber
    sent-add_subscriber = (add_subscriber-Collected v uri topic).sent

    pub add_subscriber_keeps :
        (c : ℕ) (t : String) (b : AddressPort)
        → Told m c t b
        → Told (add_subscriber uri topic m).1 c t b
    add_subscriber_keeps c t b h = subst (λ l. ToldIn l c t b) (sym sent-add_subscriber) h

    -- The answer to a new subscriber is the message of a list of addresses, which are those of the
    -- publishers on the topic.
    pub answer :
        (hosts : List String) × (ports : List ℤ) × ((add_subscriber uri topic m).0
          ≡ publishers_message topic hosts ports)
        × (length hosts ≡ length ports)
        × ((a : AddressPort)
            → Listed a hosts ports ↔ ((n : String) × (r.publisher n topic ≡ some a)))
    unfolding add_subscriber
    answer =
        let s = add_subscriber-Collected v uri topic in
        let w = with_subscriber-Represents v uri topic in
        (
          _,
          _,
          refl,
          s.paired,
          λ a. (
            λ l. let (n, i, k) = s.only a l in (n, sym (w.address_eq n topic) ∙ k),
            λ (n, e).
                s.listed n a (publishers_of_topic v uri topic n ∙ ap is_some e)
                  (w.address_eq n topic ∙ e),
          ),
        )

    -- Where the tables stand for a registry, the reply to a new subscriber, as a node reads it, lists an address exactly if some node
    -- publishes on the topic at that address.
    pub add_subscriber-Lists :
        (a : AddressPort)
        → Lists (add_subscriber uri topic m).0 topic a
          ↔ ((n : String) × (r.publisher n topic ≡ some a))
    add_subscriber-Lists a =
        let (hosts, ports, same, _, listed) = answer in
        rw same (
          λ l. (listed a).0 (Lists-publishers_message topic topic hosts ports a l).1,
          λ p. Lists-Listed topic hosts ports a ((listed a).1 p),
        )

    -- So the reply tells the new subscriber of every publisher.
    pub add_subscriber-tells :
        (c : ℕ) (n : String) (a : AddressPort)
        → r.publisher n topic ≡ some a
        → Told (reply c (add_subscriber uri topic m)) c topic a
    add_subscriber-tells c n a e =
        let (hosts, ports, same, _, listed) = answer in
        inl (refl, refl, hosts, ports, same, (listed a).1 (n, e))
