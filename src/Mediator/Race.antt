-- ===== src/Mediator/Race.antt =====
-- `addPublisher` and `addSubscriber` of src/mediator/mediator.cpp in two threads that take turns
-- between the lock of the topic table and the lock of the node table.
use mros_w24_solution.Common.{
  String, true, false, List, [], ◌∷◌, Option, none, ◌≡◌, refl, sym, ap, ◌∙◌, inl, inr, ◌==◌, eq_iff,
  eq_refl, arith, Bool-cases,
}
use mros_w24_solution.Containers.NameSet.{NameSet, contains, contains-insert}
use mros_w24_solution.Containers.Table.{lookup, at, lookup-modify, or_default}
use mros_w24_solution.Json.{JsonLib, Json}
use mros_w24_solution.Mediator.{
  Mediator, NodeData, AddressPort, no_address, new_topic, addresses_of, publish_topic, publish_node,
  subscribe_topic, subscribe_node,
}
use mros_w24_solution.Mediator.Views.{
  node, address, node-change, address_kept, publishes_kept, publishes-change,
}
use mros_w24_solution.Mediator.Registry.{Registry, Represents}
use mros_w24_solution.Mediator.Publishing.{subscribers_of_topic}
use mros_w24_solution.Mediator.Announce.{Listed}
use mros_w24_solution.Mediator.Telling.{Lists, Lists-Listed}
use mros_w24_solution.Mediator.Collect.{looked_up}

module _ ⦃json : JsonLib⦄ where
  -- A publisher is added to the topic table; then a subscriber is added to both tables; then the
  -- publisher is added to the node table. What comes out are the nodes that the last part notifies,
  -- the reply to the subscriber, and the outcome of the last part.
  abbrev pub overlap :
      String → String → String → AddressPort → Mediator → NameSet × Json × Option Mediator
  overlap publisher subscriber topic a m =
      let (subscribers, m1) = publish_topic publisher topic m in
      let (publishers, m2) = subscribe_topic subscriber topic m1 in
      let (reply, m3) = subscribe_node subscriber topic publishers m2 in
      (subscribers, reply, publish_node publisher topic a subscribers m3)

  -- What the loop of `addSubscriber` reads of a node without an address on the topic.
  missing_address :
      (uri n topic : String) (m : Mediator)
      → address m n topic ≡ none
      → (uri == n) ≡ true
      → at no_address topic (node (looked_up uri topic m) uri).publisher_addresses_by_topic
        ≡ no_address
  unfolding at
  missing_address uri n topic m e same =
      ap (λ (d : NodeData). or_default no_address (lookup topic d.publisher_addresses_by_topic))
        (node-change uri uri _ m)
      ∙ ground (
        arith,
        eq_iff uri n,
        eq_refl uri,
        eq_refl topic,
        lookup-modify no_address topic topic (λ a. a) (node m uri).publisher_addresses_by_topic,
      )

  -- A node without an address on the topic is listed with the empty address.
  addresses_of-missing :
      (uris : List String) (topic n : String) (m : Mediator)
      → contains n uris ≡ true
      → address m n topic ≡ none
      → let c = addresses_of uris topic m in Listed no_address c.0 c.1
  unfolding addresses_of contains
  addresses_of-missing [] topic n m i e = absurd (ground arith)
  addresses_of-missing (uri ∷ uris) topic n m i e = elim (Bool-cases (uri == n)) [
    | inl same ↦
        let found = missing_address uri n topic m e same in
        inl (
          sym (ap (λ (a : AddressPort). a.host) found),
          sym (ap (λ (a : AddressPort). a.port) found),
        )
    | inr other ↦ inr (
        addresses_of-missing uris topic n (looked_up uri topic m) (ground arith) (
          ap (λ (d : NodeData). lookup topic d.publisher_addresses_by_topic) (node-change uri n _ m)
          ∙ ground arith))
  ]

  -- If the publisher had no address on the topic and the subscriber did not subscribe to it, then
  -- the reply to the subscriber lists the empty address, and the subscriber is not among the nodes
  -- that are notified of the publisher's address.
  pub overlap-Lists :
      {m : Mediator} {r : Registry}
      → Represents m r
      → (publisher subscriber topic : String) (a : AddressPort) → r.publisher publisher topic ≡ none
      → r.subscriber subscriber topic ≡ false
      → let (subscribers, reply, outcome) = overlap publisher subscriber topic a m in
        Lists reply topic no_address × (contains subscriber subscribers ≡ false)
  unfolding publish_topic subscribe_topic subscribe_node
  overlap-Lists {m} {r} v p s topic a e i = (
    Lists-Listed topic _ _ no_address (
        addresses_of-missing _ topic p _
          (publishes_kept topic p topic _ (publish_topic p topic m).1 refl
            ∙ publishes-change topic p topic _ m
            ∙ ground (
              arith,
              eq_refl topic,
              eq_refl p,
              contains-insert p p (at new_topic topic m.topic_table).publishing_nodes,
            ))
          (address_kept s p topic _ m refl ∙ v.address_eq p topic ∙ e)),
    subscribers_of_topic v p topic s ∙ i,
  )
