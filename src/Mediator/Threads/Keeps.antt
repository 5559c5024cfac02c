-- ===== src/Mediator/Threads/Keeps.antt =====
-- What the parts of `addPublisher` and `addSubscriber` of src/mediator/mediator.cpp under the lock of
-- the node table leave alone, whatever the other threads have done in between.
use mros_w24_solution.Common.{
  String, List, [], ◌∷◌, true, none, some, ◌≡◌, ◌⊎◌, inl, inr, refl, sym, ap, ◌∙◌, eq_iff, eq_refl,
  arith, Option-cases,
}
use mros_w24_solution.Containers.NameSet.{contains}
use mros_w24_solution.Containers.Table.{lookup, lookup-modify}
use mros_w24_solution.Json.{JsonLib}
use mros_w24_solution.Mediator.{Mediator, NodeData, AddressPort, no_address, addresses_of, notify}
use mros_w24_solution.Mediator.Views.{
  node, node-touch, address, connection, subscribed, node-change,
}
use mros_w24_solution.Mediator.Collect.{looked_up, connection-looked_up, subscribed-looked_up}
use mros_w24_solution.Mediator.Announce.{notify-cons, noticed, touched}

module _ ⦃json : JsonLib⦄ where
  -- The topic table, the connections, the subscriptions and the addresses that are there.
  pub record Kept (m m' : Mediator) : Type 0 where
    pub topic_table : m'.topic_table ≡ m.topic_table
    pub connections : (n : String) → connection m' n ≡ connection m n
    pub subscriptions : (n t : String) → subscribed m' n t ≡ subscribed m n t
    pub addresses :
        (n t : String) (a : AddressPort) → address m n t ≡ some a → address m' n t ≡ some a

  address-looked_up :
      (uri topic n t : String) (m : Mediator) (a : AddressPort)
      → address m n t ≡ some a
      → address (looked_up uri topic m) n t ≡ some a
  address-looked_up uri topic n t m a e =
      ap (λ (d : NodeData). lookup t d.publisher_addresses_by_topic) (node-change uri n _ m)
      ∙ ground (
        arith,
        eq_iff uri n,
        eq_iff topic t,
        lookup-modify no_address topic t (λ a. a) (node m uri).publisher_addresses_by_topic,
        e,
      )

  -- The loop of `addSubscriber` may add empty addresses, and changes nothing else.
  pub addresses_of-Kept :
      (uris : List String) (topic : String) (m : Mediator) → Kept m (addresses_of uris topic m).2
  unfolding addresses_of
  addresses_of-Kept [] topic m = record {
    topic_table = refl;
    connections = λ n. refl;
    subscriptions = λ n t. refl;
    addresses = λ n t a e. e;
  }
  addresses_of-Kept (uri ∷ uris) topic m =
      let k = addresses_of-Kept uris topic (looked_up uri topic m) in
      record {
        topic_table = k.topic_table;
        connections = λ n. k.connections n ∙ connection-looked_up uri topic n m;
        subscriptions = λ n t. k.subscriptions n t ∙ subscribed-looked_up uri topic n t m;
        addresses = λ n t a e. k.addresses n t a (address-looked_up uri topic n t m a e);
      }

  -- The loop of `addPublisher` ends, or there is a node on its list without a connection.
  pub notify-cases :
      (uris : List String) (topic : String) (a : AddressPort) (m : Mediator)
      → ((m' : Mediator) × (notify uris topic a m ≡ some m'))
        ⊎ ((n : String) × (contains n uris ≡ true) × (connection m n ≡ none))
  unfolding contains
  notify-cases [] topic a m = inl (m, unfold notify in refl)
  notify-cases (uri ∷ uris) topic a m = elim (Option-cases (connection m uri)) [
    | inl null ↦ inr (uri, ground (arith, eq_refl uri), null)
    | inr (c, k) ↦ elim (notify-cases uris topic a (noticed topic a c (touched uri m))) [
      | inl (m', done) ↦ inl (m', notify-cons uri uris topic a m c k ∙ done)
      | inr (n, i, null) ↦ inr (
        n,
        ground (arith, i),
        sym (ap (λ (d : NodeData). d.connection) (node-touch uri n m)) ∙ null,
      )
    ]
  ]
