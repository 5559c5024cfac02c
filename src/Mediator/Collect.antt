-- ===== src/Mediator/Collect.antt =====
-- The loop of `addSubscriber` in src/mediator/mediator.cpp, which collects the publishers' addresses.
use mros_w24_solution.Common.{
  length, String, ℤ, true, List, [], ◌∷◌, some, ◌≡◌, refl, sym, ap, ◌∙◌, inl, inr, ◌==◌, eq_iff,
  eq_refl, is_some, arith, Bool-cases, Option-cases,
}
use mros_w24_solution.Containers.NameSet.{contains}
use mros_w24_solution.Containers.Table.{lookup, at, modify, lookup-modify, or_default}
use mros_w24_solution.Json.{JsonLib}
use mros_w24_solution.Mediator.{
  Mediator, NodeData, AddressPort, no_address, change_node, addresses_of,
}
use mros_w24_solution.Mediator.Views.{node, address, connection, subscribed, node-change}
use mros_w24_solution.Mediator.Announce.{Listed}

module _ ⦃json : JsonLib⦄ where
  -- The addresses that `addSubscriber` collects from `uris` are those of the nodes on the list, and
  -- the tables read as before.
  pub record Collected (uris : List String) (topic : String) (m : Mediator) (hosts : List String)
      (ports : List ℤ) (m' : Mediator) : Type 0 where
    pub topic_table : m'.topic_table ≡ m.topic_table
    pub closed : m'.closed ≡ m.closed
    pub sent : m'.sent ≡ m.sent
    pub paired : length hosts ≡ length ports
    pub addresses : (n t : String) → address m' n t ≡ address m n t
    pub connections : (n : String) → connection m' n ≡ connection m n
    pub subscriptions : (n t : String) → subscribed m' n t ≡ subscribed m n t
    pub listed :
        (n : String) (a : AddressPort)
        → contains n uris ≡ true
        → address m n topic ≡ some a
        → Listed a hosts ports
    pub only :
        (a : AddressPort)
        → Listed a hosts ports
        → (n : String) × (contains n uris ≡ true) × (address m n topic ≡ some a)

  -- `node_table_[uri].publisher_addresses_by_topic[topic]`
  abbrev pub looked_up : String → String → Mediator → Mediator
  looked_up uri topic m =
      change_node uri
        (λ d. record d {
          publisher_addresses_by_topic =
              modify no_address topic (λ a. a) d.publisher_addresses_by_topic;
        })
        m

  address-looked_up :
      (uri topic n t : String) (m : Mediator) (a : AddressPort)
      → address m uri topic ≡ some a
      → address (looked_up uri topic m) n t ≡ address m n t
  address-looked_up uri topic n t m a e =
      ap (λ (d : NodeData). lookup t d.publisher_addresses_by_topic) (node-change uri n _ m)
      ∙ ground (
        arith,
        eq_iff uri n,
        eq_iff topic t,
        lookup-modify no_address topic t (λ a. a) (node m uri).publisher_addresses_by_topic,
      )

  pub connection-looked_up :
      (uri topic n : String) (m : Mediator) → connection (looked_up uri topic m) n ≡ connection m n
  connection-looked_up uri topic n m =
      ap (λ (d : NodeData). d.connection) (node-change uri n _ m) ∙ ground (arith, eq_iff uri n)

  pub subscribed-looked_up :
      (uri topic n t : String) (m : Mediator)
      → subscribed (looked_up uri topic m) n t ≡ subscribed m n t
  subscribed-looked_up uri topic n t m =
      ap (λ (d : NodeData). contains t d.subscribed_topics) (node-change uri n _ m)
      ∙ ground (arith, eq_iff uri n)

  -- What the second `operator[]` finds.
  found_address :
      (uri topic : String) (m : Mediator) (a : AddressPort)
      → address m uri topic ≡ some a
      → at no_address topic (node (looked_up uri topic m) uri).publisher_addresses_by_topic ≡ a
  unfolding at
  found_address uri topic m a e =
      ap (or_default no_address) (address-looked_up uri topic uri topic m a e ∙ e)

  Collected-cons :
      (uri : String) (uris : List String) (topic : String) (m : Mediator) (a : AddressPort)
      (hosts : List String) (ports : List ℤ) (m' : Mediator)
      → address m uri topic ≡ some a
      → Collected uris topic (looked_up uri topic m) hosts ports m'
      → Collected (uri ∷ uris) topic m (a.host ∷ hosts) (a.port ∷ ports) m'
  unfolding contains
  Collected-cons uri uris topic m a hosts ports m' e v = record {
    topic_table = v.topic_table;
    closed = v.closed;
    sent = v.sent;
    paired = omega (arith, v.paired);
    addresses = λ n t. v.addresses n t ∙ address-looked_up uri topic n t m a e;
    connections = λ n. v.connections n ∙ connection-looked_up uri topic n m;
    subscriptions = λ n t. v.subscriptions n t ∙ subscribed-looked_up uri topic n t m;
    listed = λ n b i k. elim (Bool-cases (uri == n)) [
      | inl same ↦ inl (ground (arith, eq_iff uri n))
      | inr other ↦
          inr (v.listed n b (ground arith) (address-looked_up uri topic n topic m a e ∙ k))
    ];
    only = λ b l. elim l [
      | inl (h, p) ↦ (uri, ground (arith, eq_refl uri), ground arith)
      | inr rest ↦
          let (n, i, k) = v.only b rest in
          (n, ground arith, sym (address-looked_up uri topic n topic m a e) ∙ k)
    ];
  }

  -- If every node on the list publishes on the topic, no empty address is made up on the way.
  pub addresses_of-Collected :
      (uris : List String) (topic : String) (m : Mediator)
      → ((n : String) → contains n uris ≡ true → is_some (address m n topic) ≡ true)
      → let r = addresses_of uris topic m in Collected uris topic m r.0 r.1 r.2
  unfolding addresses_of contains
  addresses_of-Collected [] topic m h = record {
    topic_table = refl;
    closed = refl;
    sent = refl;
    paired = refl;
    addresses = λ n t. refl;
    connections = λ n. refl;
    subscriptions = λ n t. refl;
    listed = λ n a i k. cc;
    only = λ a l. absurd l;
  }
  addresses_of-Collected (uri ∷ uris) topic m h = elim (Option-cases (address m uri topic)) [
    | inl missing ↦ absurd (cc (missing, h uri (ground (arith, eq_refl uri))))
    | inr (a, e) ↦ rw (found_address uri topic m a e) (
        Collected-cons uri uris topic m a _ _ _ e (
          addresses_of-Collected uris topic (looked_up uri topic m)
            (λ n i. ap is_some (address-looked_up uri topic n topic m a e) ∙ h n (ground arith))))
  ]
