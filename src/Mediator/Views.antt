-- ===== src/Mediator/Views.antt =====
-- What the tables of src/mediator/mediator.cpp say of a node and a topic, where an entry that is
-- missing reads as an empty one, and how each change of a table shows in it.
use mros_w24_solution.Common.{
  String, ℕ, Bool, not, ◌&&◌, List, [], ◌∷◌, Option, ◌≡◌, refl, ap, ◌∙◌, ◌==◌, eq_iff,
  if◌then◌else◌, is_some, arith,
}
use mros_w24_solution.Containers.NameSet
use mros_w24_solution.Containers.NameSet.{NameSet, contains, contains-insert, contains-erase}
use mros_w24_solution.Containers.Table.{lookup, at, at-modify}
use mros_w24_solution.Json.{JsonLib}
use mros_w24_solution.Mediator.{
  Mediator, TopicData, NodeData, AddressPort, new_topic, new_node, change_topic, change_node,
  forget_publisher, forget_subscriber,
}

module _ ⦃json : JsonLib⦄ where
  abbrev pub publishes : Mediator → String → String → Bool
  publishes m n t = contains n (at new_topic t m.topic_table).publishing_nodes

  abbrev pub subscribes : Mediator → String → String → Bool
  subscribes m n t = contains n (at new_topic t m.topic_table).subscribing_nodes

  abbrev pub node : Mediator → String → NodeData
  node m n = at new_node n m.node_table

  abbrev pub address : Mediator → String → String → Option AddressPort
  address m n t = lookup t (node m n).publisher_addresses_by_topic

  abbrev pub subscribed : Mediator → String → String → Bool
  subscribed m n t = contains t (node m n).subscribed_topics

  abbrev pub connection : Mediator → String → Option ℕ
  connection m n = (node m n).connection

  pub publishes-forget_publisher :
      (uri : String) (l : List (String × AddressPort)) (m : Mediator) (n t : String)
      → publishes (forget_publisher uri l m) n t
        ≡ (not (uri == n && is_some (lookup t l)) && publishes m n t)
  unfolding forget_publisher lookup
  publishes-forget_publisher uri [] m n t = ground arith
  publishes-forget_publisher uri ((topic, a) ∷ l) m n t =
      let f : TopicData → TopicData =
        λ d. record d { publishing_nodes = NameSet.erase uri d.publishing_nodes } in
      publishes-forget_publisher uri l (change_topic topic f m) n t
      ∙ rw (at-modify new_topic topic t f m.topic_table) (
          ground (
            arith,
            eq_iff topic t,
            contains-erase uri n (at new_topic topic m.topic_table).publishing_nodes,
          ))

  pub publishes-forget_subscriber :
      (uri : String) (l : NameSet) (m : Mediator) (n t : String)
      → publishes (forget_subscriber uri l m) n t ≡ publishes m n t
  unfolding forget_subscriber
  publishes-forget_subscriber uri [] m n t = refl
  publishes-forget_subscriber uri (topic ∷ l) m n t =
      let f : TopicData → TopicData =
        λ d. record d { subscribing_nodes = NameSet.erase uri d.subscribing_nodes } in
      publishes-forget_subscriber uri l (change_topic topic f m) n t
      ∙ rw (at-modify new_topic topic t f m.topic_table) (ground (arith, eq_iff topic t))

  pub subscribes-forget_publisher :
      (uri : String) (l : List (String × AddressPort)) (m : Mediator) (n t : String)
      → subscribes (forget_publisher uri l m) n t ≡ subscribes m n t
  unfolding forget_publisher
  subscribes-forget_publisher uri [] m n t = refl
  subscribes-forget_publisher uri ((topic, a) ∷ l) m n t =
      let f : TopicData → TopicData =
        λ d. record d { publishing_nodes = NameSet.erase uri d.publishing_nodes } in
      subscribes-forget_publisher uri l (change_topic topic f m) n t
      ∙ rw (at-modify new_topic topic t f m.topic_table) (ground (arith, eq_iff topic t))

  pub subscribes-forget_subscriber :
      (uri : String) (l : NameSet) (m : Mediator) (n t : String)
      → subscribes (forget_subscriber uri l m) n t
        ≡ (not (uri == n && contains t l) && subscribes m n t)
  unfolding forget_subscriber contains
  subscribes-forget_subscriber uri [] m n t = ground arith
  subscribes-forget_subscriber uri (topic ∷ l) m n t =
      let f : TopicData → TopicData =
        λ d. record d { subscribing_nodes = NameSet.erase uri d.subscribing_nodes } in
      subscribes-forget_subscriber uri l (change_topic topic f m) n t
      ∙ rw (at-modify new_topic topic t f m.topic_table) (
          ground (
            arith,
            eq_iff topic t,
            contains-erase uri n (at new_topic topic m.topic_table).subscribing_nodes,
          ))

  -- The fields that the topic table's loops leave alone.
  pub record SameNodes (m m' : Mediator) : Type 0 where
    pub node_table : m'.node_table ≡ m.node_table
    pub node_uris : m'.node_uris ≡ m.node_uris
    pub sent : m'.sent ≡ m.sent
    pub closed : m'.closed ≡ m.closed

  SameNodes-refl : (m : Mediator) → SameNodes m m
  SameNodes-refl m = record { node_table = refl; node_uris = refl; sent = refl; closed = refl }

  pub SameNodes-forget_publisher :
      (uri : String) (l : List (String × AddressPort)) (m : Mediator)
      → SameNodes m (forget_publisher uri l m)
  unfolding forget_publisher
  SameNodes-forget_publisher uri [] m = SameNodes-refl m
  SameNodes-forget_publisher uri ((topic, a) ∷ l) m =
      let f : TopicData → TopicData =
        λ d. record d { publishing_nodes = NameSet.erase uri d.publishing_nodes } in
      let s = SameNodes-forget_publisher uri l (change_topic topic f m) in
      record {
        node_table = s.node_table;
        node_uris = s.node_uris;
        sent = s.sent;
        closed = s.closed;
      }

  pub SameNodes-forget_subscriber :
      (uri : String) (l : NameSet) (m : Mediator) → SameNodes m (forget_subscriber uri l m)
  unfolding forget_subscriber
  SameNodes-forget_subscriber uri [] m = SameNodes-refl m
  SameNodes-forget_subscriber uri (topic ∷ l) m =
      let f : TopicData → TopicData =
        λ d. record d { subscribing_nodes = NameSet.erase uri d.subscribing_nodes } in
      let s = SameNodes-forget_subscriber uri l (change_topic topic f m) in
      record {
        node_table = s.node_table;
        node_uris = s.node_uris;
        sent = s.sent;
        closed = s.closed;
      }

  -- What a change made through `node_table_[uri]` shows of each node.
  pub node-change :
      (uri n : String) (f : NodeData → NodeData) (m : Mediator)
      → node (change_node uri f m) n ≡ (if uri == n then f (node m uri) else node m n)
  node-change uri n f m = at-modify new_node uri n f m.node_table

  -- Reading through `node_table_[uri]` shows in no node.
  pub node-touch : (uri n : String) (m : Mediator) → node (change_node uri (λ d. d) m) n ≡ node m n
  node-touch uri n m = rw (node-change uri n (λ d. d) m) (ground (arith, eq_iff uri n))

  pub address-change :
      (uri n t : String) (f : NodeData → NodeData) (m : Mediator)
      → address (change_node uri f m) n t ≡ (
          if uri == n
          then lookup t (f (node m uri)).publisher_addresses_by_topic
          else address m n t)
  address-change uri n t f m = rw (node-change uri n f m) (ground arith)

  pub subscribed-change :
      (uri n t : String) (f : NodeData → NodeData) (m : Mediator)
      → subscribed (change_node uri f m) n t
        ≡ (if uri == n then contains t (f (node m uri)).subscribed_topics else subscribed m n t)
  subscribed-change uri n t f m = rw (node-change uri n f m) (ground arith)

  pub connection-change :
      (uri n : String) (f : NodeData → NodeData) (m : Mediator)
      → connection (change_node uri f m) n
        ≡ (if uri == n then (f (node m uri)).connection else connection m n)
  connection-change uri n f m =
      ap (λ (d : NodeData). d.connection) (node-change uri n f m) ∙ ground arith

  pub publishes-change :
      (topic n t : String) (f : TopicData → TopicData) (m : Mediator)
      → publishes (change_topic topic f m) n t ≡ (
          if topic == t
          then contains n (f (at new_topic topic m.topic_table)).publishing_nodes
          else publishes m n t)
  publishes-change topic n t f m = rw (at-modify new_topic topic t f m.topic_table) (ground arith)

  pub subscribes-change :
      (topic n t : String) (f : TopicData → TopicData) (m : Mediator)
      → subscribes (change_topic topic f m) n t ≡ (
          if topic == t
          then contains n (f (at new_topic topic m.topic_table)).subscribing_nodes
          else subscribes m n t)
  subscribes-change topic n t f m = rw (at-modify new_topic topic t f m.topic_table) (ground arith)

  -- A part of the entry that the change leaves alone reads as before everywhere.
  pub address_kept :
      (uri n t : String) (f : NodeData → NodeData) (m : Mediator)
      → (f (node m uri)).publisher_addresses_by_topic ≡ (node m uri).publisher_addresses_by_topic
      → address (change_node uri f m) n t ≡ address m n t
  address_kept uri n t f m h = address-change uri n t f m ∙ ground (arith, eq_iff uri n)

  pub subscribed_kept :
      (uri n t : String) (f : NodeData → NodeData) (m : Mediator)
      → (f (node m uri)).subscribed_topics ≡ (node m uri).subscribed_topics
      → subscribed (change_node uri f m) n t ≡ subscribed m n t
  subscribed_kept uri n t f m h = subscribed-change uri n t f m ∙ ground (arith, eq_iff uri n)

  pub connection_kept :
      (uri n : String) (f : NodeData → NodeData) (m : Mediator)
      → (f (node m uri)).connection ≡ (node m uri).connection
      → connection (change_node uri f m) n ≡ connection m n
  connection_kept uri n f m h = connection-change uri n f m ∙ ground (arith, eq_iff uri n)

  pub publishes_kept :
      (topic n t : String) (f : TopicData → TopicData) (m : Mediator)
      → (f (at new_topic topic m.topic_table)).publishing_nodes
        ≡ (at new_topic topic m.topic_table).publishing_nodes
      → publishes (change_topic topic f m) n t ≡ publishes m n t
  publishes_kept topic n t f m h = publishes-change topic n t f m ∙ ground (arith, eq_iff topic t)

  pub subscribes_kept :
      (topic n t : String) (f : TopicData → TopicData) (m : Mediator)
      → (f (at new_topic topic m.topic_table)).subscribing_nodes
        ≡ (at new_topic topic m.topic_table).subscribing_nodes
      → subscribes (change_topic topic f m) n t ≡ subscribes m n t
  subscribes_kept topic n t f m h = subscribes-change topic n t f m ∙ ground (arith, eq_iff topic t)
