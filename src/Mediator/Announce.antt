-- ===== src/Mediator/Announce.antt =====
-- What the loops of `addPublisher` and `addSubscriber` in src/mediator/mediator.cpp tell the nodes.
use mros_w24_solution.Common.{
  String, ℕ, ℤ, ◌+◌, true, List, [], ◌∷◌, none, some, ◌≡◌, refl, sym, ap, ◌∙◌, ◌⊎◌, inl, inr, ◌==◌,
  eq_iff, eq_refl, is_some, arith, length, Bool-cases, Option-cases,
}
use mathlib.Core.Path.{subst}
use mros_w24_solution.Containers.NameSet.{contains}
use mros_w24_solution.Json.{JsonLib}
use mros_w24_solution.Mediator.{
  Mediator, Request, NodeData, AddressPort, change_node, publishers_message, notify,
}
use mros_w24_solution.Mediator.Views.{node, connection, node-touch}

-- The host and the port stand at one index of the two arrays.
abbrev pub Listed : AddressPort → List String → List ℤ → Type 0
Listed a [] ports = ⊥
Listed a (h ∷ hosts) [] = ⊥
Listed a (h ∷ hosts) (p ∷ ports) = ((a.host ≡ h) × (a.port ≡ p)) ⊎ Listed a hosts ports

module _ ⦃json : JsonLib⦄ where
  -- The request names the address as one of a publisher on the topic.
  abbrev pub Announces : Request → ℕ → String → AddressPort → Type 0
  Announces r c topic a =
      (r.connection ≡ c)
      × (r.callback_name ≡ "connectSubscriberToPublishers")
      × (hosts : List String) × (ports : List ℤ) × (r.argument
          ≡ publishers_message topic hosts ports)
      × Listed a hosts ports

  abbrev pub ToldIn : List Request → ℕ → String → AddressPort → Type 0
  ToldIn [] c topic a = ⊥
  ToldIn (r ∷ rs) c topic a = Announces r c topic a ⊎ ToldIn rs c topic a

  -- The mediator has sent over the connection that the address is one of a publisher on the topic.
  abbrev pub Told : Mediator → ℕ → String → AddressPort → Type 0
  Told m = ToldIn m.sent

  -- After the notices to `uris`: the tables read as before, each node on the list has been told,
  -- and nothing told is lost.
  pub record Notified (uris : List String) (topic : String) (a : AddressPort) (m m' : Mediator)
      : Type 0 where
    pub topic_table : m'.topic_table ≡ m.topic_table
    pub closed : m'.closed ≡ m.closed
    pub nodes : (n : String) → node m' n ≡ node m n
    pub told :
        (n : String) (c : ℕ) → contains n uris ≡ true → connection m n ≡ some c → Told m' c topic a
    pub kept : (c : ℕ) (t : String) (b : AddressPort) → Told m c t b → Told m' c t b
    pub count : length m'.sent ≡ length m.sent + length uris

  abbrev pub touched : String → Mediator → Mediator
  touched uri m = change_node uri (λ d. d) m

  abbrev pub noticed : String → AddressPort → ℕ → Mediator → Mediator
  noticed topic a c m = record m {
    sent =
        record {
          connection = c;
          callback_name = "connectSubscriberToPublishers";
          argument = publishers_message topic (a.host ∷ []) (a.port ∷ []);
        }
        ∷ m.sent;
  }

  -- One round of the loop.
  pub notify-cons :
      (uri : String) (uris : List String) (topic : String) (a : AddressPort) (m : Mediator) (c : ℕ)
      → connection m uri ≡ some c
      → notify (uri ∷ uris) topic a m ≡ notify uris topic a (noticed topic a c (touched uri m))
  unfolding notify
  notify-cons uri uris topic a m c e =
      rw (ap (λ (d : NodeData). d.connection) (node-touch uri uri m) ∙ e) refl

  notify-cons_null :
      (uri : String) (uris : List String) (topic : String) (a : AddressPort) (m : Mediator)
      → connection m uri ≡ none
      → notify (uri ∷ uris) topic a m ≡ none
  unfolding notify
  notify-cons_null uri uris topic a m e =
      rw (ap (λ (d : NodeData). d.connection) (node-touch uri uri m) ∙ e) refl

  Notified-cons :
      (uri : String) (uris : List String) (topic : String) (a : AddressPort) (m m' : Mediator)
      (c : ℕ)
      → connection m uri ≡ some c
      → Notified uris topic a (noticed topic a c (touched uri m)) m'
      → Notified (uri ∷ uris) topic a m m'
  unfolding contains
  Notified-cons uri uris topic a m m' c e v = record {
    topic_table = v.topic_table;
    closed = v.closed;
    nodes = λ n. v.nodes n ∙ node-touch uri n m;
    told = λ n d h k. elim (Bool-cases (uri == n)) [
      | inl same ↦
          v.kept d topic a
            (inl (cc (e, k, (eq_iff uri n).0 same), refl, _, _, refl, inl (refl, refl)))
      | inr other ↦
          v.told n d (ground arith) (ap (λ (d : NodeData). d.connection) (node-touch uri n m) ∙ k)
    ];
    kept = λ d t b h. v.kept d t b (inr h);
    count = omega (arith, v.count);
  }

  Notified-nil : (topic : String) (a : AddressPort) (m : Mediator) → Notified [] topic a m m
  unfolding contains
  Notified-nil topic a m = record {
    topic_table = refl;
    closed = refl;
    nodes = λ n. refl;
    told = λ n c i k. cc;
    kept = λ c t b h. h;
    count = omega arith;
  }

  notify-nil :
      (topic : String) (a : AddressPort) (m m' : Mediator) → notify [] topic a m ≡ some m' → m ≡ m'
  unfolding notify
  notify-nil topic a m m' e = cc

  -- Whenever the loop ends, every node on the list has been told, each once.
  pub notify-Notified :
      (uris : List String) (topic : String) (a : AddressPort) (m m' : Mediator)
      → notify uris topic a m ≡ some m'
      → Notified uris topic a m m'
  notify-Notified [] topic a m m' e =
      subst (Notified [] topic a m) (notify-nil topic a m m' e) (Notified-nil topic a m)
  notify-Notified (uri ∷ uris) topic a m m' e = elim (Option-cases (connection m uri)) [
    | inl null ↦ absurd (cc (e, notify-cons_null uri uris topic a m null))
    | inr (c, k) ↦ Notified-cons uri uris topic a m m' c k (
        notify-Notified uris topic a (noticed topic a c (touched uri m)) m'
          (sym (notify-cons uri uris topic a m c k) ∙ e))
  ]

  -- The loop ends if every node on the list has its connection.
  pub notify-total :
      (uris : List String) (topic : String) (a : AddressPort) (m : Mediator)
      → ((n : String) → contains n uris ≡ true → is_some (connection m n) ≡ true)
      → (m' : Mediator) × (notify uris topic a m ≡ some m')
  unfolding contains
  notify-total [] topic a m h = (m, unfold notify in refl)
  notify-total (uri ∷ uris) topic a m h = elim (Option-cases (connection m uri)) [
    | inl null ↦ absurd (cc (null, h uri (ground (arith, eq_refl uri))))
    | inr (c, k) ↦
        let rest = notify-total uris topic a (noticed topic a c (touched uri m)) (λ n i.
          ap (λ (d : NodeData). is_some d.connection) (node-touch uri n m) ∙ h n (ground arith)) in
        (rest.0, notify-cons uri uris topic a m c k ∙ rest.1)
  ]
