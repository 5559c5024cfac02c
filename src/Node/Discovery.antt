-- ===== src/Node/Discovery.antt =====
-- A node of src/mros/node.cpp and the mediator of src/mediator/mediator.cpp together: a new
-- subscriber gets connected to the publishers on its topic.
use mros_w24_solution.Common.{
  ℕ, String, ℤ, Bool, true, List, [], ◌∷◌, ◌++◌, some, ◌≡◌, refl, ◌∙◌, ◌⊎◌, inl, inr, ◌↔◌, arith,
  length, eq_refl,
}
use mros_w24_solution.Containers.Table.{lookup, assign, lookup-assign}
use mros_w24_solution.Json.{JsonLib, Json}
use mros_w24_solution.Rpc.{receive_round, request_message}
use mros_w24_solution.Rpc.Dispatch.{receive_round-request}
use mros_w24_solution.Mediator.{Mediator, AddressPort, add_subscriber, publishers_message}
use mros_w24_solution.Mediator.Callbacks.{callbacks}
use mros_w24_solution.Mediator.Registry.{Registry, Represents}
use mros_w24_solution.Mediator.Announce.{Listed}
use mros_w24_solution.Mediator.Serve.{subscribes, call_message, reply, receive_round-call}
use mros_w24_solution.Mediator.Telling.{
  answer, sent-add_subscriber, topic_read, hosts_read, ports_read,
}
use mros_w24_solution.Node.{
  Node, create_subscriber, connect_all, connect_found, connect_subscriber_to_publishers,
  json_connect_subscriber_to_publishers_callback, node_callbacks,
}

-- The subscriber has been told to connect to the address.
abbrev pub Connects : ℕ → AddressPort → List (ℕ × AddressPort) → Type 0
Connects x a [] = ⊥
Connects x a ((y, b) ∷ l) = ((x ≡ y) × (a.host ≡ b.host) × (a.port ≡ b.port)) ⊎ Connects x a l

Connects-append :
    (x y : ℕ) (a b : AddressPort) (l : List (ℕ × AddressPort))
    → Connects x a (l ++ (y, b) ∷ [])
      ↔ (Connects x a l ⊎ ((x ≡ y) × (a.host ≡ b.host) × (a.port ≡ b.port)))
Connects-append x y a b [] = (
  λ c. elim c [ inl h ↦ inr h | inr f ↦ absurd f ],
  λ c. elim c [ inl f ↦ absurd f | inr h ↦ inl h ],
)
Connects-append x y a b (first ∷ l) =
    let (there, back) = Connects-append x y a b l in
    (
      λ c. elim c [
        | inl h ↦ inl (inl h)
        | inr k ↦ elim (there k) [ inl p ↦ inl (inr p) | inr q ↦ inr q ]
      ],
      λ c. elim c [
        | inl p ↦ elim p [ inl h ↦ inl h | inr k ↦ inr (back (inl k)) ]
        | inr q ↦ inr (back (inr q))
      ],
    )

module _ ⦃json : JsonLib⦄ where
  open json use {object}

  -- The loop connects the subscriber to each address of the two arrays, and to no other.
  connect_all-Connects :
      (x : ℕ) (hosts : List String) (ports : List ℤ) (n : Node)
      → length hosts ≡ length ports
      → (n' : Node) × (connect_all x hosts ports n ≡ some n')
        × ((a : AddressPort)
            → Connects x a n'.connections ↔ (Connects x a n.connections ⊎ Listed a hosts ports))
  unfolding connect_all
  connect_all-Connects x [] ports n e =
      (n, refl, λ a. (λ c. inl c, λ c. elim c [ inl h ↦ h | inr f ↦ absurd f ]))
  connect_all-Connects x (h ∷ hosts) [] n e = absurd (omega (arith, e))
  connect_all-Connects x (h ∷ hosts) (p ∷ ports) n e =
      let b : AddressPort = record { host = h; port = p } in
      let (n', done, same) =
        connect_all-Connects x hosts ports (record n { connections = n.connections ++ (x, b) ∷ [] })
          (omega (arith, e)) in
      (
        n',
        done,
        λ a.
            let (there, back) = Connects-append x x a b n.connections in
            (
              λ c. elim ((same a).0 c) [
                | inl k ↦ elim (there k) [ inl old ↦ inl old | inr (i, h, k) ↦ inr (inl (h, k)) ]
                | inr l ↦ inr (inr l)
              ],
              λ c. elim c [
                | inl old ↦ (same a).1 (inl (back (inl old)))
                | inr l ↦ elim l [
                  | inl (h, k) ↦ (same a).1 (inl (back (inr (refl, h, k))))
                  | inr later ↦ (same a).1 (inr later)
                ]
              ],
            ),
      )

  -- The callback on a message of the mediator.
  json_connect_lem :
      (alive : ℕ → Bool) (topic : String) (hosts : List String) (ports : List ℤ) (x : ℕ) (n : Node)
      → lookup topic n.subscribers ≡ some x
      → alive x ≡ true
      → json_connect_subscriber_to_publishers_callback alive
          (publishers_message topic hosts ports)
          n
        ≡ connect_all x hosts ports n
  unfolding json_connect_subscriber_to_publishers_callback connect_subscriber_to_publishers
      connect_found
  json_connect_lem alive topic hosts ports x n e l =
      rw
        (
          topic_read topic hosts ports,
          hosts_read topic hosts ports,
          ports_read topic hosts ports,
          e,
          l,
        )
        refl

  -- The receiving thread of the node on a request of the mediator.
  receive_round-connect :
      (alive : ℕ → Bool) (j : Json) (n n' : Node)
      → json_connect_subscriber_to_publishers_callback alive j n ≡ some n'
      → receive_round
          (node_callbacks alive)
          (object [])
          (some (request_message "connectSubscriberToPublishers" j))
          n
        ≡ some (n', true)
  unfolding node_callbacks lookup assign
  receive_round-connect alive j n n' done =
      receive_round-request (node_callbacks alive) (object []) "connectSubscriberToPublishers" j n
      ∙ rw done refl

  -- A node creates a subscriber and sends one message. The mediator, whose tables stand for a
  -- registry, reads it and sends one request on the node's connection. The receiving thread of the
  -- node reads the request, goes on, and tells the subscriber, which still exists, to connect to the
  -- addresses of the publishers on the topic that the registry has, and to no other beyond those of
  -- before.
  pub create_subscriber-Connects :
      {m : Mediator} {r : Registry}
      → Represents m r
      → (uri topic : String) (c x : ℕ) (alive : ℕ → Bool) (n : Node) → alive x ≡ true
      → (message j : Json) × (m' : Mediator) × (n' : Node) × ((create_subscriber topic x n).sent
          ≡ message ∷ n.sent)
        × (receive_round (callbacks uri c) (object []) (some message) m ≡ some (m', true))
        × (m'.sent
            ≡ record {
              connection = c;
              callback_name = "connectSubscriberToPublishers";
              argument = j;
            }
              ∷ m.sent)
        × (receive_round
              (node_callbacks alive)
              (object [])
              (some (request_message "connectSubscriberToPublishers" j))
              (create_subscriber topic x n)
            ≡ some (n', true))
        × ((a : AddressPort)
            → Connects x a n'.connections
              ↔ (Connects x a n.connections ⊎ ((p : String) × (r.publisher p topic ≡ some a))))
  unfolding create_subscriber
  create_subscriber-Connects {m} {r} v uri topic c x alive n l =
      let (hosts, ports, same, paired, listed) = answer v uri topic in
      let (n', done, connects) =
        connect_all-Connects x hosts ports (create_subscriber topic x n) paired in
      (
        call_message (subscribes topic),
        publishers_message topic hosts ports,
        reply c (add_subscriber uri topic m),
        n',
        refl,
        receive_round-call uri c (object []) (subscribes topic) m,
        rw (same, sent-add_subscriber v uri topic) refl,
        receive_round-connect alive (publishers_message topic hosts ports)
            (create_subscriber topic x n) n'
            (json_connect_lem alive topic hosts ports x (create_subscriber topic x n)
                (lookup-assign topic topic x n.subscribers ∙ ground (arith, eq_refl topic)) l
              ∙ done),
        λ a. (
          λ k. elim ((connects a).0 k) [ inl old ↦ inl old | inr new ↦ inr ((listed a).0 new) ],
          λ k. (connects a).1 (elim k [ inl old ↦ inl old | inr new ↦ inr ((listed a).1 new) ]),
        ),
      )
