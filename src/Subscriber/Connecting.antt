-- ===== src/Subscriber/Connecting.antt =====
-- Connections to publishers that are made while the receiving thread of include/mros/subscriber.hpp is
-- in a cycle.
use mros_w24_solution.Common.{
  ℕ, String, ℤ, List, [], ◌∷◌, Option, none, some, if◌then◌else◌, ◌≡◌, refl, ◌∙◌, arith, ◌==◌,
  Bool-cases, inl, inr, eq_iff,
}
use mros_w24_solution.Containers.NameSet.{contains}
use mros_w24_solution.Containers.Table.{lookup, or_default, lookup-insert}
use mros_w24_solution.Uri.{to_uri}
use mros_w24_solution.Subscriber.{
  Subscriber, Received, connect_to_publisher, connect_to_publishers, receive_all,
  receive_while_connecting,
}
use mros_w24_solution.Subscriber.Queue.{
  is_lost, lookup-erase_all, contains-receive_all, connections-receive_all,
}

-- The first of the connections that is made to a URI.
abbrev pub first_made : String → List (String × (ℤ × Option ℕ)) → Option ℕ
first_made uri [] = none
first_made uri ((host, (port, none)) ∷ rest) = first_made uri rest
first_made uri ((host, (port, some client)) ∷ rest) =
    if to_uri host port == uri then some client else first_made uri rest

abbrev pub or_else : Option ℕ → Option ℕ → Option ℕ
or_else none other = other
or_else (some client) other = some client

module _ {ℓ} {M : Type ℓ} where
  lookup-connect_to_publishers :
      (uri : String) (connects : List (String × (ℤ × Option ℕ))) (s : Subscriber M)
      → lookup uri (connect_to_publishers connects s).publisher_connections
        ≡ or_else (lookup uri s.publisher_connections) (first_made uri connects)
  unfolding connect_to_publishers connect_to_publisher
  lookup-connect_to_publishers uri [] s = none_made (lookup uri s.publisher_connections)
    where
      none_made : (o : Option ℕ) → o ≡ or_else o none
      none_made none = refl
      none_made (some client) = refl
  lookup-connect_to_publishers uri ((host, (port, none)) ∷ rest) s =
      lookup-connect_to_publishers uri rest s
  lookup-connect_to_publishers uri ((host, (port, some client)) ∷ rest) s =
      lookup-connect_to_publishers uri rest (connect_to_publisher host port (some client) s)
      ∙ rw (lookup-insert (to_uri host port) uri client s.publisher_connections)
          (elim (Bool-cases (to_uri host port == uri)) [
            | inl same ↦
                rw (same, (eq_iff (to_uri host port) uri).0 same)
                  (made (lookup uri s.publisher_connections))
            | inr other ↦ rw other refl
          ])
    where
      made :
          (o : Option ℕ)
          → or_else (some (or_default client o)) (first_made uri rest) ≡ or_else o (some client)
      made none = refl
      made (some old) = refl

  -- A cycle of the receiving thread during which connections are made: a connection whose receive has
  -- failed is removed, and so is one that was made to the same URI meanwhile. Any other connection is
  -- kept, and of those that are made the first to a URI without one.
  pub receive_while_connecting-connections :
      (uri : String) (results : List (String × Received M))
      (connects : List (String × (ℤ × Option ℕ))) (s : Subscriber M)
      → lookup uri (receive_while_connecting results connects s).publisher_connections ≡ (
          if is_lost uri results
          then none
          else or_else (lookup uri s.publisher_connections) (first_made uri connects))
  unfolding receive_while_connecting contains
  receive_while_connecting-connections uri results connects s =
      let (gone, received) = receive_all results ([], s) in
      lookup-erase_all uri gone (connect_to_publishers connects received).publisher_connections
      ∙ rw
          (
            contains-receive_all uri results [] s,
            lookup-connect_to_publishers uri connects received,
            connections-receive_all results [] s,
          )
          (ground arith)
