-- ===== src/Mediator/Threads/Schedules.antt =====
-- The mediator of src/mediator/mediator.cpp after any sequence of steps of its threads: handlers of
-- different nodes overlap in any way.
use mros_w24_solution.Common.{
  String, true, false, none, some, ◌≡◌, ◌⊎◌, inl, inr, refl, sym, ap, ◌∙◌, is_some, Whenever-some,
  Option-cases,
}
use mros_w24_solution.Containers.NameSet.{contains}
use mros_w24_solution.Json.{JsonLib}
use mros_w24_solution.Mediator.{AddressPort, publish_node}
use mros_w24_solution.Mediator.Views.{publishes, subscribes, subscribed, address, connection}
use mros_w24_solution.Mediator.Registry.{Registry, no_nodes}
use mros_w24_solution.Mediator.Threads.{
  Pending, idle, leaving, publishing, subscribing, replying, unpublishing, unsubscribing, World,
  initial, then_in, go_on_in, go_on, Action, goes_on, step,
}
use mros_w24_solution.Mediator.Threads.Keeps.{notify-cases}
use mros_w24_solution.Mediator.Threads.Agree.{
  publishes_in, subscribes_in, record_action, initial-Agrees,
}
use mros_w24_solution.Mediator.Threads.Agree.Goes.{with_address, connection-with_address}
use mros_w24_solution.Mediator.Threads.Agree.Quits.{leave_nodes-total}
use mros_w24_solution.Mediator.Threads.Busy.{is_idle}
use mros_w24_solution.Mediator.Threads.Steps.{Permitted, Inv, step-Inv}

module _ ⦃json : JsonLib⦄ where
  pub data Reach : World → Registry → Type 0 where
    start : Reach initial no_nodes
    next :
        {w w' : World} {r : Registry} (a : Action)
        → Reach w r
        → Permitted a r
        → step a w ≡ some w'
        → Reach w' (record_action a w r)

  Reach-Inv : {w : World} {r : Registry} → Reach w r → Inv w r
  Reach-Inv start = (initial-Agrees, λ n h. cc)
  Reach-Inv (next {w} {w'} {r} a before allowed done) =
      Whenever-some (λ w'. Inv w' (record_action a w r)) (step a w)
        (step-Inv a (Reach-Inv before) allowed) done

  -- However the threads take turns, the tables say of a node whose own handlers have ended what the
  -- registry says: the topic table exactly, the node table exactly of the topics that the node
  -- subscribes to and of its connection, and with the address of every topic on which it publishes.
  -- Other handlers may be under way.
  pub Reach-tables :
      {w : World} {r : Registry}
      → Reach w r
      → (n : String) → w.pending n ≡ idle
      → (t : String)
      → (publishes w.mediator n t ≡ is_some (r.publisher n t))
        × (subscribes w.mediator n t ≡ r.subscriber n t)
        × (subscribed w.mediator n t ≡ r.subscriber n t)
        × (connection w.mediator n ≡ r.connection n)
        × ((a : AddressPort) → r.publisher n t ≡ some a → address w.mediator n t ≡ some a)
  Reach-tables {w} {r} h n free t =
      let v = (Reach-Inv h).0 in
      (
        v.publishes_eq n t ∙ ap (λ p. publishes_in p t (is_some (r.publisher n t))) free,
        v.subscribes_eq n t ∙ ap (λ p. subscribes_in p t (r.subscriber n t)) free,
        v.subscribed_eq n t,
        v.connection_eq n,
        v.address_of n t,
      )

  -- `addPublisher` has a node on its list that is not connected any more.
  abbrev pub Left : Pending → Registry → Type 0
  Left (publishing topic a nodes) r =
      (n : String) × (contains n nodes ≡ true) × (r.connection n ≡ none)
  Left _ r = ⊥

  go_on_in-cases :
      {w : World} {r : Registry}
      → Inv w r
      → (uri : String) (p : Pending) → w.pending uri ≡ p
      → is_idle p ≡ false
      → ((w' : World) × (go_on_in p uri w ≡ some w')) ⊎ Left p r
  unfolding go_on_in publish_node
  go_on_in-cases (v, o) uri idle busy h = absurd (cc h)
  go_on_in-cases {w} {r} (v, o) uri (publishing topic a nodes) busy h =
      elim (notify-cases nodes topic a (with_address uri topic a w.mediator)) [
        | inl (m, done) ↦ inl (then_in uri idle m w, rw done refl)
        | inr (n, i, null) ↦ inr (n, i, sym (connection-with_address v uri topic a n) ∙ null)
      ]
  go_on_in-cases (v, o) uri (subscribing c topic nodes) busy h = inl (_, refl)
  go_on_in-cases (v, o) uri (replying c j) busy h = inl (_, refl)
  go_on_in-cases (v, o) uri (unpublishing topic) busy h = inl (_, refl)
  go_on_in-cases (v, o) uri (unsubscribing topic) busy h = inl (_, refl)
  go_on_in-cases {w} {r} (v, o) uri leaving busy h = elim (Option-cases (r.connection uri)) [
    | inl null ↦ absurd (cc (o uri (ap is_idle busy), ap is_some null))
    | inr (c, e) ↦
        let (m, done) = leave_nodes-total v uri c e in inl (then_in uri idle m w, rw done refl)
  ]

  -- However the threads take turns, a handler that is under way can go on, except for `addPublisher`
  -- when a node on the list that it has copied is not connected any more.
  pub Reach-goes_on :
      {w : World} {r : Registry}
      → Reach w r
      → (uri : String) → is_idle (w.pending uri) ≡ false
      → ((w' : World) × (step (goes_on uri) w ≡ some w')) ⊎ Left (w.pending uri) r
  unfolding step go_on
  Reach-goes_on {w} h uri busy = go_on_in-cases (Reach-Inv h) uri (w.pending uri) refl busy
