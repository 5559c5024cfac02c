-- ===== src/Mediator/Threads/Steps.antt =====
-- Each step of the threads of src/mediator/mediator.cpp: what it keeps.
use mros_w24_solution.Common.{
  String, ℕ, true, false, some, ◌≡◌, refl, ap, ◌∙◌, is_some, arith, Whenever, Whenever-bind,
}
use mros_w24_solution.Json.{JsonLib}
use mros_w24_solution.Mediator.{Mediator, publish_node, leave_nodes}
use mros_w24_solution.Mediator.Serve.{Call}
use mros_w24_solution.Mediator.Registry.{Registry, leave}
use mros_w24_solution.Mediator.Threads.{
  Pending, idle, leaving, publishing, subscribing, replying, unpublishing, unsubscribing, World,
  then_in, begin_in, begin_closing_in, go_on_in, begin, begin_closing, go_on, Action, registers,
  names, begins, begins_closing, goes_on, step,
}
use mros_w24_solution.Mediator.Threads.Agree.{Agrees, record_rest, record_action}
use mros_w24_solution.Mediator.Threads.Agree.Begins.{
  register-Agrees, add_node-Agrees, publish_topic-Agrees, subscribe_topic-Agrees,
  unpublish_topic-Agrees, unsubscribe_topic-Agrees,
}
use mros_w24_solution.Mediator.Threads.Agree.Leaves.{leave_topics-Agrees}
use mros_w24_solution.Mediator.Threads.Agree.Goes.{
  publish_node-Agrees, subscribe_node-Agrees, reply-Agrees,
}
use mros_w24_solution.Mediator.Threads.Agree.Quits.{
  unpublish_node-Agrees, unsubscribe_node-Agrees, leave_nodes-Agrees,
}
use mros_w24_solution.Mediator.Threads.Busy.{is_idle, Occupied, then_in-Occupied}

module _ ⦃json : JsonLib⦄ where
  -- A handler runs on a thread of a connection that is there.
  abbrev pub Permitted : Action → Registry → Type 0
  Permitted (begins uri c call) r = r.connection uri ≡ some c
  Permitted (begins_closing uri c) r = r.connection uri ≡ some c
  Permitted _ r = Unit {0}

  abbrev pub Inv : World → Registry → Type 0
  Inv w r = Agrees w r × Occupied w r

  module _ {w : World} {r : Registry} (v : Agrees w r) (o : Occupied w r) (uri : String) where
    -- After a part of a handler that leaves the connections as they are.
    with_connections :
        {r' : Registry} (p : Pending) {m : Mediator}
        → Agrees (then_in uri p m w) r'
        → ((n : String) → r'.connection n ≡ r.connection n)
        → (is_idle p ≡ false → is_some (r.connection uri) ≡ true)
        → Inv (then_in uri p m w) r'
    with_connections {r'} p {m} agrees same connected = (
      agrees,
      then_in-Occupied w r r' uri p m o (λ h. ap is_some (same uri) ∙ connected h) (λ n h. same n),
    )

    begin_in-Inv :
        (p : Pending) (c : ℕ) (call : Call)
        → w.pending uri ≡ p
        → r.connection uri ≡ some c
        → Whenever (λ w'. Inv w' r) (begin_in p uri c call w)
    unfolding begin_in
    begin_in-Inv idle c (Call.publishes topic a) free e =
        with_connections _ (publish_topic-Agrees v uri free topic a) (λ n. refl) (λ h. ap is_some e)
    begin_in-Inv idle c (Call.subscribes topic) free e =
        with_connections _ (subscribe_topic-Agrees v uri free c topic) (λ n. refl)
          (λ h. ap is_some e)
    begin_in-Inv idle c (Call.unpublishes topic) free e =
        with_connections _ (unpublish_topic-Agrees v uri free topic) (λ n. refl) (λ h. ap is_some e)
    begin_in-Inv idle c (Call.unsubscribes topic) free e =
        with_connections _ (unsubscribe_topic-Agrees v uri free topic) (λ n. refl)
          (λ h. ap is_some e)
    begin_in-Inv _ c call free e = tt

    begin_closing_in-Inv :
        (p : Pending) (c : ℕ)
        → w.pending uri ≡ p
        → r.connection uri ≡ some c
        → Whenever (λ w'. Inv w' r) (begin_closing_in p uri w)
    unfolding begin_closing_in
    begin_closing_in-Inv idle c free e =
        with_connections _ (leave_topics-Agrees v uri free) (λ n. refl) (λ h. ap is_some e)
    begin_closing_in-Inv _ c free e = tt

    go_on_in-Inv :
        (p : Pending)
        → w.pending uri ≡ p
        → Whenever (λ w'. Inv w' (record_rest p uri r)) (go_on_in p uri w)
    unfolding go_on_in
    go_on_in-Inv idle busy = tt
    go_on_in-Inv (publishing topic a nodes) busy =
        Whenever-bind _ (publish_node uri topic a nodes w.mediator) _ (λ m done.
          with_connections _ (publish_node-Agrees v uri topic a nodes m busy done) (λ n. refl)
            (λ h. cc))
    go_on_in-Inv (subscribing c topic nodes) busy =
        with_connections _ (subscribe_node-Agrees v uri c topic nodes busy) (λ n. refl)
          (λ h. o uri (ap is_idle busy))
    go_on_in-Inv (replying c j) busy =
        with_connections _ (reply-Agrees v uri c j busy) (λ n. refl) (λ h. cc)
    go_on_in-Inv (unpublishing topic) busy =
        with_connections _ (unpublish_node-Agrees v uri topic busy) (λ n. refl) (λ h. cc)
    go_on_in-Inv (unsubscribing topic) busy =
        with_connections _ (unsubscribe_node-Agrees v uri topic busy) (λ n. refl) (λ h. cc)
    go_on_in-Inv leaving busy = Whenever-bind _ (leave_nodes uri w.mediator) _ (λ m done. (
      leave_nodes-Agrees v uri m busy done,
      then_in-Occupied w r (leave uri r) uri idle m o (λ h. cc) (λ n h. ground arith),
    ))

  pub step-Inv :
      (a : Action) {w : World} {r : Registry}
      → Inv w r
      → Permitted a r
      → Whenever (λ w'. Inv w' (record_action a w r)) (step a w)
  unfolding step begin begin_closing go_on
  step-Inv (registers uri c) {w} {r} (v, o) allowed =
      (register-Agrees v uri c, λ n h. ground (arith, o n h))
  step-Inv (names uri name) {w} {r} (v, o) allowed = (add_node-Agrees v uri name, o)
  step-Inv (begins uri c call) {w} {r} (v, o) allowed =
      begin_in-Inv v o uri (w.pending uri) c call refl allowed
  step-Inv (begins_closing uri c) {w} {r} (v, o) allowed =
      begin_closing_in-Inv v o uri (w.pending uri) c refl allowed
  step-Inv (goes_on uri) {w} {r} (v, o) allowed = go_on_in-Inv v o uri (w.pending uri) refl
