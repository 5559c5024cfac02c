-- ===== src/Subscriber/Orderly.antt =====
-- What every action on a subscriber of include/mros/subscriber.hpp keeps.
use mathlib.Core.List.{append_assoc, append-nil}
use mathlib.Core.Path.{subst}
use mros_w24_solution.Common.{
  ◌-◌, Bool, true, false, List, [], ◌∷◌, ◌++◌, Option, none, some, nat_eq, if◌then◌else◌, length,
  drop, ◌≡◌, ◌≢◌, refl, sym, ◌∙◌, ap, arith, Bool-cases, inl, inr,
}
use mros_w24_solution.Subscriber.{
  Subscriber, Spinner, not_started, at_test, at_queue, asleep, holding, ended, Call, limit, notify,
  drop_messages, enqueue, spin, spin_at, take_message, spinner_step_at, spinner_step, spin_once_on,
  spin_once, disconnect,
}
use mros_w24_solution.Subscriber.Queue.{enqueue_lem}
use mros_w24_solution.Subscriber.InOrder.{
  InOrder, nothing, InOrder-append, InOrder-cut, InOrder-drop,
}
use mros_w24_solution.Subscriber.Actions.{
  Action, arrives, spins, spinner_goes, spins_once, disconnects, act, arrived, Proper, Reach, start,
  next, queued, held,
}

module _ {ℓ} {M : Type ℓ} where
  -- What each action keeps.
  pub record Orderly (messages : List M) (s : Subscriber M) : Type ℓ where
    pub in_order : InOrder (queued s.calls ++ (held s.spinner ++ s.message_queue)) messages
    pub no_lost_wakeup : s.spinner ≡ asleep false → s.message_queue ≡ []

  Outcome : List M → Option (Subscriber M) → Type ℓ
  Outcome messages none = Unit {ℓ}
  Outcome messages (some s) = Orderly messages s

  queued-append :
      (calls : List (Call M)) (m : M)
      → queued (calls ++ record { message = m; is_queued = true } ∷ []) ≡ queued calls ++ m ∷ []
  queued-append [] m = refl
  queued-append (call ∷ calls) m = ground (arith, queued-append calls m)

  queued-default :
      (calls : List (Call M)) (m : M)
      → queued (calls ++ record { message = m; is_queued = false } ∷ []) ≡ queued calls
  queued-default [] m = refl
  queued-default (call ∷ calls) m = ground (arith, queued-default calls m)

  -- The messages that wait, behind those that the callback was called with.
  abbrev line : Subscriber M → List M
  line s = queued s.calls ++ (held s.spinner ++ s.message_queue)

  held-notify :
      (is_first : Bool) (spinner : Spinner M)
      → held (if is_first then notify spinner else spinner) ≡ held spinner
  held-notify false spinner = refl
  held-notify true not_started = refl
  held-notify true at_test = refl
  held-notify true at_queue = refl
  held-notify true ended = refl
  held-notify true (asleep notified) = refl
  held-notify true (holding m) = refl

  not_notified :
      (is_first : Bool) (spinner : Spinner M)
      → (if is_first then notify spinner else spinner) ≡ asleep false
      → (is_first ≡ false) × (spinner ≡ asleep false)
  not_notified false spinner e = (refl, e)
  not_notified true not_started e = absurd (ground arith)
  not_notified true at_test e = absurd (ground arith)
  not_notified true at_queue e = absurd (ground arith)
  not_notified true ended e = absurd (ground arith)
  not_notified true (asleep notified) e = absurd (ground arith)
  not_notified true (holding m) e = absurd (ground arith)

  regroup : (a b c d : List M) → ((a ++ b) ++ c) ++ d ≡ a ++ (b ++ (c ++ d))
  regroup a b c d = append_assoc (a ++ b) c d ∙ append_assoc a b (c ++ d)

  enqueue-Orderly :
      (m : M) (messages : List M) (s : Subscriber M)
      → Orderly messages s
      → Orderly (messages ++ m ∷ []) (enqueue m s)
  unfolding enqueue drop_messages
  enqueue-Orderly m messages s o = record {
    in_order =
        let queue = s.message_queue in
        let k = length queue - limit s.queue_size in
        let front = queued s.calls ++ held s.spinner in
        let now : InOrder (front ++ queue) messages =
          rw (sym (append_assoc (queued s.calls) (held s.spinner) queue)) at o.in_order in
        rw (held-notify (nat_eq (length (enqueue m s).message_queue) 1) s.spinner, enqueue_lem m s)
          (subst (λ l. InOrder l (messages ++ m ∷ []))
            (regroup (queued s.calls) (held s.spinner) (drop k queue) (m ∷ []))
            (InOrder-append m (InOrder-drop front k queue messages now)));
    no_lost_wakeup = λ e.
        let (more, asleep_before) =
          not_notified (nat_eq (length (enqueue m s).message_queue) 1) s.spinner e in
        absurd (empty_before s.message_queue (o.no_lost_wakeup asleep_before) more);
  }
    where
      empty_before :
          (queue : List M)
          → queue ≡ []
          → nat_eq (length (drop_messages (limit s.queue_size) queue ++ m ∷ [])) 1 ≢ false
      empty_before [] e more = ground arith
      empty_before (n ∷ queue) e more = absurd (ground arith)

  take_message-Orderly :
      (queue : List M) (messages : List M) (s : Subscriber M)
      → s.message_queue ≡ queue
      → held s.spinner ≡ []
      → Orderly messages s
      → Orderly messages (take_message queue s)
  unfolding take_message
  take_message-Orderly [] messages s e h o = record {
    in_order = rw h at o.in_order;
    no_lost_wakeup = λ w. e;
  }
  take_message-Orderly (m ∷ queue) messages s e h o = record {
    in_order = rw (h, e) at o.in_order;
    no_lost_wakeup = λ w. ground arith;
  }

  held-idle : (c : Bool) → held {M = M} (if c then at_queue else ended) ≡ []
  held-idle true = refl
  held-idle false = refl

  spinner_step-Outcome :
      (spinner : Spinner M) (messages : List M) (s : Subscriber M)
      → s.spinner ≡ spinner
      → Orderly messages s
      → Outcome messages (spinner_step_at spinner s)
  unfolding spinner_step_at Outcome
  spinner_step-Outcome at_test messages s e o = record {
    in_order = rw (held-idle s.connected) (rw e at o.in_order);
    no_lost_wakeup = λ w. ground arith;
  }
  spinner_step-Outcome at_queue messages s e o =
      take_message-Orderly s.message_queue messages s refl (ap held e) o
  spinner_step-Outcome (asleep true) messages s e o =
      take_message-Orderly s.message_queue messages s refl (ap held e) o
  spinner_step-Outcome (asleep false) messages s e o = tt
  spinner_step-Outcome not_started messages s e o = tt
  spinner_step-Outcome ended messages s e o = tt
  spinner_step-Outcome (holding m) messages s e o = record {
    in_order = elim (Bool-cases s.connected) [
      | inl on ↦
          rw (on, queued-append s.calls m)
            (subst (λ l. InOrder l messages)
              (sym (append_assoc (queued s.calls) (m ∷ []) s.message_queue)) (rw e at o.in_order))
      | inr off ↦
          rw off (InOrder-cut (queued s.calls) m s.message_queue messages (rw e at o.in_order))
    ];
    no_lost_wakeup = λ w. ground arith;
  }

  spin-Outcome :
      (spinner : Spinner M) (messages : List M) (s : Subscriber M)
      → s.spinner ≡ spinner
      → Orderly messages s
      → Outcome messages (spin_at spinner s)
  unfolding spin_at Outcome
  spin-Outcome not_started messages s e o = record {
    in_order = rw e at o.in_order;
    no_lost_wakeup = λ w. ground arith;
  }
  spin-Outcome at_test messages s e o = tt
  spin-Outcome at_queue messages s e o = tt
  spin-Outcome ended messages s e o = tt
  spin-Outcome (asleep notified) messages s e o = tt
  spin-Outcome (holding m) messages s e o = tt

  spin_once-Orderly :
      (queue : List M) (default : M) (messages : List M) (s : Subscriber M)
      → s.message_queue ≡ queue
      → s.spinner ≡ not_started
      → Orderly messages s
      → Orderly messages (spin_once_on queue default s)
  unfolding spin_once_on
  spin_once-Orderly [] default messages s e idle o = record {
    in_order = rw (queued-default s.calls default) o.in_order;
    no_lost_wakeup = o.no_lost_wakeup;
  }
  spin_once-Orderly (m ∷ queue) default messages s e idle o = record {
    in_order =
        rw (queued-append s.calls m, idle)
          (subst (λ l. InOrder l messages) (sym (append_assoc (queued s.calls) (m ∷ []) queue))
            (rw (idle, e) at o.in_order));
    no_lost_wakeup = λ w. absurd (ground (arith, w, idle));
  }

  disconnect-Orderly :
      (messages : List M) (s : Subscriber M) → Orderly messages s → Orderly messages (disconnect s)
  unfolding disconnect
  disconnect-Orderly messages s o = record {
    in_order = o.in_order;
    no_lost_wakeup = o.no_lost_wakeup;
  }

  act-Outcome :
      (default : M) (a : Action M) (messages : List M) (s : Subscriber M)
      → Proper a s
      → Orderly messages s
      → Outcome (messages ++ arrived a) (act default a s)
  unfolding act Outcome spin spinner_step spin_once
  act-Outcome default (arrives m) messages s p o = enqueue-Orderly m messages s o
  act-Outcome default spins messages s p o =
      rw (append-nil messages) (spin-Outcome s.spinner messages s refl o)
  act-Outcome default spinner_goes messages s p o =
      rw (append-nil messages) (spinner_step-Outcome s.spinner messages s refl o)
  act-Outcome default spins_once messages s p o =
      rw (append-nil messages) (spin_once-Orderly s.message_queue default messages s refl p o)
  act-Outcome default disconnects messages s p o =
      rw (append-nil messages) (disconnect-Orderly messages s o)

  pub Reach-Orderly :
      {default : M} {messages : List M} {s : Subscriber M}
      → Reach default messages s
      → Orderly messages s
  unfolding Outcome
  Reach-Orderly (start queue_size) = record { in_order = nothing; no_lost_wakeup = λ e. refl }
  Reach-Orderly {default} (next {messages} {s} {s'} a before proper done) =
      subst (Outcome (messages ++ arrived a)) done
        (act-Outcome default a messages s proper (Reach-Orderly before))
