-- ===== src/Subscriber/Spinning.antt =====
-- The two threads of include/mros/subscriber.hpp: the order of the calls of the callback, when the
-- spinning thread waits, and how it ends.
use mros_w24_solution.Common.{
  ℕ, zero, suc, Bool, true, false, List, [], ◌∷◌, none, some, ◌≡◌, refl, ap, arith,
}
use mros_w24_solution.Subscriber.{
  Subscriber, Spinner, not_started, at_test, at_queue, asleep, holding, ended, take_message,
  spinner_step_at, spinner_step, disconnect, shut_down,
}
use mros_w24_solution.Subscriber.InOrder.{InOrder}
use mros_w24_solution.Subscriber.Actions.{Reach}
use mros_w24_solution.Subscriber.Orderly.{Reach-Orderly}

module _ {ℓ} {M : Type ℓ} where
  abbrev pub is_running : Spinner M → Bool
  is_running not_started = false
  is_running ended = false
  is_running _ = true

  -- After any actions of the threads and the user, who calls `spinOnce` only without the spinning
  -- thread: a spinning thread that runs and cannot go on has an empty queue, so no wake-up is lost.
  pub Reach-awake :
      {default : M} {messages : List M} {s : Subscriber M}
      → Reach default messages s
      → is_running s.spinner ≡ true
      → spinner_step s ≡ none
      → s.message_queue ≡ []
  unfolding spinner_step
  Reach-awake {default} {messages} {s} r runs stopped =
      (Reach-Orderly r).no_lost_wakeup (asleep_if s.spinner s runs stopped)
    where
      asleep_if :
          (spinner : Spinner M) (s : Subscriber M)
          → is_running spinner ≡ true
          → spinner_step_at spinner s ≡ none
          → spinner ≡ asleep false
      asleep_if not_started s runs stopped = absurd (ground arith)
      asleep_if ended s runs stopped = absurd (ground arith)
      asleep_if at_test s runs stopped = unfold spinner_step_at in absurd (ground arith)
      asleep_if at_queue s runs stopped = unfold spinner_step_at in absurd (ground arith)
      asleep_if (holding m) s runs stopped = unfold spinner_step_at in absurd (ground arith)
      asleep_if (asleep false) s runs stopped = refl
      asleep_if (asleep true) s runs stopped = unfold spinner_step_at in absurd (ground arith)

  -- The spinning thread alone, for some steps or until it waits or ends.
  abbrev pub run_spinner : ℕ → Subscriber M → Subscriber M
  run_spinner zero s = s
  run_spinner (suc n) s = elim (spinner_step s) [ none ↦ s | some s' ↦ run_spinner n s' ]

  pub shut_down-ends :
      (default : M) (s : Subscriber M)
      → is_running s.spinner ≡ true
      → ((run_spinner 3 (shut_down default s)).spinner ≡ ended)
        × ((run_spinner 3 (shut_down default s)).calls ≡ s.calls)
  unfolding shut_down spinner_step spinner_step_at disconnect take_message
  shut_down-ends default s runs = ends s.spinner s.message_queue runs
    where
      ends :
          (spinner : Spinner M) (queue : List M)
          → is_running spinner ≡ true
          → let s' = shut_down default (record s { spinner = spinner; message_queue = queue }) in
            ((run_spinner 3 s').spinner ≡ ended) × ((run_spinner 3 s').calls ≡ s.calls)
      ends not_started queue r = absurd (ground arith)
      ends ended queue r = absurd (ground arith)
      ends at_test queue r = (refl, refl)
      ends at_queue [] r = (refl, refl)
      ends at_queue (m ∷ queue) r = (refl, refl)
      ends (asleep notified) [] r = (refl, refl)
      ends (asleep notified) (m ∷ queue) r = (refl, refl)
      ends (holding m) queue r = (refl, refl)

  -- After the dummy message no spinning thread runs within three steps, and the callback is called no
  -- more.
  pub shut_down-stops :
      (default : M) (s : Subscriber M)
      → let s' = run_spinner 3 (shut_down default s) in
        (is_running s'.spinner ≡ false) × (s'.calls ≡ s.calls)
  unfolding shut_down spinner_step spinner_step_at disconnect
  shut_down-stops default s = by_spinner s.spinner (shut_down-ends default s)
    where
      by_spinner :
          (spinner : Spinner M)
          → (is_running spinner ≡ true
              → let s' = run_spinner 3 (shut_down default (record s { spinner = spinner })) in
                (s'.spinner ≡ ended) × (s'.calls ≡ s.calls))
          → let s' = run_spinner 3 (shut_down default (record s { spinner = spinner })) in
            (is_running s'.spinner ≡ false) × (s'.calls ≡ s.calls)
      by_spinner not_started ends = (refl, refl)
      by_spinner ended ends = (refl, refl)
      by_spinner at_test ends = let (e, same) = ends refl in (ap is_running e, same)
      by_spinner at_queue ends = let (e, same) = ends refl in (ap is_running e, same)
      by_spinner (asleep notified) ends = let (e, same) = ends refl in (ap is_running e, same)
      by_spinner (holding m) ends = let (e, same) = ends refl in (ap is_running e, same)
