-- ===== src/Rpc/Closing/Tests.antt =====
-- A closing of two ends: the first end's user calls `close` while a request is on its way to it.
use mros_w24_solution.Common.{
  List, ◌<◌, true, false, [], ◌∷◌, Option, none, some, ◌≡◌, refl, inl, arith,
}
use mros_w24_solution.Rpc.Closing.{
  Who, Action, finished, wake, other, begin_close, send_close, enter_wait, wake, receive, call_back,
  announce, send_request, End, connected_end, first, second, step, Reach, start, next,
}
use mros_w24_solution.Rpc.Closing.Settles.{Stuck, Closed, Reach-Closed}
use mros_w24_solution.Rpc.Closing.Terminates.{weight, step-weight}

abbrev both : End × End
both = (connected_end true (other ∷ []), connected_end true [])

abbrev taken : Option (End × End) → End × End
taken none = both
taken (some ends) = ends

abbrev after_begin : End × End
after_begin = taken (step first begin_close both)

abbrev after_send : End × End
after_send = taken (step first send_close after_begin)

abbrev after_receive : End × End
after_receive = taken (step second receive after_send)

abbrev after_call : End × End
after_call = taken (step second call_back after_receive)

abbrev after_announce : End × End
after_announce = taken (step second announce after_call)

abbrev after_request : End × End
after_request = taken (step first receive after_announce)

abbrev after_answer : End × End
after_answer = taken (step first receive after_request)

abbrev after_own_call : End × End
after_own_call = taken (step first call_back after_answer)

abbrev after_own_announce : End × End
after_own_announce = taken (step first announce after_own_call)

abbrev at_last : End × End
at_last = taken (step first enter_wait after_own_announce)

at_last-Reach : Reach at_last
unfolding step
at_last-Reach =
    next first enter_wait
      (next first announce
        (next first call_back
          (next first receive
            (next first receive
              (next second announce
                (next second call_back
                  (next second receive
                    (next first send_close
                      (next first begin_close (start true true (other ∷ []) []) refl) refl)
                    refl)
                  refl)
                refl)
              refl)
            refl)
          refl)
        refl)
      refl

at_last_off : at_last.0.is_connected ≡ false
unfolding step
at_last_off = refl

at_last-Stuck : Stuck at_last
unfolding step
at_last-Stuck first send_close own = refl
at_last-Stuck first enter_wait own = refl
at_last-Stuck first wake own = refl
at_last-Stuck first receive own = refl
at_last-Stuck first call_back own = refl
at_last-Stuck first announce own = refl
at_last-Stuck second send_close own = refl
at_last-Stuck second enter_wait own = refl
at_last-Stuck second wake own = refl
at_last-Stuck second receive own = refl
at_last-Stuck second call_back own = refl
at_last-Stuck second announce own = refl
at_last-Stuck first begin_close own = absurd (ground (arith, own))
at_last-Stuck first send_request own = absurd (ground (arith, own))
at_last-Stuck second begin_close own = absurd (ground (arith, own))
at_last-Stuck second send_request own = absurd (ground (arith, own))

Reach-Closed_example : Closed at_last.0 × Closed at_last.1
Reach-Closed_example = Reach-Closed at_last-Reach (inl at_last_off) at_last-Stuck

second_receives : step second receive after_send ≡ some after_receive
unfolding step
second_receives = refl

step-weight_example : weight after_receive < weight after_send
step-weight_example = step-weight second receive after_send after_receive refl second_receives

-- Two threads close an end that was connected when both tested: the notice reaches one of them, and
-- the other sleeps on after everything else has ended.
abbrev run : List (Who × Action) → End × End → End × End
run [] ends = ends
run ((who, x) ∷ rest) ends = run rest (taken (step who x ends))

abbrev two_callers : End × End
two_callers =
    run
      ((first, begin_close)
        ∷ (first, begin_close)
        ∷ (first, send_close)
        ∷ (first, send_close)
        ∷ (first, enter_wait)
        ∷ (first, enter_wait)
        ∷ (second, receive)
        ∷ (second, call_back)
        ∷ (second, announce)
        ∷ (first, receive)
        ∷ (first, receive)
        ∷ (first, call_back)
        ∷ (first, announce)
        ∷ (first, wake)
        ∷ [])
      both

one_sleeps :
    (two_callers.0.thread ≡ finished) × (two_callers.0.asleep ≡ 1) × (two_callers.0.notified ≡ 0)
unfolding step
one_sleeps = (refl, refl, refl)
