-- ===== src/Rpc/Closing/Terminates.antt =====
-- The threads of a closing in src/socket/bson_rpc_socket/bson_rpc_socket.cpp take boundedly many
-- steps.
use mathlib.Core.Path.{subst}
use mros_w24_solution.Common.{
  ℕ, zero, suc, ◌*◌, ◌+◌, ◌<◌, ◌≤◌, Bool, true, false, List, [], ◌∷◌, Option, none, some, ◌>>=◌,
  ◌≡◌, refl, ap, arith, if◌then◌else◌, length, length-append,
}
use mros_w24_solution.Rpc.Closing.{
  Message, closing, other, Thread, receiving, socket_closed, called_back, finished, End, send,
  Action, begin_close, send_close, enter_wait, wake, receive, call_back, announce, send_request,
  send_close_step, return_or_sleep, enter_wait_step, wake_step, notify_one, close_branch,
  receive_next, receive_step, call_back_step, announce_step, act, Who, first, second, swap, step,
}
use mros_w24_solution.Rpc.Closing.Settles.{is_own}

-- A thread that is asleep takes no step before it is notified.
abbrev close_weight : End → ℕ
close_weight a = 3 * a.tested + (a.at_wait + a.notified)

abbrev thread_weight : Thread → ℕ
thread_weight receiving = 5
thread_weight socket_closed = 3
thread_weight called_back = 2
thread_weight finished = 0

abbrev end_weight : End → ℕ
end_weight a = close_weight a + thread_weight a.thread + length a.inbox

-- A bound on the steps that both ends can still take by themselves.
abbrev pub weight : End × End → ℕ
weight ends = end_weight ends.0 + end_weight ends.1

-- A step leaves less than `n`.
abbrev Lighter : ℕ → Option (End × End) → Type 0
Lighter n none = Unit {0}
Lighter n (some ends) = weight ends < n

end_weight-send : (x : Message) (a b : End) → end_weight (send x a b) ≤ end_weight b + 1
unfolding send
end_weight-send x a b = ground (arith, length-append b.inbox (x ∷ []))

Lighter-if :
    (n : ℕ) (c : Bool) (r s : Option (End × End))
    → Lighter n r
    → Lighter n s
    → Lighter n (if c then r else s)
Lighter-if n true r s k l = k
Lighter-if n false r s k l = l

close_branch-weight :
    (a b : End) (rest : List Message)
    → a.thread ≡ receiving
    → length rest ≤ length a.inbox
    → weight (close_branch (record a { inbox = rest }) b) < weight (a, b)
unfolding close_branch
close_branch-weight a b rest e h =
    ground (arith, end_weight-send closing (record a { inbox = rest }) b, ap thread_weight e)

send_close_step-Lighter :
    (n : ℕ) (a b : End) → a.tested ≡ n → Lighter (weight (a, b)) (send_close_step n a b)
unfolding send_close_step
send_close_step-Lighter zero a b e = tt
send_close_step-Lighter (suc n) a b e = omega (arith, end_weight-send closing a b, e)

end_weight-return_or_sleep : (a : End) → end_weight (return_or_sleep a) ≡ end_weight a
end_weight-return_or_sleep a = ground arith

enter_wait_step-Lighter :
    (n : ℕ) (a b : End) → a.at_wait ≡ n → Lighter (weight (a, b)) (enter_wait_step n a b)
unfolding enter_wait_step
enter_wait_step-Lighter zero a b e = tt
enter_wait_step-Lighter (suc n) a b e =
    omega (arith, end_weight-return_or_sleep (record a { at_wait = n }), e)

wake_step-Lighter : (n : ℕ) (a b : End) → a.notified ≡ n → Lighter (weight (a, b)) (wake_step n a b)
unfolding wake_step
wake_step-Lighter zero a b e = tt
wake_step-Lighter (suc n) a b e =
    omega (arith, end_weight-return_or_sleep (record a { notified = n }), e)

end_weight-notify_one : (n : ℕ) (a : End) → end_weight (notify_one n a) ≤ end_weight a + 1
unfolding notify_one
end_weight-notify_one zero a = omega arith
end_weight-notify_one (suc n) a = omega arith

receive_next-Lighter :
    (l : List Message) (a b : End)
    → a.inbox ≡ l
    → a.thread ≡ receiving
    → Lighter (weight (a, b)) (receive_next l a b)
unfolding receive_next
receive_next-Lighter [] a b e r =
    Lighter-if _ b.is_open _ _ tt (close_branch-weight a b a.inbox r (omega arith))
receive_next-Lighter (closing ∷ rest) a b e r =
    close_branch-weight a b rest r (omega (arith, ap (λ (l : List Message). length l) e))
receive_next-Lighter (other ∷ rest) a b e r = omega (arith, ap (λ (l : List Message). length l) e)

receive_step-Lighter :
    (t : Thread) (a b : End) → a.thread ≡ t → Lighter (weight (a, b)) (receive_step t a b)
unfolding receive_step
receive_step-Lighter receiving a b e =
    Lighter-if _ a.is_open _ _ (receive_next-Lighter a.inbox a b refl e)
      (close_branch-weight a b a.inbox e (omega arith))
receive_step-Lighter socket_closed a b e = tt
receive_step-Lighter called_back a b e = tt
receive_step-Lighter finished a b e = tt

call_back_step-Lighter :
    (t : Thread) (a b : End) → a.thread ≡ t → Lighter (weight (a, b)) (call_back_step t a b)
unfolding call_back_step
call_back_step-Lighter socket_closed a b e = omega (arith, ap thread_weight e)
call_back_step-Lighter receiving a b e = tt
call_back_step-Lighter called_back a b e = tt
call_back_step-Lighter finished a b e = tt

announce_step-Lighter :
    (t : Thread) (a b : End) → a.thread ≡ t → Lighter (weight (a, b)) (announce_step t a b)
unfolding announce_step
announce_step-Lighter called_back a b e = omega (
  arith,
  end_weight-notify_one a.asleep (record a { thread = finished; closing_message_received = true }),
  ap thread_weight e,
)
announce_step-Lighter receiving a b e = tt
announce_step-Lighter socket_closed a b e = tt
announce_step-Lighter finished a b e = tt

act-Lighter : (x : Action) (a b : End) → is_own x ≡ true → Lighter (weight (a, b)) (act x a b)
unfolding act
act-Lighter begin_close a b own = absurd (ground arith)
act-Lighter send_request a b own = absurd (ground arith)
act-Lighter send_close a b own = send_close_step-Lighter a.tested a b refl
act-Lighter enter_wait a b own = enter_wait_step-Lighter a.at_wait a b refl
act-Lighter wake a b own = wake_step-Lighter a.notified a b refl
act-Lighter receive a b own = receive_step-Lighter a.thread a b refl
act-Lighter call_back a b own = call_back_step-Lighter a.thread a b refl
act-Lighter announce a b own = announce_step-Lighter a.thread a b refl

step-Lighter :
    (who : Who) (x : Action) (ends : End × End)
    → is_own x ≡ true
    → Lighter (weight ends) (step who x ends)
unfolding step swap
step-Lighter first x (a, b) own = act-Lighter x a b own
step-Lighter second x (a, b) own = swapped (act x b a) (act-Lighter x b a own)
  where
    swapped :
        (r : Option (End × End))
        → Lighter (weight (b, a)) r
        → Lighter (weight (a, b)) (r >>= λ ends. some (swap ends))
    swapped none k = tt
    swapped (some ends) k = omega (arith, k)

-- Every step that a thread takes by itself, that is, every step but a new call of `close` or of
-- `sendRequest`, lowers the weight of the two ends.
pub step-weight :
    (who : Who) (x : Action) (ends ends' : End × End)
    → is_own x ≡ true
    → step who x ends ≡ some ends'
    → weight ends' < weight ends
step-weight who x ends ends' own e = subst (Lighter (weight ends)) e (step-Lighter who x ends own)
