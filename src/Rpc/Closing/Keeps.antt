-- ===== src/Rpc/Closing/Keeps.antt =====
-- Every step of either end in src/socket/bson_rpc_socket/bson_rpc_socket.cpp keeps what holds of
-- the two ends.
use mathlib.Core.Path.{subst}
use mros_w24_solution.Common.{
  ℕ, zero, suc, true, List, [], ◌∷◌, Option, none, some, ◌>>=◌, ◌≡◌, refl, sym, ap, arith,
}
use mros_w24_solution.Rpc.Closing.{
  Message, closing, other, Thread, receiving, socket_closed, called_back, finished, End, Action,
  begin_close, send_close, enter_wait, wake, receive, call_back, announce, send_request,
  receive_next, receive_step, call_back_step, announce_step, notify_one, act, Who, first, second,
  swap, step, Reach, start, next,
}
use mros_w24_solution.Rpc.Closing.Holds.{has_closing, Holds}
use mros_w24_solution.Rpc.Closing.UserKeeps.{
  Kept, Kept-if, send-Holds, close_branch-Holds, seen, begin_close-Kept, send_close-Kept,
  enter_wait-Kept, wake-Kept,
}

receive_next-Kept :
    (l : List Message) (a b : End)
    → a.inbox ≡ l
    → a.thread ≡ receiving
    → Holds a b
    → Kept (receive_next l a b)
unfolding receive_next has_closing
receive_next-Kept [] a b e r h = Kept-if b.is_open _ _ tt (close_branch-Holds a b a.inbox h r)
receive_next-Kept (closing ∷ rest) a b e r h = close_branch-Holds a b rest h r
receive_next-Kept (other ∷ rest) a b e r h = record {
  mine = record {
    open_eq = h.mine.open_eq;
    received_eq = h.mine.received_eq;
    calls_eq = h.mine.calls_eq;
    off = h.mine.off;
    counted = h.mine.counted;
    left = h.mine.left;
    told = λ p q s. h.mine.told p q s;
  };
  theirs = seen a _ b (λ r. ground arith) (ap has_closing (sym e)) h.theirs;
}

receive-Kept : (t : Thread) (a b : End) → a.thread ≡ t → Holds a b → Kept (receive_step t a b)
unfolding receive_step
receive-Kept receiving a b e h =
    Kept-if a.is_open _ _ (receive_next-Kept a.inbox a b refl e h)
      (close_branch-Holds a b a.inbox h e)
receive-Kept socket_closed a b e h = tt
receive-Kept called_back a b e h = tt
receive-Kept finished a b e h = tt

call_back-Kept : (t : Thread) (a b : End) → a.thread ≡ t → Holds a b → Kept (call_back_step t a b)
unfolding call_back_step
call_back-Kept socket_closed a b e h = record {
  mine = record {
    open_eq = ground (arith, h.mine.open_eq);
    received_eq = ground (arith, h.mine.received_eq);
    calls_eq = ground (arith, h.mine.calls_eq);
    off = λ p. ground (arith, h.mine.off);
    counted = h.mine.counted;
    left = λ p. absurd (ground arith);
    told = λ p q r. ground arith;
  };
  theirs = seen a _ b (λ r. ground arith) refl h.theirs;
}
call_back-Kept receiving a b e h = tt
call_back-Kept called_back a b e h = tt
call_back-Kept finished a b e h = tt

-- The notice: of the threads that are asleep one fewer is, so that fewer are than have called.
notify_one-Holds :
    (n : ℕ) (a b : End)
    → a.asleep ≡ n
    → a.thread ≡ called_back
    → Holds a b
    → Holds (notify_one n (record a { thread = finished; closing_message_received = true })) b
unfolding notify_one
notify_one-Holds zero a b n e h = record {
  mine = record {
    open_eq = ground (arith, h.mine.open_eq);
    received_eq = refl;
    calls_eq = ground (arith, h.mine.calls_eq);
    off = λ p. ground (arith, h.mine.off);
    counted = h.mine.counted;
    left = λ p. omega (arith, n);
    told = λ p q r. ground arith;
  };
  theirs = seen a _ b (λ r. ground arith) refl h.theirs;
}
notify_one-Holds (suc k) a b n e h = record {
  mine = record {
    open_eq = ground (arith, h.mine.open_eq);
    received_eq = refl;
    calls_eq = ground (arith, h.mine.calls_eq);
    off = λ p. ground (arith, h.mine.off);
    counted = omega (arith, n, h.mine.counted);
    left = λ p. omega (arith, n, h.mine.counted);
    told = λ p q r. ground arith;
  };
  theirs = seen a _ b (λ r. ground arith) refl h.theirs;
}

announce-Kept : (t : Thread) (a b : End) → a.thread ≡ t → Holds a b → Kept (announce_step t a b)
unfolding announce_step
announce-Kept called_back a b e h = notify_one-Holds a.asleep a b refl e h
announce-Kept receiving a b e h = tt
announce-Kept socket_closed a b e h = tt
announce-Kept finished a b e h = tt

act-Kept : (x : Action) (a b : End) → Holds a b → Kept (act x a b)
unfolding act
act-Kept begin_close a b h = begin_close-Kept a b h
act-Kept send_close a b h = send_close-Kept a.tested a b refl h
act-Kept enter_wait a b h = enter_wait-Kept a.at_wait a b refl h
act-Kept wake a b h = wake-Kept a.notified a b refl h
act-Kept receive a b h = receive-Kept a.thread a b refl h
act-Kept call_back a b h = call_back-Kept a.thread a b refl h
act-Kept announce a b h = announce-Kept a.thread a b refl h
act-Kept send_request a b h = send-Holds other a b h

pub Holds-swap : {a b : End} → Holds a b → Holds b a
Holds-swap h = record { mine = h.theirs; theirs = h.mine }

step-Kept : (who : Who) (x : Action) (a b : End) → Holds a b → Kept (step who x (a, b))
unfolding step swap
step-Kept first x a b h = act-Kept x a b h
step-Kept second x a b h = swapped (act x b a) (act-Kept x b a (Holds-swap h))
  where
    swapped : (r : Option (End × End)) → Kept r → Kept (r >>= λ ends. some (swap ends))
    swapped none k = tt
    swapped (some (b, a)) k = Holds-swap k

-- At every moment of every run.
pub Reach-Holds : {ends : End × End} → Reach ends → Holds ends.0 ends.1
Reach-Holds (start set set' inbox inbox') = record {
  mine = record {
    open_eq = refl;
    received_eq = refl;
    calls_eq = refl;
    off = λ p. ground arith;
    counted = omega arith;
    left = λ p. omega arith;
    told = λ p q r. ground arith;
  };
  theirs = record {
    open_eq = refl;
    received_eq = refl;
    calls_eq = refl;
    off = λ p. ground arith;
    counted = omega arith;
    left = λ p. omega arith;
    told = λ p q r. ground arith;
  };
}
Reach-Holds (next {ends} who x before e) =
    subst Kept e (step-Kept who x ends.0 ends.1 (Reach-Holds before))
