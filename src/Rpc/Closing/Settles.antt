-- ===== src/Rpc/Closing/Settles.antt =====
-- A closing in src/socket/bson_rpc_socket/bson_rpc_socket.cpp comes to an end: no thread waits for
-- good, and both ends have closed.
use mros_w24_solution.Common.{
  ℕ, zero, suc, ◌+◌, ◌-◌, ◌≤◌, Bool, true, false, List, [], ◌∷◌, Option, none, some, ◌>>=◌, ◌≡◌,
  ◌≢◌, ◌⊎◌, refl, sym, ◌∙◌, ap, arith, if◌then◌else◌, inl, inr,
}
use mros_w24_solution.Rpc.Closing.{
  Message, closing, other, Thread, receiving, socket_closed, called_back, finished, End, Action,
  begin_close, send_close, enter_wait, wake, receive, call_back, announce, send_request,
  send_close_step, enter_wait_step, wake_step, receive_next, receive_step, call_back_step,
  announce_step, act, Who, first, second, swap, step, Reach,
}
use mros_w24_solution.Rpc.Closing.Holds.{is_receiving, is_finished, calls, has_closing, Half, Holds}
use mros_w24_solution.Rpc.Closing.Keeps.{Reach-Holds, Holds-swap}

-- The steps that no user starts.
abbrev pub is_own : Action → Bool
is_own begin_close = false
is_own send_request = false
is_own _ = true

-- No thread can go on by itself.
abbrev pub Stuck : End × End → Type 0
Stuck ends = (who : Who) (x : Action) → is_own x ≡ true → step who x ends ≡ none

-- An end that has closed: the receiving thread is through, the socket is closed, the closing
-- callback has been called exactly once if there is one, and no thread is inside `close` but those
-- asleep, which are fewer than the calls that have passed its test, or none if none has.
pub record Closed (a : End) : Type 0 where
  pub is_off : a.is_connected ≡ false
  pub socket : a.is_open ≡ false
  pub thread : a.thread ≡ finished
  pub callback : a.callback_calls ≡ (if a.closing_callback_set then 1 else 0)
  pub none_on_the_way : a.tested + (a.at_wait + a.notified) ≡ 0
  pub asleep_le : a.asleep ≤ a.close_calls - 1

-- The same of the steps of one end.
abbrev Halted : End → End → Type 0
Halted a b = (x : Action) → is_own x ≡ true → act x a b ≡ none

Halted-first : (a b : End) → Stuck (a, b) → Halted a b
Halted-first a b s x own = unfold step in s first x own

Halted-second : (a b : End) → Stuck (a, b) → Halted b a
Halted-second a b s x own = nothing (act x b a) (unfold step in s second x own)
  where
    nothing : (r : Option (End × End)) → (r >>= λ ends. some (swap ends)) ≡ none → r ≡ none
    nothing none e = refl
    nothing (some ends) e = absurd (ground arith)

-- What it takes for each step to be out of reach.
call_back_step-none : (t : Thread) (a b : End) → call_back_step t a b ≡ none → t ≢ socket_closed
unfolding call_back_step
call_back_step-none t a b e q = ground arith

announce_step-none : (t : Thread) (a b : End) → announce_step t a b ≡ none → t ≢ called_back
unfolding announce_step
announce_step-none t a b e q = ground arith

send_close_step-none : (n : ℕ) (a b : End) → send_close_step n a b ≡ none → n ≡ 0
unfolding send_close_step
send_close_step-none zero a b e = refl
send_close_step-none (suc n) a b e = absurd (ground arith)

enter_wait_step-none : (n : ℕ) (a b : End) → enter_wait_step n a b ≡ none → n ≡ 0
unfolding enter_wait_step
enter_wait_step-none zero a b e = refl
enter_wait_step-none (suc n) a b e = absurd (ground arith)

wake_step-none : (n : ℕ) (a b : End) → wake_step n a b ≡ none → n ≡ 0
unfolding wake_step
wake_step-none zero a b e = refl
wake_step-none (suc n) a b e = absurd (ground arith)

receive_next-none :
    (l : List Message) (a b : End)
    → receive_next l a b ≡ none
    → (has_closing l ≡ false) × (b.is_open ≡ true)
unfolding receive_next has_closing
receive_next-none [] a b e = (refl, ground arith)
receive_next-none (closing ∷ l) a b e = absurd (ground arith)
receive_next-none (other ∷ l) a b e = absurd (ground arith)

receive_step-none :
    (t : Thread) (a b : End)
    → receive_step t a b ≡ none
    → t ≡ receiving
    → a.is_open ≡ true
    → (has_closing a.inbox ≡ false) × (b.is_open ≡ true)
unfolding receive_step
receive_step-none t a b e q o = receive_next-none a.inbox a b (ground arith)

-- A thread that is halted is in the loop or at its end.
Halted-thread : (a b : End) → Halted a b → (a.thread ≡ receiving) ⊎ (a.thread ≡ finished)
unfolding act
Halted-thread a b h =
    split a.thread (call_back_step-none a.thread a b (h call_back refl))
      (announce_step-none a.thread a b (h announce refl))
  where
    split : (t : Thread) → t ≢ socket_closed → t ≢ called_back → (t ≡ receiving) ⊎ (t ≡ finished)
    split receiving p q = inl refl
    split socket_closed p q = absurd (p refl)
    split called_back p q = absurd (q refl)
    split finished p q = inr refl

-- A thread that waits for a message has nothing before it and an open peer.
Halted-receiving :
    (a b : End)
    → Half a b
    → Halted a b
    → a.thread ≡ receiving
    → (has_closing a.inbox ≡ false) × (b.is_open ≡ true)
unfolding act
Halted-receiving a b v h e =
    receive_step-none a.thread a b (h receive refl) e (v.open_eq ∙ ap is_receiving e)

is_receiving_lem : (t : Thread) → is_receiving t ≡ true → t ≡ receiving
is_receiving_lem t e = ground arith

-- So none waits once an end is off.
off_not_receiving :
    (a b : End)
    → Holds a b
    → Halted a b
    → Halted b a
    → (a.is_connected ≡ false) ⊎ (b.is_connected ≡ false)
    → a.thread ≢ receiving
off_not_receiving a b v h k off e =
    let (empty, peer_open) = Halted-receiving a b v.mine h e in
    let there = is_receiving_lem b.thread (sym v.theirs.open_eq ∙ peer_open) in
    let (peer_empty, _) = Halted-receiving b a v.theirs k there in
    elim off [
      | inl mine ↦
          absurd (
            ground
              (arith, v.mine.told mine (ap is_receiving e) (ap is_receiving there), peer_empty))
      | inr theirs ↦
          absurd (
            ground (arith, v.theirs.told theirs (ap is_receiving there) (ap is_receiving e), empty))
    ]

Halted-close : (a b : End) → Halted a b → a.tested + (a.at_wait + a.notified) ≡ 0
unfolding act
Halted-close a b h = omega (
  arith,
  send_close_step-none a.tested a b (h send_close refl),
  enter_wait_step-none a.at_wait a b (h enter_wait refl),
  wake_step-none a.notified a b (h wake refl),
)

Halted-Closed :
    (a b : End)
    → Holds a b
    → Halted a b
    → Halted b a
    → (a.is_connected ≡ false) ⊎ (b.is_connected ≡ false)
    → Closed a
Halted-Closed a b v h k off = elim (Halted-thread a b h) [
  | inl loops ↦ absurd (off_not_receiving a b v h k off loops)
  | inr ends ↦ record {
    is_off = v.mine.off (ap is_receiving ends);
    socket = v.mine.open_eq ∙ ap is_receiving ends;
    thread = ends;
    callback = v.mine.calls_eq ∙ ap (λ t. calls t a.closing_callback_set) ends;
    none_on_the_way = Halted-close a b h;
    asleep_le = v.mine.left (ap is_finished ends);
  }
]

-- In every state that the threads of both ends reach from a fresh connection, with any number of
-- threads in `close`: if one end is off and no thread can go on by itself, then both ends have closed.
-- No thread is left in `close` of an end if at most one call has passed its test; otherwise those
-- left are asleep in the wait, and fewer than these calls.
pub Reach-Closed :
    {ends : End × End}
    → Reach ends
    → (ends.0.is_connected ≡ false) ⊎ (ends.1.is_connected ≡ false)
    → Stuck ends
    → Closed ends.0 × Closed ends.1
Reach-Closed {ends} r off s =
    let v = Reach-Holds r in
    let h = Halted-first ends.0 ends.1 s in
    let k = Halted-second ends.0 ends.1 s in
    (
      Halted-Closed ends.0 ends.1 v h k off,
      Halted-Closed ends.1 ends.0 (Holds-swap v) k h (elim off [ inl o ↦ inr o | inr o ↦ inl o ]),
    )
