-- ===== src/Rpc/Closing/UserKeeps.antt =====
-- What a user's call of `close` in src/socket/bson_rpc_socket/bson_rpc_socket.cpp keeps of the two
-- ends, and what the closing branch and a send keep.
use mros_w24_solution.Common.{
  ℕ, zero, suc, ◌+◌, ◌≤◌, Bool, true, false, List, Option, none, some, ◌≡◌, refl, ◌∙◌, arith,
  if◌then◌else◌,
}
use mros_w24_solution.Rpc.Closing.{
  Message, closing, receiving, End, send, begin_close_step, send_close_step, return_or_sleep,
  enter_wait_step, wake_step, close_branch,
}
use mros_w24_solution.Rpc.Closing.Holds.{
  is_receiving, inside, has_closing, has_closing-append, Half, Holds,
}

-- The outcome of a step keeps what holds.
abbrev pub Kept : Option (End × End) → Type 0
Kept none = Unit {0}
Kept (some (a, b)) = Holds a b

pub Kept-if : (c : Bool) (r s : Option (End × End)) → Kept r → Kept s → Kept (if c then r else s)
Kept-if true r s k l = k
Kept-if false r s k l = l

pub send-Holds : (x : Message) (a b : End) → Holds a b → Holds a (send x a b)
unfolding send has_closing
send-Holds x a b h = record {
  mine = record {
    open_eq = h.mine.open_eq;
    received_eq = h.mine.received_eq;
    calls_eq = h.mine.calls_eq;
    off = h.mine.off;
    counted = h.mine.counted;
    left = h.mine.left;
    told = λ p q r. ground (arith, has_closing-append x b.inbox, h.mine.told);
  };
  theirs = record {
    open_eq = ground (arith, h.theirs.open_eq);
    received_eq = ground (arith, h.theirs.received_eq);
    calls_eq = ground (arith, h.theirs.calls_eq);
    off = λ p. ground (arith, h.theirs.off);
    counted = ground (arith, h.theirs.counted);
    left = λ p. ground (arith, h.theirs.left);
    told = λ p q r. ground (arith, h.theirs.told);
  };
}

-- The closing branch, also behind a closing message that is taken out of the inbox.
pub close_branch-Holds :
    (a b : End) (rest : List Message)
    → Holds a b
    → a.thread ≡ receiving
    → Kept (some (close_branch (record a { inbox = rest }) b))
unfolding close_branch send has_closing
close_branch-Holds a b rest h e = record {
  mine = record {
    open_eq = refl;
    received_eq = ground (arith, h.mine.received_eq);
    calls_eq = ground (arith, h.mine.calls_eq);
    off = λ p. refl;
    counted = h.mine.counted;
    left = λ p. absurd (ground arith);
    told = λ p q r. ground arith;
  };
  theirs = record {
    open_eq = ground (arith, h.theirs.open_eq);
    received_eq = ground (arith, h.theirs.received_eq);
    calls_eq = ground (arith, h.theirs.calls_eq);
    off = λ p. ground (arith, h.theirs.off);
    counted = ground (arith, h.theirs.counted);
    left = λ p. ground (arith, h.theirs.left);
    told = λ p q r. ground (arith);
  };
}

-- An end's half speaks of the peer's thread and inbox only.
pub seen :
    (a a' b : End)
    → (is_receiving a'.thread ≡ true → is_receiving a.thread ≡ true)
    → has_closing a'.inbox ≡ has_closing a.inbox
    → Half b a
    → Half b a'
seen a a' b loops same h = record {
  open_eq = h.open_eq;
  received_eq = h.received_eq;
  calls_eq = h.calls_eq;
  off = h.off;
  counted = h.counted;
  left = h.left;
  told = λ p q r. same ∙ h.told p q (loops r);
}

pub begin_close-Kept : (a b : End) → Holds a b → Kept (begin_close_step a b)
unfolding begin_close_step
begin_close-Kept a b h = record {
  mine = record {
    open_eq = ground (arith, h.mine.open_eq);
    received_eq = ground (arith, h.mine.received_eq);
    calls_eq = ground (arith, h.mine.calls_eq);
    off = λ p. ground (arith, h.mine.off);
    counted = ground (arith, h.mine.counted);
    left = λ p. ground (arith, h.mine.left);
    told = λ p q r. ground (arith, h.mine.told);
  };
  theirs = seen a _ b (λ r. ground arith) (ground arith) h.theirs;
}

pub send_close-Kept : (n : ℕ) (a b : End) → a.tested ≡ n → Holds a b → Kept (send_close_step n a b)
unfolding send_close_step send has_closing
send_close-Kept zero a b e h = tt
send_close-Kept (suc n) a b e h = record {
  mine = record {
    open_eq = h.mine.open_eq;
    received_eq = h.mine.received_eq;
    calls_eq = h.mine.calls_eq;
    off = λ p. refl;
    counted = omega (arith, h.mine.counted, e);
    left = h.mine.left;
    told = λ p q r.
        ground (arith, has_closing-append closing b.inbox, h.mine.open_eq, h.theirs.open_eq);
  };
  theirs = record {
    open_eq = ground (arith, h.theirs.open_eq);
    received_eq = ground (arith, h.theirs.received_eq);
    calls_eq = ground (arith, h.theirs.calls_eq);
    off = λ p. ground (arith, h.theirs.off);
    counted = ground (arith, h.theirs.counted);
    left = λ p. ground (arith, h.theirs.left);
    told = λ p q r. ground (arith, h.theirs.told);
  };
}

-- A thread that tests the flag returns or goes to sleep, and the number inside does not grow. The
-- record is the end without the thread.
return_or_sleep-Holds :
    (a a' b : End)
    → Holds a b
    → Half a' b
    → inside a' + 1 ≤ a'.close_calls
    → a'.thread ≡ a.thread
    → a'.inbox ≡ a.inbox
    → Holds (return_or_sleep a') b
return_or_sleep-Holds a a' b h m room t i = record {
  mine = record {
    open_eq = ground (arith, m.open_eq);
    received_eq = ground (arith, m.received_eq);
    calls_eq = ground (arith, m.calls_eq);
    off = λ p. ground (arith, m.off);
    counted = ground (arith, room);
    left = λ p. ground (arith, m.left, m.received_eq);
    told = λ p q r. ground (arith, m.told);
  };
  theirs = seen a _ b (λ r. ground (arith, t)) (ground (arith, i)) h.theirs;
}

pub enter_wait-Kept : (n : ℕ) (a b : End) → a.at_wait ≡ n → Holds a b → Kept (enter_wait_step n a b)
unfolding enter_wait_step
enter_wait-Kept zero a b e h = tt
enter_wait-Kept (suc n) a b e h =
    return_or_sleep-Holds a (record a { at_wait = n }) b h
      (record {
        open_eq = h.mine.open_eq;
        received_eq = h.mine.received_eq;
        calls_eq = h.mine.calls_eq;
        off = h.mine.off;
        counted = omega (arith, h.mine.counted, e);
        left = h.mine.left;
        told = h.mine.told;
      })
      (omega (arith, h.mine.counted, e)) refl refl

pub wake-Kept : (n : ℕ) (a b : End) → a.notified ≡ n → Holds a b → Kept (wake_step n a b)
unfolding wake_step
wake-Kept zero a b e h = tt
wake-Kept (suc n) a b e h =
    return_or_sleep-Holds a (record a { notified = n }) b h
      (record {
        open_eq = h.mine.open_eq;
        received_eq = h.mine.received_eq;
        calls_eq = h.mine.calls_eq;
        off = h.mine.off;
        counted = omega (arith, h.mine.counted, e);
        left = h.mine.left;
        told = h.mine.told;
      })
      (omega (arith, h.mine.counted, e)) refl refl
