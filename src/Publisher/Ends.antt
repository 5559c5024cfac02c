-- ===== src/Publisher/Ends.antt =====
-- How the accepting thread of a publisher of include/mros/publisher.hpp ends.
use mathlib.Core.Path.{subst}
use mros_w24_solution.Common.{
  ℕ, Bool, true, false, List, [], ◌∷◌, Option, none, some, if◌then◌else◌, ◌≡◌, ◌≢◌, refl,
}
use mros_w24_solution.Publisher.{
  Publisher, Acceptor, at_test, at_accept, at_close, at_clear, ended, at_push, Accepted, nothing,
  failed, connection, erase_failed, publish, disconnect, accept_step, accept_step_at,
}
use mros_w24_solution.Publisher.Schedules.{
  Action, publishes, accepts, disconnects, act, Reach, start, next,
}

module _ {ℓ} {M : Type ℓ} where
  -- The accepting thread alone, with what each call of `acceptConnection` would give.
  abbrev pub accept_all : List Accepted → Publisher M → Option (Publisher M)
  accept_all [] p = some p
  accept_all (a ∷ results) p = elim (accept_step a p) [
    | none ↦ none
    | some p' ↦ accept_all results p'
  ]

  -- What a publisher is once its accepting thread has ended.
  abbrev pub over : Publisher M → Publisher M
  over p = record p {
    connected = false;
    acceptor = ended;
    server_open = false;
    subscriber_connections = [];
  }

  -- What holds where the accepting thread is.
  abbrev pub Leaves : Acceptor → Publisher M → Type 0
  Leaves at_close p = p.connected ≡ false
  Leaves at_clear p = (p.connected ≡ false) × (p.server_open ≡ false)
  Leaves ended p =
      (p.connected ≡ false) × ((p.server_open ≡ false) × (p.subscriber_connections ≡ []))
  Leaves at_test p = p.server_open ≡ true
  Leaves at_accept p = p.server_open ≡ true
  Leaves (at_push c) p = p.server_open ≡ true

  Outcome : Option (Publisher M) → Type 0
  Outcome none = Unit {0}
  Outcome (some p) = Leaves p.acceptor p

  accept_step-Outcome :
      (acceptor : Acceptor) (a : Accepted) (p : Publisher M)
      → p.acceptor ≡ acceptor
      → Leaves acceptor p
      → Outcome (accept_step_at acceptor a p)
  unfolding accept_step_at Outcome
  accept_step-Outcome at_test a p e h = tests p.connected refl
    where
      tests :
          (on : Bool)
          → p.connected ≡ on
          → Outcome (some (record p { acceptor = if on then at_accept else at_close }))
      tests true on = h
      tests false off = off
  accept_step-Outcome at_accept nothing p e h = h
  accept_step-Outcome at_accept failed p e h = tt
  accept_step-Outcome at_accept (connection c) p e h = h
  accept_step-Outcome (at_push c) a p e h = h
  accept_step-Outcome at_close a p e h = (h, refl)
  accept_step-Outcome at_clear a p e (off, closed) = (off, (closed, refl))
  accept_step-Outcome ended a p e h = rw e h

  publish-Leaves :
      (acceptor : Acceptor) (sends : ℕ → Bool) (m : M) (p : Publisher M)
      → Leaves acceptor p
      → Leaves acceptor (publish sends m p)
  unfolding publish erase_failed
  publish-Leaves at_test sends m p h = h
  publish-Leaves at_accept sends m p h = h
  publish-Leaves (at_push c) sends m p h = h
  publish-Leaves at_close sends m p h = h
  publish-Leaves at_clear sends m p h = h
  publish-Leaves ended sends m p (off, (closed, empty)) = (off, (closed, rw empty refl))

  disconnect-Leaves :
      (acceptor : Acceptor) (p : Publisher M) → Leaves acceptor p → Leaves acceptor (disconnect p)
  unfolding disconnect
  disconnect-Leaves at_test p h = h
  disconnect-Leaves at_accept p h = h
  disconnect-Leaves (at_push c) p h = h
  disconnect-Leaves at_close p h = refl
  disconnect-Leaves at_clear p (off, closed) = (refl, closed)
  disconnect-Leaves ended p (off, rest) = (refl, rest)

  act-Outcome : (a : Action M) (p : Publisher M) → Leaves p.acceptor p → Outcome (act a p)
  unfolding act Outcome accept_step publish disconnect
  act-Outcome (publishes sends m) p h = publish-Leaves p.acceptor sends m p h
  act-Outcome (accepts a) p h = accept_step-Outcome p.acceptor a p refl h
  act-Outcome disconnects p h = disconnect-Leaves p.acceptor p h

  pub Reach-Leaves :
      {messages : List M} {used : List ℕ} {p : Publisher M}
      → Reach messages used p
      → Leaves p.acceptor p
  unfolding Outcome
  Reach-Leaves start = refl
  Reach-Leaves (next {messages} {used} {p} {p'} a before new done) =
      subst Outcome done (act-Outcome a p (Reach-Leaves before))

  accept_all-over :
      (acceptor : Acceptor) (a b c d e : Accepted) (p : Publisher M)
      → p.acceptor ≡ acceptor
      → a ≢ failed
      → Leaves acceptor p
      → accept_all (a ∷ b ∷ c ∷ d ∷ e ∷ []) (record p { connected = false; acceptor = acceptor })
        ≡ some (over p)
  unfolding accept_step accept_step_at
  accept_all-over at_test a b c d e p here runs h = refl
  accept_all-over at_accept nothing b c d e p here runs h = refl
  accept_all-over at_accept failed b c d e p here runs h = absurd (runs refl)
  accept_all-over at_accept (connection n) b c d e p here runs h = refl
  accept_all-over (at_push n) a b c d e p here runs h = refl
  accept_all-over at_close a b c d e p here runs h = refl
  accept_all-over at_clear a b c d e p here runs (off, closed) = rw closed refl
  accept_all-over ended a b c d e p here runs (off, (closed, empty)) = rw (closed, empty) refl

  -- Whatever the threads have done, the accepting thread ends within five steps of `disconnect`, if
  -- the call of `acceptConnection` that is under way does not throw.
  pub Reach-over :
      {messages : List M} {used : List ℕ} {p : Publisher M} (a b c d e : Accepted)
      → Reach messages used p
      → a ≢ failed
      → accept_all (a ∷ b ∷ c ∷ d ∷ e ∷ []) (disconnect p) ≡ some (over p)
  unfolding disconnect
  Reach-over {p = p} a b c d e r runs =
      accept_all-over p.acceptor a b c d e p refl runs (Reach-Leaves r)
