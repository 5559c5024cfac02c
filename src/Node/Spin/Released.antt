-- ===== src/Node/Spin/Released.antt =====
-- How `spin` of src/mros/node.cpp ends.
use mathlib.Core.Path.{subst}
use mros_w24_solution.Common.{
  ℕ, Bool, true, false, some, ◌≡◌, refl, Whenever, Whenever-some, Whenever-bind,
}
use mros_w24_solution.Node.Spin.{
  User, before_spin, at_test, about_to_wait, asleep, after_spin, Leaver, before_leaving,
  flag_cleared, after_leaving, Spinning, user_step_at, user_step, wake_at, wake, leaver_step_at,
  leaver_step, spin_all,
}

-- What holds of the flag, the user thread and the notice while `disconnect` is where it is.
abbrev Holds : Leaver → User → Bool → Bool → Type 0
Holds before_leaving after_spin connected missed = ⊥
Holds before_leaving user connected missed = (connected ≡ true) × (missed ≡ false)
Holds flag_cleared user connected missed = (connected ≡ false) × (missed ≡ false)
Holds after_leaving about_to_wait connected missed = (connected ≡ false) × (missed ≡ true)
Holds after_leaving asleep connected missed = (connected ≡ false) × (missed ≡ true)
Holds after_leaving user connected missed = connected ≡ false

from_before : (c m : Bool) (l : Leaver) → Holds l before_spin c m → Holds l at_test c m
from_before c m before_leaving h = h
from_before c m flag_cleared h = h
from_before c m after_leaving h = h

from_asleep : (c m : Bool) (l : Leaver) → Holds l asleep c m → Holds l at_test c m
from_asleep c m before_leaving h = h
from_asleep c m flag_cleared h = h
from_asleep c m after_leaving (off, missed) = off

fresh_before : (c m : Bool) (u : User) → Holds before_leaving u c m → m ≡ false
fresh_before c m before_spin (on, fresh) = fresh
fresh_before c m at_test (on, fresh) = fresh
fresh_before c m about_to_wait (on, fresh) = fresh
fresh_before c m asleep (on, fresh) = fresh
fresh_before c m after_spin h = absurd h

on_before : (c m : Bool) (u : User) → Holds before_leaving u c m → c ≡ true
on_before c m before_spin (on, fresh) = on
on_before c m at_test (on, fresh) = on
on_before c m about_to_wait (on, fresh) = on
on_before c m asleep (on, fresh) = on
on_before c m after_spin h = absurd h

off_at_end : (l : Leaver) (c m : Bool) → Holds l after_spin c m → c ≡ false
off_at_end before_leaving c m h = absurd h
off_at_end flag_cleared c m (off, fresh) = off
off_at_end after_leaving c m off = off

module _ {M : Type 0} where
  -- A connected node before either thread has begun.
  abbrev pub Fresh : Spinning M → Type 0
  Fresh s =
      (s.connected ≡ true)
      × (s.user ≡ before_spin)
      × (s.leaver ≡ before_leaving)
      × (s.missed ≡ false)

  pub data Reach : Spinning M → Type 0 where
    start : {s : Spinning M} → Fresh s → Reach s
    by_user :
        {s s' : Spinning M} (alive : ℕ → Bool) → Reach s → user_step alive s ≡ some s' → Reach s'
    by_leaver :
        {s s' : Spinning M} (alive : ℕ → Bool) → Reach s → leaver_step alive s ≡ some s' → Reach s'
    by_chance : {s s' : Spinning M} → Reach s → wake s ≡ some s' → Reach s'

  abbrev Inv : Spinning M → Type 0
  Inv s = Holds s.leaver s.user s.connected s.missed

  -- The state with the fields that the steps look at.
  abbrev with_fields : Leaver → User → Bool → Bool → Spinning M → Spinning M
  with_fields l u c m s = record s { leaver = l; user = u; connected = c; missed = m }

  user_step_at-Inv :
      (l : Leaver) (u : User) (c m : Bool) (alive : ℕ → Bool) (s : Spinning M)
      → Holds l u c m
      → Whenever Inv (user_step_at u alive (with_fields l u c m s))
  unfolding user_step_at
  user_step_at-Inv l before_spin c m alive s h =
      Whenever-bind Inv (spin_all alive s.subscribers s.store) _ (λ store done. from_before c m l h)
  user_step_at-Inv before_leaving at_test true m alive s h = h
  user_step_at-Inv before_leaving at_test false m alive s (on, fresh) = absurd (cc on)
  user_step_at-Inv flag_cleared at_test true m alive s (off, fresh) = absurd (cc off)
  user_step_at-Inv flag_cleared at_test false m alive s h = h
  user_step_at-Inv after_leaving at_test true m alive s off = absurd (cc off)
  user_step_at-Inv after_leaving at_test false m alive s h = h
  user_step_at-Inv before_leaving about_to_wait c m alive s h = h
  user_step_at-Inv flag_cleared about_to_wait c m alive s h = h
  user_step_at-Inv after_leaving about_to_wait c m alive s h = h
  user_step_at-Inv l asleep c m alive s h = tt
  user_step_at-Inv l after_spin c m alive s h = tt

  wake_at-Inv :
      (l : Leaver) (u : User) (c m : Bool) (s : Spinning M)
      → Holds l u c m
      → Whenever Inv (wake_at u (with_fields l u c m s))
  unfolding wake_at
  wake_at-Inv l asleep c m s h = from_asleep c m l h
  wake_at-Inv l _ c m s h = tt

  leaver_step_at-Inv :
      (l : Leaver) (u : User) (c m : Bool) (alive : ℕ → Bool) (s : Spinning M)
      → Holds l u c m
      → Whenever Inv (leaver_step_at l alive (with_fields l u c m s))
  unfolding leaver_step_at
  leaver_step_at-Inv before_leaving after_spin c m alive s h = absurd h
  leaver_step_at-Inv before_leaving u true m alive s h = (refl, fresh_before true m u h)
  leaver_step_at-Inv before_leaving u false m alive s h = absurd (cc (on_before false m u h))
  leaver_step_at-Inv flag_cleared before_spin c m alive s (off, fresh) = off
  leaver_step_at-Inv flag_cleared at_test c m alive s (off, fresh) = off
  leaver_step_at-Inv flag_cleared about_to_wait c m alive s (off, fresh) = (off, rw fresh refl)
  leaver_step_at-Inv flag_cleared asleep c m alive s (off, fresh) = off
  leaver_step_at-Inv flag_cleared after_spin c m alive s (off, fresh) = off
  leaver_step_at-Inv after_leaving u c m alive s h = tt

  user_step-Inv : (alive : ℕ → Bool) (s : Spinning M) → Inv s → Whenever Inv (user_step alive s)
  unfolding user_step
  user_step-Inv alive s = user_step_at-Inv s.leaver s.user s.connected s.missed alive s

  leaver_step-Inv : (alive : ℕ → Bool) (s : Spinning M) → Inv s → Whenever Inv (leaver_step alive s)
  unfolding leaver_step
  leaver_step-Inv alive s = leaver_step_at-Inv s.leaver s.user s.connected s.missed alive s

  wake-Inv : (s : Spinning M) → Inv s → Whenever Inv (wake s)
  unfolding wake
  wake-Inv s = wake_at-Inv s.leaver s.user s.connected s.missed s

  Reach-Inv : {s : Spinning M} → Reach s → Inv s
  Reach-Inv (start {s} (on, user, leaver, fresh)) = rw (user, leaver) (on, fresh)
  Reach-Inv (by_user {s} alive before done) =
      Whenever-some Inv (user_step alive s) (user_step-Inv alive s (Reach-Inv before)) done
  Reach-Inv (by_leaver {s} alive before done) =
      Whenever-some Inv (leaver_step alive s) (leaver_step-Inv alive s (Reach-Inv before)) done
  Reach-Inv (by_chance {s} before done) =
      Whenever-some Inv (wake s) (wake-Inv s (Reach-Inv before)) done

  -- The user thread has left `spin`, or has not come to it, or leaves it with its next step.
  abbrev pub Released : User → (ℕ → Bool) → Spinning M → Type 0
  Released at_test alive s =
      (s' : Spinning M) × (user_step alive s ≡ some s') × (s'.user ≡ after_spin)
  Released about_to_wait alive s = ⊥
  Released asleep alive s = ⊥
  Released _ alive s = Unit {0}

  Released-user :
      (u : User) (alive : ℕ → Bool) (s : Spinning M)
      → Holds after_leaving u s.connected s.missed
      → s.missed ≡ false
      → s.user ≡ u
      → Released u alive s
  unfolding user_step user_step_at
  Released-user before_spin alive s off fresh e = tt
  Released-user at_test alive s off fresh e =
      (record s { user = after_spin }, rw (e, off) refl, refl)
  Released-user about_to_wait alive s (off, missed) fresh e = absurd (cc (missed, fresh))
  Released-user asleep alive s (off, missed) fresh e = absurd (cc (missed, fresh))
  Released-user after_spin alive s off fresh e = tt

  -- However the two threads take turns, `spin` ends only once the node is disconnected; and once
  -- `disconnect` has ended, the user thread does not wait any more and leaves `spin` with its next
  -- step, unless the notice has come while it was between its test and its wait.
  pub Reach-Released :
      {s : Spinning M}
      → Reach s
      → (alive : ℕ → Bool)
      → (s.user ≡ after_spin → s.connected ≡ false)
        × (s.leaver ≡ after_leaving → s.missed ≡ false → Released s.user alive s)
  Reach-Released {s} h alive =
      let i = Reach-Inv h in
      (
        λ e.
            off_at_end s.leaver s.connected s.missed
              (subst (λ u. Holds s.leaver u s.connected s.missed) e i),
        λ e fresh.
            Released-user s.user alive s (subst (λ l. Holds l s.user s.connected s.missed) e i)
              fresh refl,
      )
