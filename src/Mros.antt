-- ===== src/Mros.antt =====
-- include/mros/mros.hpp and src/mros/mros.cpp: the one instance of a process, and what ctrl+C does.
-- `W` is all that the registered routines change. A routine returns; `none` as a result is an
-- exception or a use of the null pointer.
pub mod Interrupt
use mros_w24_solution.Common.{
  ℕ, Bool, true, false, List, [], ◌∷◌, ◌++◌, Option, none, some, ◌>>=◌, nat_eq, if◌then◌else◌,
}

pub record Mros (W : Type 0) : Type 0 where
  pub active : Bool
  pub deactivate_routines : List (W → W)

-- The signal of ctrl+C.
abbrev pub sigint : ℕ
sigint = 2

module _ {W : Type 0} where
  -- `init` on the static pointer `mros_ptr_`: it throws if the instance is there.
  pub init : Option (Mros W) → Option (Mros W)
  init none = some (record { active = true; deactivate_routines = [] })
  init (some m) = none

  -- `active`
  pub active : Option (Mros W) → Option Bool
  active p = p >>= λ (m : Mros W). some m.active

  -- `registerDeactivateRoutine`
  pub register_deactivate_routine : (W → W) → Option (Mros W) → Option (Mros W)
  register_deactivate_routine r p = do
    m ← p
    some (record m { deactivate_routines = m.deactivate_routines ++ r ∷ [] })

  -- The loop of `deactivate`
  pub run_routines : List (W → W) → W → W
  run_routines [] w = w
  run_routines (r ∷ routines) w = run_routines routines (r w)

  -- `deactivate`
  pub deactivate : Mros W → W → Mros W × W
  unfolding run_routines
  deactivate m w = (record m { active = false }, run_routines m.deactivate_routines w)

  handle_signal_of : ℕ → Mros W → W → Option (Mros W) × W
  unfolding deactivate
  handle_signal_of signal m w =
      let (m', w') = deactivate m w in if nat_eq signal sigint then (some m', w') else (some m, w)

  -- `staticHandleSignal`
  pub handle_signal : ℕ → Option (Mros W) → W → Option (Mros W) × W
  unfolding handle_signal_of
  handle_signal signal none w = (none, w)
  handle_signal signal (some m) w = handle_signal_of signal m w
