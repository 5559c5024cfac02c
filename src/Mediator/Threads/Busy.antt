-- ===== src/Mediator/Threads/Busy.antt =====
-- The threads of src/mediator/mediator.cpp that are in a handler: their nodes are connected.
use mros_w24_solution.Common.{
  String, Bool, true, false, ◌≡◌, refl, ◌==◌, eq_iff, if◌then◌else◌, is_some, arith,
}
use mros_w24_solution.Json.{JsonLib}
use mros_w24_solution.Mediator.{Mediator}
use mros_w24_solution.Mediator.Registry.{Registry}
use mros_w24_solution.Mediator.Threads.{Pending, idle, World, then_in}

module _ ⦃json : JsonLib⦄ where
  abbrev pub is_idle : Pending → Bool
  is_idle idle = true
  is_idle _ = false

  is_idle-if :
      (b : Bool) (p q : Pending)
      → is_idle (if b then p else q) ≡ (if b then is_idle p else is_idle q)
  is_idle-if true p q = refl
  is_idle-if false p q = refl

  -- A node whose handler is under way is connected.
  abbrev pub Occupied : World → Registry → Type 0
  Occupied w r = (n : String) → is_idle (w.pending n) ≡ false → is_some (r.connection n) ≡ true

  -- A part of a handler of the node, after which the node is connected or its handler has ended.
  pub then_in-Occupied :
      (w : World) (r r' : Registry) (uri : String) (p : Pending) (m : Mediator)
      → Occupied w r
      → (is_idle p ≡ false → is_some (r'.connection uri) ≡ true)
      → ((n : String) → (uri == n) ≡ false → r'.connection n ≡ r.connection n)
      → Occupied (then_in uri p m w) r'
  then_in-Occupied w r r' uri p m o own others n h =
      ground (arith, eq_iff uri n, is_idle-if (uri == n) p (w.pending n), h, own, others n, o n)
