-- ===== src/Mediator/History.antt =====
-- Histories of the mediator of src/mediator/mediator.cpp: what holds after any sequence of events
-- in which the handlers run one after the other.
use mathlib.Core.Option.{some-injective}
use mathlib.Core.Path.{subst}
use mros_w24_solution.Common.{String, ℕ, true, some, ◌≡◌, sym, ◌∙◌}
use mros_w24_solution.Json.{JsonLib}
use mros_w24_solution.Mediator.{Mediator, AddressPort, init}
use mros_w24_solution.Mediator.Registry.{Registry, Represents, no_nodes}
use mros_w24_solution.Mediator.Views.{address, subscribes as subscribes_to, connection}
use mros_w24_solution.Mediator.Announce.{Told}
use mros_w24_solution.Mediator.Events.{Event, Allowed, record_event, serve}
use mros_w24_solution.Mediator.Invariant.{Inv, init-Inv, serve-Inv}

module _ ⦃json : JsonLib⦄ where
  -- The mediator after a history, with what the history amounts to.
  pub data Reach : Mediator → Registry → Type 0 where
    start : Reach init no_nodes
    next :
        {m m' : Mediator} {r : Registry} (e : Event)
        → Reach m r
        → Allowed e r
        → serve e m ≡ some m'
        → Reach m' (record_event e r)

  Reach-Inv : {m : Mediator} {r : Registry} → Reach m r → Inv m r
  Reach-Inv start = init-Inv
  Reach-Inv (next {m} {m'} {r} e before allowed done) =
      let (m'', done', v) = serve-Inv (Reach-Inv before) e allowed in
      subst (λ m. Inv m (record_event e r)) (some-injective m'' m' (sym done' ∙ done)) v

  -- After any history, both tables say of every node and topic what the history amounts to.
  pub Reach-Represents : {m : Mediator} {r : Registry} → Reach m r → Represents m r
  Reach-Represents h = (Reach-Inv h).represents

  pub Reach-serve :
      {m : Mediator} {r : Registry}
      → Reach m r
      → (e : Event) → Allowed e r
      → (m' : Mediator) × (serve e m ≡ some m') × Reach m' (record_event e r)
  Reach-serve h e allowed =
      let (m', done, _) = serve-Inv (Reach-Inv h) e allowed in (m', done, next e h allowed done)

  -- After any history in which the handlers run one after the other, every connected subscriber has
  -- been sent the address of every publisher on its topic, whichever of the two came first.
  pub Reach-discovered :
      {m : Mediator} {r : Registry}
      → Reach m r
      → (publisher subscriber topic : String) (a : AddressPort) (c : ℕ)
      → address m publisher topic ≡ some a
      → subscribes_to m subscriber topic ≡ true
      → connection m subscriber ≡ some c
      → Told m c topic a
  Reach-discovered h p s t a c e i k =
      let v = Reach-Inv h in
      v.discovered p s t a c (sym (v.represents.address_eq p t) ∙ e)
        (sym (v.represents.subscribes_eq s t) ∙ i) (sym (v.represents.connection_eq s) ∙ k)
