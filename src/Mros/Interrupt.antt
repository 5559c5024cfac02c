-- ===== src/Mros/Interrupt.antt =====
-- ctrl+C in a process with nodes, each of which has registered its `disconnect` as
-- src/mros/node.cpp does.
mod Tests
use mathlib.Core.List.{append-nil, append_assoc}
use mros_w24_solution.Common.{
  ℕ, Bool, true, false, ◌||◌, List, [], ◌∷◌, ◌++◌, map, Option, none, some, ◌>>=◌, nat_eq,
  if◌then◌else◌, ◌≡◌, refl, sym, ap, ◌∙◌, arith, Bool-cases, inl, inr,
}
use mros_w24_solution.Json.{JsonLib}
use mros_w24_solution.Node.{Node, disconnect}
use mros_w24_solution.Node.Leaving.{disconnect-disconnect}
use mros_w24_solution.Mros.{
  Mros, sigint, init, active, register_deactivate_routine, run_routines, deactivate,
  handle_signal_of, handle_signal,
}

module _ ⦃json : JsonLib⦄ where
  -- The nodes of a process by their number.
  abbrev pub Nodes : Type 0
  Nodes = ℕ → Node

  -- The routine that a node registers.
  abbrev pub disconnect_node : (ℕ → Bool) → ℕ → Nodes → Nodes
  disconnect_node alive i nodes j = if nat_eq i j then disconnect alive (nodes j) else nodes j

  -- The instance after `init` and the constructors of some nodes.
  abbrev pub register_all : (ℕ → Bool) → List ℕ → Option (Mros Nodes) → Option (Mros Nodes)
  register_all alive [] p = p
  register_all alive (i ∷ nodes) p =
      register_all alive nodes (register_deactivate_routine (disconnect_node alive i) p)

  abbrev pub has : ℕ → List ℕ → Bool
  has j [] = false
  has j (i ∷ l) = nat_eq i j || has j l

  -- What the routines of some nodes do to each node.
  abbrev disconnected : (ℕ → Bool) → List ℕ → Nodes → Nodes
  disconnected alive l nodes j = if has j l then disconnect alive (nodes j) else nodes j

  again :
      (alive : ℕ → Bool) (here later : Bool) (n : Node)
      → (if later
          then disconnect alive (if here then disconnect alive n else n)
          else if here
          then disconnect alive n
          else n)
        ≡ (if here || later then disconnect alive n else n)
  again alive false false n = refl
  again alive false true n = refl
  again alive true false n = refl
  again alive true true n = disconnect-disconnect alive alive n

  twice :
      (alive : ℕ → Bool) (here : Bool) (n : Node)
      → (if here
          then disconnect alive (if here then disconnect alive n else n)
          else if here
          then disconnect alive n
          else n)
        ≡ (if here then disconnect alive n else n)
  twice alive false n = refl
  twice alive true n = disconnect-disconnect alive alive n

  register_all_lem :
      (alive : ℕ → Bool) (l : List ℕ) (m : Mros Nodes)
      → register_all alive l (some m)
        ≡ some (record m {
          deactivate_routines = m.deactivate_routines ++ map (disconnect_node alive) l;
        })
  unfolding register_deactivate_routine
  register_all_lem alive [] m =
      ap (λ (rs : List (Nodes → Nodes)). some (record m { deactivate_routines = rs }))
        (sym (append-nil m.deactivate_routines))
  register_all_lem alive (i ∷ l) m =
      register_all_lem alive l
        (record m { deactivate_routines = m.deactivate_routines ++ disconnect_node alive i ∷ [] })
      ∙ ap (λ (rs : List (Nodes → Nodes)). some (record m { deactivate_routines = rs }))
          (append_assoc m.deactivate_routines (disconnect_node alive i ∷ [])
            (map (disconnect_node alive) l))

  run_routines-disconnect :
      (alive : ℕ → Bool) (l : List ℕ) (nodes : Nodes) (j : ℕ)
      → run_routines (map (disconnect_node alive) l) nodes j ≡ disconnected alive l nodes j
  unfolding run_routines
  run_routines-disconnect alive [] nodes j = refl
  run_routines-disconnect alive (i ∷ l) nodes j =
      run_routines-disconnect alive l (disconnect_node alive i nodes) j
      ∙ again alive (nat_eq i j) (has j l) (nodes j)

  -- ctrl+C in a process whose instance is set up and whose nodes have registered: every node that
  -- has registered is disconnected, every other node is as before, the instance is no longer active,
  -- and a second ctrl+C changes no node.
  pub handle_signal-disconnect :
      (alive : ℕ → Bool) (l : List ℕ) (nodes : Nodes) (j : ℕ)
      → let (p, after) = handle_signal sigint (register_all alive l (init none)) nodes in
        (after j ≡ (if has j l then disconnect alive (nodes j) else nodes j))
        × (active p ≡ some false)
        × ((handle_signal sigint p after).1 j ≡ after j)
  unfolding handle_signal handle_signal_of deactivate init active
  handle_signal-disconnect alive l nodes j =
      let m : Mros Nodes = record { active = true; deactivate_routines = [] } in
      let routines = map (disconnect_node alive) l in
      let once = run_routines-disconnect alive l nodes j in
      rw (register_all_lem alive l m) (
        once,
        refl,
        run_routines-disconnect alive l (run_routines routines nodes) j
            ∙ ap (λ (n : Node). if has j l then disconnect alive n else n) once
            ∙ twice alive (has j l) (nodes j)
            ∙ sym once,
      )
