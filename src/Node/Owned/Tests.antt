-- ===== src/Node/Owned/Tests.antt =====
-- A publisher that is destroyed in the midst of accepting, after it has lost its node, and one that
-- still has it.
use mros_w24_solution.Common.{ℕ, true, [], ◌∷◌, some, ◌≡◌, refl, arith}
use mros_w24_solution.Json.Sample.{tree_json}
use mros_w24_solution.Publisher.{
  Publisher, at_accept, nothing, connection, new_publisher, accept_step,
}
use mros_w24_solution.Publisher.Schedules.{act, accepts, Reach, start, next}
use mros_w24_solution.Publisher.Ends.{over}
use mros_w24_solution.Node.{new_node, remove_publisher_by_topic}
use mros_w24_solution.Node.Owned.{destroy_publisher, tell}
use mros_w24_solution.Node.Owned.Destroyed.{destroy_publisher-over}

abbrev accepting : Publisher ℕ
accepting = record new_publisher { acceptor = at_accept }

accepting-Reach : Reach [] [] accepting
unfolding act accept_step
accepting-Reach = next (accepts nothing) start tt refl

destroy_publisher-over_example :
    destroy_publisher "chat"
      (connection 4 ∷ nothing ∷ nothing ∷ nothing ∷ nothing ∷ [])
      (accepting, some (new_node true true))
    ≡ some (over accepting, tell (remove_publisher_by_topic "chat") (some (new_node true true)))
destroy_publisher-over_example =
    destroy_publisher-over "chat" (connection 4) nothing nothing nothing nothing
      (some (new_node true true)) accepting-Reach (λ e. ground arith)
