-- ===== src/Orchestrator/Delegation.antt =====
-- `delegate_to_specialists` (crates/cca-daemon/src/orchestrator.rs).
use cca.Common.{ℕ, List, [], ◌∷◌, String, F64, Result, ok, err, panic, ◌>>=◌, ℕ_discrete, length}
use cca.Common.Map
use cca.Core.Task.{Task}
use cca.Core.Task
use cca.Acp.Env.{Env}
use cca.Rl.Engine.{Draws}
use cca.Orchestrator.{Orchestrator, PendingAggregation, Services, Error}
use cca.Orchestrator.Routing.{route_task_auto}

unfoldable pub fresh_aggregation : ℕ → List ℕ → PendingAggregation
fresh_aggregation parent_id subtask_ids = record {
  parent_task_id = parent_id;
  subtask_ids = subtask_ids;
  results = [];
  required_count = length subtask_ids;
}

module _ {C F : Type 0} where
  -- What follows the routing of a subtask, when the routing of the others gives the second argument.
  -- A subtask that could not be routed is only logged.
  unfoldable pub after_routing :
      Orchestrator C F × Result Error ℕ
      → Orchestrator C F × Result Error (List ℕ)
      → Orchestrator C F × Result Error (List ℕ)
  after_routing (o, ok id) (o', ids) = (o', do rest ← ids; ok (id ∷ rest))
  after_routing (o, err e) (o', ids) = (o', ids)
  after_routing (o, panic) (o', ids) = (o, panic)

module _ {C F : Type 0} (sv : Services) (env : Env C) (fl : F64 F) where
  -- The loop over the subtasks, each with its role and what is drawn for its prediction.
  unfoldable pub route_all :
      ℕ
      → ℕ
      → List (Draws F × String × Task)
      → Orchestrator C F
      → Orchestrator C F × Result Error (List ℕ)
  unfolding route_task_auto Task.with_parent after_routing
  route_all now parent_id [] o = (o, ok [])
  route_all now parent_id ((d, role, subtask) ∷ subtasks) o =
      let routed = route_task_auto sv env fl now d (Task.with_parent parent_id subtask) role o in
      after_routing routed (route_all now parent_id subtasks routed.0)

  unfoldable pub expect_results :
      ℕ → Orchestrator C F × Result Error (List ℕ) → Orchestrator C F × Result Error ℕ
  unfolding fresh_aggregation
  expect_results parent_id (o, ok ids) = (
    record o {
      pending_aggregations =
          Map.insert ℕ_discrete parent_id (fresh_aggregation parent_id ids) o.pending_aggregations;
    },
    ok parent_id,
  )
  expect_results parent_id (o, err e) = (o, err e)
  expect_results parent_id (o, panic) = (o, panic)

  unfoldable pub delegate_to_specialists :
      ℕ
      → Task
      → List (Draws F × String × Task)
      → Orchestrator C F
      → Orchestrator C F × Result Error ℕ
  unfolding route_all expect_results
  delegate_to_specialists now parent_task subtasks o = expect_results parent_task.id (
      route_all now parent_task.id subtasks
        (record o { tasks = Map.insert ℕ_discrete parent_task.id parent_task o.tasks }))
