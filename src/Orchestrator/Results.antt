-- ===== src/Orchestrator/Results.antt =====
-- `process_result` of crates/cca-daemon/src/orchestrator.rs: the way of a result through the tables,
-- the RL service, Redis and the aggregation of the parent's results.
use cca.Common.{
  ℕ, ◌%◌, true, Option, none, some, String, F64, Result, ok, err, panic, if◌then◌else◌, u32_mod,
  ℕ_discrete,
}
use cca.Common.Map
use cca.Core.Task.{TaskResult}
use cca.Core.Role.{AgentRole, from_str, backend}
use cca.Rl.State.{route_to_agent}
use cca.Rl.Experience.{Experience}
use cca.Rl.Engine.{Draws}
use cca.Rl.Service.{RlService, compute_reward}
use cca.Rl.Service
use cca.Orchestrator.{AgentWorkload, Orchestrator, Services, Error, serialization}
use cca.Orchestrator.Selection.{state_of}
use cca.Orchestrator.Routing.{publish}
use cca.Orchestrator.Outcomes.{
  elapsed, assigned_agent, task_description, credit, forget_start, finish_task,
}
use cca.Orchestrator.Aggregation.{try_aggregate_result}

module _ {F : Type 0} where
  abbrev pub role_of : Services → Option (AgentWorkload F) → AgentRole
  role_of sv none = backend
  role_of sv (some w) = from_str sv.to_lowercase w.role

  -- An error of the service comes from its training, when the experience is recorded already. A
  -- panic of it is one of `process_result`.
  unfoldable pub learnt : F64 F → Draws F → Experience F → RlService F → Result Error (RlService F)
  unfolding Service.record_experience Service.recorded
  learnt fl d x rl = elim (Service.record_experience fl d x rl) [
    | ok rl' ↦ ok rl'
    | err message ↦ ok (Service.recorded fl x rl)
    | panic ↦ panic
  ]

module _ {C F : Type 0} where
  unfoldable pub kept_by :
      Orchestrator C F → Result Error (RlService F) → Result Error (Orchestrator C F)
  kept_by o (ok rl) = ok (record o { rl_service = some rl })
  kept_by o (err e) = err e
  kept_by o panic = panic

module _ {C F : Type 0} (sv : Services) (fl : F64 F) where
  unfoldable pub experience_of : ℕ → ℕ → String → TaskResult → Orchestrator C F → Experience F
  unfolding state_of compute_reward
  experience_of agent_id duration_ms description result o = record {
    state = state_of sv fl description (Map.values o.agent_workloads);
    action = route_to_agent (role_of sv (Map.get ℕ_discrete agent_id o.agent_workloads));
    reward =
        compute_reward fl result.success (result.tokens_used % u32_mod) (duration_ms % u32_mod)
          10000 60000;
    next_state = none;
    done = true;
  }

  unfoldable pub learn_by :
      Option (RlService F)
      → Draws F
      → ℕ
      → ℕ
      → String
      → TaskResult
      → Orchestrator C F
      → Result Error (Orchestrator C F)
  unfolding learnt experience_of kept_by
  learn_by none d agent_id duration_ms description result o = ok o
  learn_by (some rl) d agent_id duration_ms description result o =
      kept_by o (learnt fl d (experience_of agent_id duration_ms description result o) rl)

  unfoldable pub learn :
      Draws F
      → Option ℕ
      → ℕ
      → String
      → TaskResult
      → Orchestrator C F
      → Result Error (Orchestrator C F)
  unfolding learn_by
  learn d none duration_ms description result o = ok o
  learn d (some agent_id) duration_ms description result o =
      learn_by o.rl_service d agent_id duration_ms description result o

  -- The publication on `cca:coord`, and its error if any.
  unfoldable pub publish_result :
      ℕ → TaskResult → Orchestrator C F → Orchestrator C F × Option Error
  unfolding publish
  publish_result duration_ms result o =
      if o.redis
      then elim (sv.result_json result duration_ms) [
        | none ↦ (o, some serialization)
        | some message ↦ publish sv "cca:coord" message o
      ]
      else (o, none)

  -- An error of the publication ends the call.
  unfoldable pub then_aggregate :
      (ℕ → String)
      → ℕ
      → TaskResult
      → Orchestrator C F × Option Error
      → Orchestrator C F × Result Error (Option TaskResult)
  unfolding try_aggregate_result
  then_aggregate uuid_text now result (o, some e) = (o, err e)
  then_aggregate uuid_text now result (o, none) =
      let (o', r) = try_aggregate_result uuid_text now result.task_id result o in (o', ok r)

  -- What comes behind the learning.
  unfoldable pub settle :
      (ℕ → String)
      → ℕ
      → ℕ
      → TaskResult
      → Orchestrator C F
      → Orchestrator C F × Result Error (Option TaskResult)
  unfolding publish_result finish_task then_aggregate
  settle uuid_text now duration_ms result o =
      then_aggregate uuid_text now result
        (publish_result duration_ms result (finish_task now result o))

  unfoldable pub or_panic :
      (ℕ → String)
      → ℕ
      → ℕ
      → TaskResult
      → Orchestrator C F
      → Result Error (Orchestrator C F)
      → Orchestrator C F × Result Error (Option TaskResult)
  unfolding settle
  or_panic uuid_text now duration_ms result before (ok o) =
      settle uuid_text now duration_ms result o
  or_panic uuid_text now duration_ms result before (err e) = (before, err e)
  or_panic uuid_text now duration_ms result before panic = (before, panic)

  -- `now` is read once; after a panic the state is that before the learning.
  unfoldable pub process_result :
      (ℕ → String)
      → ℕ
      → Draws F
      → TaskResult
      → Orchestrator C F
      → Orchestrator C F × Result Error (Option TaskResult)
  unfolding learn credit forget_start or_panic
  process_result uuid_text now d result o =
      let duration_ms = elapsed now result (Map.get ℕ_discrete result.task_id o.task_start_times) in
      let task = Map.get ℕ_discrete result.task_id o.tasks in
      let credited =
        credit fl result.success duration_ms (assigned_agent task)
          (forget_start result.task_id o) in
      or_panic uuid_text now duration_ms result credited
        (learn d (assigned_agent task) duration_ms (task_description task) result credited)
